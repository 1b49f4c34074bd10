-- ===== src/Base/Perms.antt =====
-- Reorderings of lists put together from several.
use mathlib.Core.Path.{subst}
use mathlib.Core.List.{List, ◌++◌, Perm, perm_append_comm, append_assoc}
use mathlib.Core.List.Perm

module _ {ℓ} {A : Type ℓ} where
  pub swap_front : (xs ys zs : List A) → Perm (xs ++ (ys ++ zs)) (ys ++ (xs ++ zs))
  swap_front xs ys zs =
      subst (λ l. Perm l (ys ++ (xs ++ zs))) (append_assoc xs ys zs)
        (subst (λ l. Perm ((xs ++ ys) ++ zs) l) (append_assoc ys xs zs)
          (Perm.append_right zs (perm_append_comm xs ys)))
