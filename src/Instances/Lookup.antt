-- ===== src/Instances/Lookup.antt =====
-- Finding an instance by its identifier.
use worker_unit.Base.{ℕ, ◌%◌, ◌^◌, ◌≡◌, ap, ◌∙◌, false, List, [], ◌∷◌, All, if_true, if_false}
use worker_unit.Base.Text.{Bytes, equal, equal-refl}
use worker_unit.Instances.{Instance, new_instance, push_instance, get_instance_from_id}

-- An instance whose identifier is new is the one that its identifier finds, with its row count taken
-- modulo 256.
pub get_instance_from_id-push_instance :
    (id : Bytes) (algorithm columns rows : ℕ) (is : List Instance)
    → All (λ i. equal id i.instance_id ≡ false) is
    → let i = get_instance_from_id id (push_instance (new_instance id algorithm columns rows) is) in
      (i ≡ new_instance id algorithm columns rows) × (i.total_rows ≡ rows % 2 ^ 8)
unfolding get_instance_from_id push_instance new_instance
get_instance_from_id-push_instance id algorithm columns rows [] h =
    let p = if_true _ _ _ (equal-refl id) in (p, ap (λ (i : Instance). i.total_rows) p)
get_instance_from_id-push_instance id algorithm columns rows (i ∷ is) (h, k) =
    let p =
      if_false _ _ _ h ∙ (get_instance_from_id-push_instance id algorithm columns rows is k).0 in
    (p, ap (λ (i : Instance). i.total_rows) p)
