-- ===== src/Algorithm/Learning/Order.antt =====
-- The parts of a table, each within the table, in the order in which their jobs end.
use native.Mathlib.Nat.{div-mul-le_self}
use worker_unit.Base.{
  ℕ, zero, suc, ◌+◌, ◌-◌, ◌*◌, ◌/◌, ◌<◌, ◌≤◌, ◌≡◌, ◌⊎◌, inl, inr, refl, sym, subst, List, [], ◌∷◌,
  arith, All, leb, Bool-cases,
}
use worker_unit.Algorithm.Split.{ranges_from, split_ranges}
use worker_unit.Algorithm.Split.Ranges.{Tiles}

abbrev pub In : ℕ × ℕ → List (ℕ × ℕ) → Type 0
In r [] = ⊥
In r (s ∷ rs) = (r ≡ s) ⊎ In r rs

-- A row of the table lies in one of its parts.
pub row-In :
    (first last i : ℕ) (rs : List (ℕ × ℕ))
    → Tiles first last rs
    → first ≤ i
    → i ≤ last
    → (r : ℕ × ℕ) × In r rs × (r.0 ≤ i) × (i ≤ r.1)
row-In first last i [] t a b = absurd t
row-In first last i (r ∷ []) (e, f) a b = (r, inl refl, omega arith, omega arith)
row-In first last i (r ∷ s ∷ rs) (e, f, t) a b = elim (Bool-cases (leb i r.1)) [
  | inl h ↦ (r, inl refl, omega arith, ground arith)
  | inr h ↦ let (q, m, x, y) = row-In s.0 last i (s ∷ rs) t (ground arith) b in (q, inr m, x, y)
]

-- Each part lies within the table, and is empty at the least.
abbrev pub Within : ℕ → ℕ × ℕ → Type 0
Within rows r = (r.0 ≤ suc r.1) × (r.1 ≤ rows)

ranges_from-Within :
    (n i start size rows : ℕ)
    → start ≤ suc (size * i)
    → size * i + size * n ≤ rows
    → All (Within rows) (ranges_from n i start size rows)
unfolding ranges_from
ranges_from-Within zero i start size rows a b = ((omega arith, omega arith), tt)
ranges_from-Within (suc n) i start size rows a b = (
  (omega arith, omega arith),
  ranges_from-Within n (i + 1) (size * i + 1) size rows (omega arith) (omega arith),
)

all_sizes : (size n t rows : ℕ) → t ≡ suc n → size * t ≤ rows → size * 1 + size * n ≤ rows
all_sizes size n t rows e h = let k = subst (λ x. size * x ≤ rows) e h in omega arith

pub split_ranges-Within :
    (threads rows : ℕ) → 0 < threads → All (Within rows) (split_ranges threads rows)
unfolding split_ranges
split_ranges-Within threads rows h =
    ranges_from-Within (threads - 1) 1 1 (rows / threads) rows (omega arith) (
      all_sizes (rows / threads) (threads - 1) threads rows (omega arith)
        (div-mul-le_self rows threads))

pub All-In : (P : ℕ × ℕ → Type 0) (r : ℕ × ℕ) (rs : List (ℕ × ℕ)) → In r rs → All P rs → P r
All-In P r [] m a = absurd m
All-In P r (s ∷ rs) (inl e) a = subst P (sym e) a.0
All-In P r (s ∷ rs) (inr m) a = All-In P r rs m a.1

pub map_All :
    {A : Type 0} {P Q : A → Type 0} → (f : (a : A) → P a → Q a) (xs : List A) → All P xs → All Q xs
map_All f [] h = tt
map_All f (x ∷ xs) h = (f x h.0, map_All f xs h.1)

-- The list has the parts of the table and no others.
abbrev pub Orders : List (ℕ × ℕ) → List (ℕ × ℕ) → Type 0
Orders order parts = All (λ r. In r order) parts × All (λ r. In r parts) order
