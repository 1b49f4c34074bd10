-- ===== src/FileDatabase/Duplicates.antt =====
-- What the removal of duplicate rows does to a table.
use worker_unit.Base.{
  ℕ, zero, suc, ◌≤◌, ◌≡◌, refl, ap, ◌∙◌, Bool, true, false, ◌||◌, List, [], ◌∷◌, arith, length, inl,
  inr, Bool-cases,
}
use worker_unit.Base.Text.{Bytes, equal, equal-eq}
use worker_unit.FileDatabase.{erase_equal, erase_duplicates}

unfoldable pub member : Bytes → List Bytes → Bool
unfolding equal
member s [] = false
member s (r ∷ rs) = equal s r || member s rs

-- No row occurs twice.
abbrev pub Distinct : List Bytes → Type 0
Distinct [] = Unit
Distinct (r ∷ rs) = (member r rs ≡ false) × Distinct rs

-- None of the first rows occurs again later.
abbrev pub DistinctTo : ℕ → List Bytes → Type 0
DistinctTo zero rs = Unit
DistinctTo (suc i) [] = Unit
DistinctTo (suc i) (r ∷ rs) = (member r rs ≡ false) × DistinctTo i rs

pub DistinctTo-Distinct : (i : ℕ) (rs : List Bytes) → length rs ≤ i → DistinctTo i rs → Distinct rs
DistinctTo-Distinct i [] h d = tt
DistinctTo-Distinct zero (r ∷ rs) h d = absurd (omega arith)
DistinctTo-Distinct (suc i) (r ∷ rs) h d = (d.0, DistinctTo-Distinct i rs (omega arith) d.1)

-- No copy of the row itself is left.
pub member-erase_equal_self : (s : Bytes) (rs : List Bytes) → member s (erase_equal s rs).0 ≡ false
unfolding member erase_equal
member-erase_equal_self s [] = refl
member-erase_equal_self s (r ∷ rs) = elim (Bool-cases (equal s r)) [
  | inl e ↦ rw e (member-erase_equal_self s rs)
  | inr e ↦ rw e (rw e (member-erase_equal_self s rs))
]

or_again : (a b c : Bool) → (a || b) ≡ (a || c) → (a || b) ≡ (a || (a || c))
or_again true b c h = refl
or_again false b c h = h

or_between : (a d b c : Bool) → (a || b) ≡ (a || c) → (a || (d || b)) ≡ (a || (d || c))
or_between true d b c h = refl
or_between false true b c h = refl
or_between false false b c h = h

erase_equal-kept :
    (x s r : Bytes) (rs : List Bytes)
    → (equal x s || member x (erase_equal s rs).0) ≡ (equal x s || member x rs)
    → (equal x s || member x (erase_equal s (r ∷ rs)).0) ≡ (equal x s || member x (r ∷ rs))
unfolding member erase_equal
erase_equal-kept x s r rs h = elim (Bool-cases (equal s r)) [
  | inl e ↦ rw e (
      or_again (equal x s) (member x (erase_equal s rs).0) (member x rs) h
      ∙ ap (λ t. equal x s || (equal x t || member x rs)) (equal-eq s r e))
  | inr e ↦
      rw e (or_between (equal x s) (equal x r) (member x (erase_equal s rs).0) (member x rs) h)
]

-- In a table that has the row in front, erasing its other copies loses no row.
member-erase_equal :
    (x s : Bytes) (rs : List Bytes)
    → (equal x s || member x (erase_equal s rs).0) ≡ (equal x s || member x rs)
unfolding member erase_equal
member-erase_equal x s [] = refl
member-erase_equal x s (r ∷ rs) = erase_equal-kept x s r rs (member-erase_equal x s rs)

pub member-erase_duplicates :
    (x : Bytes) (i : ℕ) (rs : List Bytes) → member x (erase_duplicates i rs).0 ≡ member x rs
unfolding member erase_duplicates
member-erase_duplicates x i [] = refl
member-erase_duplicates x zero (r ∷ rs) = member-erase_equal x r rs
member-erase_duplicates x (suc i) (r ∷ rs) =
    ap (λ b. equal x r || b) (member-erase_duplicates x i rs)

-- One more row of the table has no copy after it.
pub erase_duplicates-DistinctTo :
    (i : ℕ) (rs : List Bytes) → DistinctTo i rs → DistinctTo (suc i) (erase_duplicates i rs).0
unfolding erase_duplicates
erase_duplicates-DistinctTo i [] h = tt
erase_duplicates-DistinctTo zero (r ∷ rs) h = (member-erase_equal_self r rs, tt)
erase_duplicates-DistinctTo (suc i) (r ∷ rs) h =
    (member-erase_duplicates r i rs ∙ h.0, erase_duplicates-DistinctTo i rs h.1)

length-erase_equal : (s : Bytes) (rs : List Bytes) → length (erase_equal s rs).0 ≤ length rs
unfolding erase_equal
length-erase_equal s [] = omega arith
length-erase_equal s (r ∷ rs) = elim (Bool-cases (equal s r)) [
  | inl e ↦ rw e (omega (arith, length-erase_equal s rs))
  | inr e ↦ rw e (omega (arith, length-erase_equal s rs))
]

pub length-erase_duplicates :
    (i : ℕ) (rs : List Bytes) → length (erase_duplicates i rs).0 ≤ length rs
unfolding erase_duplicates
length-erase_duplicates i [] = omega arith
length-erase_duplicates zero (r ∷ rs) = omega (arith, length-erase_equal r rs)
length-erase_duplicates (suc i) (r ∷ rs) = omega (arith, length-erase_duplicates i rs)
