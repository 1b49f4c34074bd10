-- ===== src/DataProcessor/InstanceData/Names.antt =====
-- Which tables pass the comparison of the columns.
use worker_unit.Base.{
  ℕ, suc, ◌<◌, ◌≡◌, refl, sym, ap, ◌∙◌, Bool, true, false, ◌&&◌, Option, none, some, List, [], ◌∷◌,
  arith, ◌==◌, if_true, if_false, if◌then◌else◌, length, Bool-cases, inl, inr, ◌⊎◌,
}
use worker_unit.Base.Text.{Bytes, equal, equal-eq}
use worker_unit.FileDatabase.Duplicates.{member}
use worker_unit.DataProcessor.InstanceData.{
  find_column, add_match, with_match, match_columns, compare_columns, all_matched, columns, failed,
  column_names,
}

find_column-member :
    (u : Bytes) (cs : List Bytes)
    → (member u cs ≡ true) × (find_column u cs ≡ some u)
      ⊎ (member u cs ≡ false) × (find_column u cs ≡ none)
unfolding find_column member
find_column-member u [] = inr (refl, refl)
find_column-member u (c ∷ cs) = elim (Bool-cases (equal u c)) [
  | inl e ↦ inl (simp e refl, if_true _ _ _ e ∙ ap some (sym (equal-eq u c e)))
  | inr e ↦ rw e (find_column-member u cs)
]

-- Whether each of the names is among the instance's.
unfoldable pub all_known : List Bytes → List Bytes → Bool
unfolding member
all_known [] cs = true
all_known (u ∷ us) cs = member u cs && all_known us cs

abbrev pub Matched : List Bytes → List Bytes → Option (List Bytes) → Type 0
Matched us cs none = ⊥
Matched us cs (some ms) =
    (all_known us cs ≡ true) × (ms ≡ us) ⊎ (all_known us cs ≡ false) × (length ms < length us)

Matched-cons :
    (u : Bytes) (us cs : List Bytes) (o : Option Bytes) (r : Option (List Bytes))
    → (member u cs ≡ true) × (o ≡ some u) ⊎ (member u cs ≡ false) × (o ≡ none)
    → Matched us cs r
    → Matched (u ∷ us) cs (with_match o r)
unfolding all_known with_match add_match
Matched-cons u us cs o none h m = absurd m
Matched-cons u us cs o (some ms) (inl (a, b)) (inl (p, q)) =
    rw (a, b, p) (inl (refl, ap (λ t. u ∷ t) q))
Matched-cons u us cs o (some ms) (inl (a, b)) (inr (p, q)) = rw (a, b, p) (inr (refl, omega arith))
Matched-cons u us cs o (some ms) (inr (a, b)) (inl (p, q)) =
    rw (a, b) (inr (refl, omega (arith, ap length q)))
Matched-cons u us cs o (some ms) (inr (a, b)) (inr (p, q)) = rw (a, b) (inr (refl, omega arith))

match_columns-Matched : (us cs : List Bytes) → Matched us cs (match_columns (length us) us cs)
unfolding match_columns all_known
match_columns-Matched [] cs = inl (refl, refl)
match_columns-Matched (u ∷ us) cs =
    Matched-cons u us cs _ _ (find_column-member u cs) (match_columns-Matched us cs)

==_refl : (n : ℕ) → (n == n) ≡ true
==_refl n = ground arith

lt→==_false : (a b : ℕ) → a < b → (a == b) ≡ false
lt→==_false a b h = ground arith

positive : (n : ℕ) → (suc n == 0) ≡ false
positive n = ground arith

all_matched-Matched :
    (us cs : List Bytes) (r : Option (List Bytes))
    → Matched us cs r
    → all_matched (length us) r ≡ some (if all_known us cs then columns us else failed column_names)
unfolding all_matched
all_matched-Matched us cs none m = absurd m
all_matched-Matched us cs (some ms) (inl (p, q)) = rw (p, q, ==_refl (length us)) refl
all_matched-Matched us cs (some ms) (inr (p, q)) =
    rw (p, lt→==_false (length ms) (length us) q) refl

-- A table with as many columns as its instance, and at least one, passes the comparison exactly if
-- each of its column names is one of the instance's. The result is then the table's own names in
-- their order; otherwise the error is that of the names.
pub compare_columns-all_known :
    (us cs : List Bytes)
    → 0 < length us
    → compare_columns (length us) us (some cs)
      ≡ some (if all_known us cs then columns us else failed column_names)
unfolding compare_columns
compare_columns-all_known [] cs h = absurd (omega arith)
compare_columns-all_known (u ∷ us) cs h =
    if_false _ _ _ (positive (length us))
    ∙ all_matched-Matched (u ∷ us) cs _ (match_columns-Matched (u ∷ us) cs)
