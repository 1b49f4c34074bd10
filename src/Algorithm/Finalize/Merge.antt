-- ===== src/Algorithm/Finalize/Merge.antt =====
-- What the merged hypothesis matches, and what a part without a positive example does to it.
use worker_unit.Base.{
  ℕ, zero, suc, ◌≡◌, refl, sym, ap, ◌∙◌, subst, Bool, true, false, not, Option, none, some, List,
  [], ◌∷◌, arith, ◌++◌, length, All, Bool-cases, inl, inr, ◌⊎◌,
}
use worker_unit.Base.Text.{Bytes, equal, equal-refl, equal-eq}
use worker_unit.Algorithm.Elimination.{CeResultExportObject, star, question, stars}
use worker_unit.Algorithm.Elimination.Cover.{Matches, Covers, Starless, true-false}
use worker_unit.Algorithm.Finalize.{
  CeFinalize, merge, add_totals, starts, aggregate_one, start_after, continue_with, aggregate_from,
  aggrigate_results,
}

unfoldable pub questions : ℕ → List Bytes
questions zero = []
questions (suc n) = question ∷ questions n

star_differs : (s : Bytes) → equal s star ≡ false → equal star s ≡ false
star_differs s h = elim (Bool-cases (equal star s)) [
  | inl e ↦ absurd (true-false (sym (rw⁻¹ (equal-eq star s e) (equal-refl star)) ∙ h))
  | inr e ↦ e
]

-- After a part without a positive example the merged hypothesis is a question mark in every column,
-- if it had no star.
pub merge-stars :
    (ss : List Bytes) → Starless ss → merge (stars (length ss)) ss ≡ questions (length ss)
unfolding merge stars questions
merge-stars [] h = refl
merge-stars (s ∷ ss) (h, k) = rw (star_differs s h) (ap (λ t. question ∷ t) (merge-stars ss k))

module _ (iequals : Bytes → Bytes → Bool) where
  merge-Covers_new :
      (rs ss us : List Bytes)
      → length rs ≡ length ss
      → Covers iequals rs us
      → Covers iequals (merge rs ss) us
  unfolding merge
  merge-Covers_new [] [] us h c = tt
  merge-Covers_new [] (s ∷ ss) us h c = absurd (omega arith)
  merge-Covers_new (r ∷ rs) [] us h c = tt
  merge-Covers_new (r ∷ rs) (s ∷ ss) [] h c = c
  merge-Covers_new (r ∷ rs) (s ∷ ss) (u ∷ us) h (m, c) =
      let rest = merge-Covers_new rs ss us (omega arith) c in
      elim (Bool-cases (equal r s)) [
        | inl e ↦ rw e (subst (λ x. Matches iequals x u) (equal-eq r s e) m, rest)
        | inr e ↦ rw e (inl refl, rest)
      ]

  merge-Covers_old :
      (rs ss us : List Bytes) → Covers iequals ss us → Covers iequals (merge rs ss) us
  unfolding merge
  merge-Covers_old [] ss us c = c
  merge-Covers_old (r ∷ rs) [] us c = tt
  merge-Covers_old (r ∷ rs) (s ∷ ss) [] c = c
  merge-Covers_old (r ∷ rs) (s ∷ ss) (u ∷ us) (m, c) =
      let rest = merge-Covers_old rs ss us c in
      elim (Bool-cases (equal r s)) [ inl e ↦ rw e (m, rest) | inr e ↦ rw e (inl refl, rest) ]

  length-merge : (rs ss : List Bytes) → length (merge rs ss) ≡ length ss
  unfolding merge
  length-merge [] ss = refl
  length-merge (r ∷ rs) [] = refl
  length-merge (r ∷ rs) (s ∷ ss) = ap suc (length-merge rs ss)

  -- A result with one entry of each hypothesis for each of at least one column.
  abbrev pub Part : ℕ → CeResultExportObject → Type 0
  Part c r = (length r.s ≡ suc c) × (length r.g ≡ suc c)

  -- The merge ends in a state that matches the row.
  abbrev pub Ends : List Bytes → Option CeFinalize → Type 0
  Ends us none = ⊥
  Ends us (some f) = Covers iequals f.s us

  started-Ends :
      (c : ℕ) (us : List Bytes) (rs : List CeResultExportObject) (f : CeFinalize)
      → length f.s ≡ suc c
      → Covers iequals f.s us
      → Ends us (aggregate_from true rs f)
  unfolding aggregate_from start_after continue_with aggregate_one add_totals
  started-Ends c us [] f h k = k
  started-Ends c us (r ∷ rs) f h k =
      started-Ends c us rs (aggregate_one true r f) (length-merge r.s f.s ∙ h)
        (merge-Covers_old r.s f.s us k)

  starts-some : (ss : List Bytes) (c : ℕ) → length ss ≡ suc c → (b : Bool) × (starts ss ≡ some b)
  unfolding starts
  starts-some [] c h = absurd (omega arith)
  starts-some (s ∷ ss) c h = (not (equal s star), refl)

  -- Whichever state the merge is in, after a part with a positive example it matches what that part
  -- matches.
  Part-Ends :
      (c : ℕ) (us : List Bytes) (start : Bool) (r : CeResultExportObject)
      (rs : List CeResultExportObject) (f : CeFinalize)
      → Part c r
      → starts r.s ≡ some true
      → (start ≡ false) ⊎ (length f.s ≡ suc c)
      → Covers iequals r.s us
      → Ends us (aggregate_from start (r ∷ rs) f)
  unfolding aggregate_from start_after continue_with aggregate_one add_totals
  Part-Ends c us false r rs f (h, _) e l k =
      rw e (started-Ends c us rs (aggregate_one false r f) h k)
  Part-Ends c us true r rs f (h, _) e (inl l) k = absurd (true-false l)
  Part-Ends c us true r rs f (h, _) e (inr l) k =
      started-Ends c us rs (aggregate_one true r f) (length-merge r.s f.s ∙ l)
        (merge-Covers_new r.s f.s us (h ∙ sym l) k)

  parts-Ends :
      (c : ℕ) (us : List Bytes) (start : Bool) (xs : List CeResultExportObject)
      (r : CeResultExportObject) (ys : List CeResultExportObject) (f : CeFinalize)
      → All (Part c) xs
      → Part c r
      → starts r.s ≡ some true
      → (start ≡ false) ⊎ (length f.s ≡ suc c)
      → Covers iequals r.s us
      → Ends us (aggregate_from start (xs ++ (r ∷ ys)) f)
  unfolding aggregate_from start_after continue_with aggregate_one add_totals
  parts-Ends c us start [] r ys f a b e l k = Part-Ends c us start r ys f b e l k
  parts-Ends c us true (x ∷ xs) r ys f a b e (inl l) k = absurd (true-false l)
  parts-Ends c us true (x ∷ xs) r ys f a b e (inr l) k =
      parts-Ends c us true xs r ys (aggregate_one true x f) a.1 b e (inr (length-merge x.s f.s ∙ l))
        k
  parts-Ends c us false (x ∷ xs) r ys f a b e l k =
      let (start', p) = starts-some x.s c a.0.0 in
      rw p (parts-Ends c us start' xs r ys (aggregate_one false x f) a.1 b e (inr a.0.0) k)

  -- The merge of the results of all parts ends, and its hypothesis matches every row that the
  -- hypothesis of some part with a positive example matches, wherever that part stands in the order.
  pub aggrigate_results-Ends :
      (c : ℕ) (us : List Bytes) (xs : List CeResultExportObject) (r : CeResultExportObject)
      (ys : List CeResultExportObject) (f : CeFinalize)
      → All (Part c) xs
      → Part c r
      → starts r.s ≡ some true
      → f.result_vectors ≡ xs ++ (r ∷ ys)
      → Covers iequals r.s us
      → Ends us (aggrigate_results f)
  unfolding aggrigate_results
  aggrigate_results-Ends c us xs r ys f a b e l k =
      subst (λ rs. Ends us (aggregate_from false rs f)) (sym l)
        (parts-Ends c us false xs r ys f a b e (inl refl) k)
