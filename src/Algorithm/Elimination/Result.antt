-- ===== src/Algorithm/Elimination/Result.antt =====
-- What the hypothesis of a finished part matches.
use worker_unit.Base.{
  ℕ, zero, suc, ◌+◌, ◌-◌, ◌<◌, ◌≤◌, ◌≡◌, ◌≢◌, refl, sym, ap, ◌∙◌, subst, Bool, true, false, Option,
  none, some, List, [], ◌∷◌, arith, ◌==◌, ==_iff, if_true, if_false, length, Bool-cases, inl, inr,
}
use worker_unit.Base.Text.{Bytes}
use worker_unit.FileDatabase.{FileDataBaseAccess}
use worker_unit.Algorithm.Elimination.{
  CandidateElimination, is_positive, get_first_postive, run_job,
}
use worker_unit.Algorithm.Elimination.Rows.{fields, Reads, is_negative, absorb, absorb_rows}
use worker_unit.Algorithm.Elimination.Counts.{
  tally, Found, find_positive-Found, Fresh, begun, run_job-begun, is_positive-length,
  is_negative-length,
}
use worker_unit.Algorithm.Elimination.Cover.{
  Starless, Covers, true-false, positive_columns-Covers_old, positive_columns-Covers,
  length-positive_columns, length-negative_columns,
}

after : {a b : ℕ} → a ≤ b → (a == b) ≡ false → a + 1 ≤ b
after {a} {b} h e = ground arith

suc_zero : {n : ℕ} → suc n ≡ 0 → ⊥
suc_zero {n} h = omega arith

module _ (iequals : Bytes → Bytes → Bool) where
  -- One entry of each hypothesis for each column.
  abbrev pub Sized : CandidateElimination → Type 0
  Sized ce = (length ce.s ≡ ce.columns) × (length ce.g ≡ ce.columns)

  pub absorb-Sized :
      (vs : List Bytes) (ce : CandidateElimination) → Sized ce → Sized (absorb iequals vs ce)
  absorb-Sized vs ce (a, b) = elim (Bool-cases (is_positive iequals vs ce)) [
    | inl e ↦
        let l = is_positive-length iequals vs ce e in
        let (p, q) = length-positive_columns iequals ce.s ce.g vs (omega arith) (omega arith) in
        (ap length (if_true _ _ _ e) ∙ p ∙ a, ap length (if_true _ _ _ e) ∙ q ∙ a)
    | inr e ↦ elim (Bool-cases (is_negative iequals vs ce)) [
      | inl f ↦
          let l = is_negative-length iequals vs ce f in
          let q = length-negative_columns iequals ce.s ce.g vs (omega arith) (omega arith) in
          (ap length (if_false _ _ _ e) ∙ a, ap length (if_false _ _ _ e ∙ if_true _ _ _ f) ∙ q ∙ a)
      | inr f ↦
          (ap length (if_false _ _ _ e) ∙ a, ap length (if_false _ _ _ e ∙ if_false _ _ _ f) ∙ b)
    ]
  ]

  absorb-Covers_old :
      (vs us : List Bytes) (ce : CandidateElimination)
      → Covers iequals ce.s us
      → Covers iequals (absorb iequals vs ce).s us
  absorb-Covers_old vs us ce h = elim (Bool-cases (is_positive iequals vs ce)) [
    | inl e ↦
        subst (λ s. Covers iequals s us) (sym (if_true _ _ _ e))
          (positive_columns-Covers_old iequals ce.s ce.g vs us h)
    | inr e ↦ subst (λ s. Covers iequals s us) (sym (if_false _ _ _ e)) h
  ]

  absorb_rows-Covers_old :
      (n : ℕ) (us : List Bytes) (ce : CandidateElimination)
      → Covers iequals ce.s us
      → Covers iequals (absorb_rows iequals n ce).s us
  unfolding absorb_rows
  absorb_rows-Covers_old zero us ce h = h
  absorb_rows-Covers_old (suc n) us ce h =
      let vs = fields ce.start ce.file_data_base_access in
      absorb_rows-Covers_old n us (absorb iequals vs (record ce { start = ce.start + 1 }))
        (absorb-Covers_old vs us (record ce { start = ce.start + 1 }) h)

  tally-positive :
      (p : List Bytes → Bool) (d : FileDataBaseAccess) (n row i : ℕ)
      → row ≤ i
      → i < row + n
      → p (fields i d) ≡ true
      → tally p d n row ≢ 0
  unfolding tally
  tally-positive p d zero row i h k e z = omega arith
  tally-positive p d (suc n) row i h k e z = elim (Bool-cases (p (fields row d))) [
    | inl f ↦ absurd (suc_zero (sym (if_true _ _ _ f) ∙ z))
    | inr f ↦ elim (Bool-cases (row == i)) [
      | inl g ↦
          absurd (true-false (sym e ∙ ap (λ j. p (fields j d)) (sym ((==_iff row i).0 g)) ∙ f))
      | inr g ↦
          tally-positive p d n (row + 1) i (after h g) (omega arith) e (sym (if_false _ _ _ f) ∙ z)
    ]
  ]

  module _ (iequals-refl : (v : Bytes) → iequals v v ≡ true) where
    absorb-Covers :
        (vs : List Bytes) (ce : CandidateElimination)
        → Sized ce
        → Starless vs
        → is_positive iequals vs ce ≡ true
        → Covers iequals (absorb iequals vs ce).s vs
    absorb-Covers vs ce (a, b) l e =
        let k = is_positive-length iequals vs ce e in
        subst (λ s. Covers iequals s vs) (sym (if_true _ _ _ e))
          (positive_columns-Covers iequals iequals-refl ce.s ce.g vs (omega arith) (omega arith) l)

    absorb_rows-Covers :
        (n i : ℕ) (ce : CandidateElimination)
        → Sized ce
        → ce.start ≤ i
        → i < ce.start + n
        → Starless (fields i ce.file_data_base_access)
        → is_positive iequals (fields i ce.file_data_base_access) ce ≡ true
        → Covers iequals (absorb_rows iequals n ce).s (fields i ce.file_data_base_access)
    unfolding absorb_rows is_positive
    absorb_rows-Covers zero i ce z a b l e = absurd (omega arith)
    absorb_rows-Covers (suc n) i ce z a b l e =
        let vs = fields ce.start ce.file_data_base_access in
        let next = absorb iequals vs (record ce { start = ce.start + 1 }) in
        elim (Bool-cases (ce.start == i)) [
          | inl p ↦
              let q = (==_iff ce.start i).0 p in
              absorb_rows-Covers_old n (fields i ce.file_data_base_access) next (
                subst
                  (λ j.
                    Covers iequals
                      (absorb iequals (fields j ce.file_data_base_access)
                        (record ce { start = ce.start + 1 })).s
                      (fields i ce.file_data_base_access))
                  (sym q)
                  (absorb-Covers (fields i ce.file_data_base_access)
                    (record ce { start = ce.start + 1 }) z l e))
          | inr p ↦
              absorb_rows-Covers n i next (absorb-Sized vs (record ce { start = ce.start + 1 }) z)
                (after a p) (omega arith) l e
        ]

    -- What a job that has ended says of the rows of its part.
    abbrev pub Covered : CandidateElimination → ℕ → Type 0
    Covered ce i =
        (ce' : CandidateElimination) × (run_job iequals (suc (suc (suc ce.end - ce.start))) ce
          ≡ some ce')
        × Covers iequals ce'.s (fields i ce.file_data_base_access)

    covered :
        (ce : CandidateElimination) (i : ℕ) (o : Option (List Bytes))
        → Reads ce
        → Fresh iequals ce
        → Sized ce
        → ce.start ≤ i
        → i ≤ ce.end
        → Starless (fields i ce.file_data_base_access)
        → is_positive iequals (fields i ce.file_data_base_access) ce ≡ true
        → get_first_postive iequals ce ≡ o
        → Found iequals ce (suc ce.end - ce.start) ce.start o
        → Covered ce i
    unfolding is_positive
    covered ce i none r f z a b l e g h = absurd h
    covered ce i (some []) r f z a b l e g h = absurd (
        tally-positive (λ vs. is_positive iequals vs ce) ce.file_data_base_access
          (suc ce.end - ce.start) ce.start i a (omega arith) e h)
    covered ce i (some (v ∷ vs)) r f z a b l e g (h, k) =
        let n = suc ce.end - ce.start in
        (
          absorb_rows iequals n (begun iequals (v ∷ vs) ce),
          run_job-begun iequals v vs ce r f g h,
          absorb_rows-Covers n i (begun iequals (v ∷ vs) ce) (absorb-Sized (v ∷ vs) ce z) a
              (omega arith) l e,
        )

    -- If no field of the row is a star, then the hypothesis with which the job of a part ends matches
    -- the row, if the row lies in the part and is a positive example.
    pub run_job-Covered :
        (ce : CandidateElimination) (i : ℕ)
        → Reads ce
        → Fresh iequals ce
        → Sized ce
        → ce.start ≤ i
        → i ≤ ce.end
        → Starless (fields i ce.file_data_base_access)
        → is_positive iequals (fields i ce.file_data_base_access) ce ≡ true
        → Covered ce i
    unfolding get_first_postive
    run_job-Covered ce i r f z a b l e =
        covered ce i _ r f z a b l e refl
          (find_positive-Found iequals (suc ce.end - ce.start) ce.start ce r (omega arith))
