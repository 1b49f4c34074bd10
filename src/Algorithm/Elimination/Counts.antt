-- ===== src/Algorithm/Elimination/Counts.antt =====
-- The counts of examples that a part of the table exports.
use worker_unit.Base.{
  ℕ, zero, suc, ◌+◌, ◌-◌, ◌<◌, ◌≤◌, ◌≡◌, refl, sym, ap, ◌∙◌, subst, Bool, true, false, not, ◌&&◌,
  Option, none, some, List, [], ◌∷◌, arith, ◌==◌, ==_iff, if_true, if_false, if◌then◌else◌, length,
  get_elem?, Option-cases, inl, inr,
}
use worker_unit.Base.Text.{Bytes}
use worker_unit.Base.Int.{pos, negsuc}
use worker_unit.FileDatabase.{FileDataBaseAccess}
use worker_unit.Algorithm.Elimination.{
  CandidateElimination, CeResultExportObject, compare, is_positive, is_confirmed, first_positive,
  find_positive, get_first_postive, start_with, started, candidate_elimination_start, again,
  run_job, minus_one, candidate_elimination_end,
}
use worker_unit.Algorithm.Elimination.Rows.{
  fields, Reads, is_negative, is_denied, absorb, absorb_rows, run_job-absorb_rows,
  get_row_value_list-fields, compare-absorb,
}

-- How many of the rows from the given one on pass the test.
unfoldable pub tally : (List Bytes → Bool) → FileDataBaseAccess → ℕ → ℕ → ℕ
tally p d zero row = 0
tally p d (suc n) row =
    let rest = tally p d n (row + 1) in if p (fields row d) then suc rest else rest

and_left : (a b : Bool) → (a && b) ≡ true → a ≡ true
and_left true b h = refl
and_left false b h = h

and_both : (a b : Bool) → (a && b) ≡ true → (a ≡ true) × (b ≡ true)
and_both true b h = (refl, h)
and_both false b h = absurd (cc)

no_value : (a : Bool) → (a && false) ≡ true → ⊥
no_value true h = cc
no_value false h = cc

one_add : (n : ℕ) → 1 + n ≡ suc n
one_add n = omega arith

minus_one-suc : (n : ℕ) → minus_one (1 + n) ≡ pos n
unfolding minus_one
minus_one-suc n = ap minus_one (one_add n)

module _ (iequals : Bytes → Bytes → Bool) where
  -- The positive and the negative examples among the rows.
  abbrev pub positives : CandidateElimination → ℕ → ℕ → ℕ
  positives ce n row = tally (λ vs. is_positive iequals vs ce) ce.file_data_base_access n row

  abbrev pub negatives : CandidateElimination → ℕ → ℕ → ℕ
  negatives ce n row = tally (λ vs. is_negative iequals vs ce) ce.file_data_base_access n row

  tally-step :
      (b : Bool) (t rest total : ℕ)
      → total ≡ (if b then t + 1 else t) + rest
      → total ≡ t + (if b then suc rest else rest)
  tally-step true t rest total h = omega arith
  tally-step false t rest total h = h

  pub absorb_rows-tally :
      (n : ℕ) (ce : CandidateElimination)
      → ((absorb_rows iequals n ce).total_positives ≡ ce.total_positives + positives ce n ce.start)
        × ((absorb_rows iequals n ce).total_negatives
            ≡ ce.total_negatives + negatives ce n ce.start)
  unfolding absorb_rows tally is_positive is_negative
  absorb_rows-tally zero ce = (omega arith, omega arith)
  absorb_rows-tally (suc n) ce =
      let vs = fields ce.start ce.file_data_base_access in
      let (p, q) = absorb_rows-tally n (absorb iequals vs (record ce { start = ce.start + 1 })) in
      (
        tally-step (is_positive iequals vs ce) ce.total_positives _ _ p,
        tally-step (is_negative iequals vs ce) ce.total_negatives _ _ q,
      )

  -- What the search for a first positive example finds.
  abbrev pub Found : CandidateElimination → ℕ → ℕ → Option (List Bytes) → Type 0
  Found ce n row none = ⊥
  Found ce n row (some []) = positives ce n row ≡ 0
  Found ce n row (some (v ∷ vs)) =
      (is_positive iequals (v ∷ vs) ce ≡ true) × (0 < positives ce n row)

  pub is_positive-length :
      (vs : List Bytes) (ce : CandidateElimination)
      → is_positive iequals vs ce ≡ true
      → length vs ≡ ce.columns + 1
  unfolding is_positive
  is_positive-length vs ce h = (==_iff (length vs) (ce.columns + 1)).0 (and_left _ _ h)

  pub is_negative-length :
      (vs : List Bytes) (ce : CandidateElimination)
      → is_negative iequals vs ce ≡ true
      → length vs ≡ ce.columns + 1
  unfolding is_negative
  is_negative-length vs ce h = (==_iff (length vs) (ce.columns + 1)).0 (and_left _ _ h)

  Found-here :
      (ce : CandidateElimination) (n row : ℕ) (vs : List Bytes) (r : Option (List Bytes)) (b : Bool)
      → is_positive iequals vs ce ≡ b
      → Found ce n (row + 1) r
      → fields row ce.file_data_base_access ≡ vs
      → Found ce (suc n) row (if b then some vs else r)
  unfolding tally
  Found-here ce n row [] r true e f g = absurd (omega (arith, is_positive-length [] ce e))
  Found-here ce n row (v ∷ vs) r true e f g = (e, simp (g, e) (omega arith))
  Found-here ce n row vs none false e f g = f
  Found-here ce n row vs (some []) false e f g = simp (g, e) f
  Found-here ce n row vs (some (w ∷ ws)) false e f g = (f.0, simp (g, e) f.1)

  pub find_positive-Found :
      (n row : ℕ) (ce : CandidateElimination)
      → Reads ce
      → row + n ≤ suc ce.end
      → Found ce n row (find_positive iequals n row ce)
  unfolding find_positive first_positive tally
  find_positive-Found zero row ce r h = refl
  find_positive-Found (suc n) row ce r h =
      subst
        (λ o.
          Found ce (suc n) row (first_positive iequals o (find_positive iequals n (row + 1) ce) ce))
        (sym (get_row_value_list-fields ce row r (omega arith)))
        (Found-here ce n row (fields row ce.file_data_base_access)
          (find_positive iequals n (row + 1) ce) _ refl
          (find_positive-Found n (row + 1) ce r (omega arith)) refl)

  is_positive-compare :
      (vs : List Bytes) (ce : CandidateElimination)
      → is_positive iequals vs ce ≡ true
      → (compare iequals vs ce ≡ some (absorb iequals vs ce)) × (is_negative iequals vs ce ≡ false)
  unfolding is_positive is_negative is_confirmed is_denied
  is_positive-compare vs ce h = elim (Option-cases (get_elem? vs ce.target_col)) [
    | inl e ↦ absurd (no_value (length vs == ce.columns + 1) (rw e at h))
    | inr (t, e) ↦
        let (p, q) = and_both (length vs == ce.columns + 1) _ (rw e at h) in
        (compare-absorb iequals vs ce t p e, simp (e, p, q) refl)
  ]

  -- What the job's result says of the rows in its part: the examples counted, or -1 and 0 if no row
  -- is positive.
  abbrev pub Exported : CandidateElimination → ℕ → CeResultExportObject → Type 0
  Exported ce zero res = (res.total_positives ≡ negsuc 0) × (res.total_negatives ≡ pos 0)
  Exported ce (suc k) res =
      (res.total_positives ≡ pos (suc k))
      × (res.total_negatives ≡ pos (negatives ce (suc ce.end - ce.start) ce.start))

  -- The state of a new job.
  abbrev pub Fresh : CandidateElimination → Type 0
  Fresh ce =
      (ce.start_set ≡ false)
      × (ce.total_positives ≡ 0)
      × (ce.total_negatives ≡ 0)
      × (ce.target_col ≡ ce.columns)
      × (ce.start ≤ suc ce.end)

  abbrev pub Counted : CandidateElimination → Type 0
  Counted ce =
      (ce' : CandidateElimination) × (run_job iequals (suc (suc (suc ce.end - ce.start))) ce
        ≡ some ce')
      × Exported ce (positives ce (suc ce.end - ce.start) ce.start) (candidate_elimination_end ce')

  exported :
      (ce : CandidateElimination) (k : ℕ) (res : CeResultExportObject)
      → 0 < k
      → res.total_positives ≡ pos k
      → res.total_negatives ≡ pos (negatives ce (suc ce.end - ce.start) ce.start)
      → Exported ce k res
  exported ce zero res h p q = absurd (omega arith)
  exported ce (suc k) res h p q = (p, q)

  pub first_call :
      (ce : CandidateElimination) (o : Option (List Bytes))
      → ce.start_set ≡ false
      → get_first_postive iequals ce ≡ o
      → candidate_elimination_start iequals ce ≡ start_with iequals o ce
  unfolding candidate_elimination_start
  first_call ce o h e =
      if_true (not ce.start_set) _ _ (ap not h) ∙ ap (λ o. start_with iequals o ce) e

  Exported-none :
      (ce : CandidateElimination) (k : ℕ)
      → ce.total_positives ≡ 0
      → ce.total_negatives ≡ 0
      → k ≡ 0
      → Exported ce k (candidate_elimination_end ce)
  unfolding candidate_elimination_end minus_one
  Exported-none ce zero p q h = (ap minus_one p, ap pos q)
  Exported-none ce (suc k) p q h = absurd (omega arith)

  -- The state after the call that takes the first positive example.
  abbrev pub begun : List Bytes → CandidateElimination → CandidateElimination
  begun vs ce = record (absorb iequals vs ce) { start_set = true }

  begun_counts :
      (vs : List Bytes) (ce : CandidateElimination)
      → is_positive iequals vs ce ≡ true
      → Fresh ce
      → ((begun vs ce).total_positives ≡ 1) × ((begun vs ce).total_negatives ≡ 0)
  begun_counts vs ce h (a, p, q, w, l) = (
    if_true (is_positive iequals vs ce) _ _ h ∙ omega arith,
    if_false (is_negative iequals vs ce) _ _ (is_positive-compare vs ce h).1 ∙ q,
  )

  -- The first call finds the first positive example, and each of the others takes one row.
  pub run_job-begun :
      (v : Bytes) (vs : List Bytes) (ce : CandidateElimination)
      → Reads ce
      → Fresh ce
      → get_first_postive iequals ce ≡ some (v ∷ vs)
      → is_positive iequals (v ∷ vs) ce ≡ true
      → run_job iequals (suc (suc (suc ce.end - ce.start))) ce
        ≡ some (absorb_rows iequals (suc ce.end - ce.start) (begun (v ∷ vs) ce))
  unfolding run_job start_with started again
  run_job-begun v vs ce r (a, p, q, w, l) e f =
      ap (λ x. again x (run_job iequals (suc (suc ce.end - ce.start))))
        (first_call ce (some (v ∷ vs)) a e ∙ ap started (is_positive-compare (v ∷ vs) ce f).0)
      ∙ run_job-absorb_rows iequals (suc ce.end - ce.start) (begun (v ∷ vs) ce) refl w (omega arith)
          r

  counted :
      (ce : CandidateElimination) (o : Option (List Bytes))
      → Reads ce
      → Fresh ce
      → get_first_postive iequals ce ≡ o
      → Found ce (suc ce.end - ce.start) ce.start o
      → Counted ce
  unfolding run_job start_with again candidate_elimination_end minus_one is_positive is_negative
  counted ce none r h e f = absurd f
  counted ce (some []) r h e f = (
    ce,
    ap (λ x. again x (run_job iequals (suc (suc ce.end - ce.start))))
        (first_call ce (some []) h.0 e),
    Exported-none ce _ h.1 h.2 f,
  )
  counted ce (some (v ∷ vs)) r h e (f, g) =
      let n = suc ce.end - ce.start in
      let (p, q) = absorb_rows-tally n (begun (v ∷ vs) ce) in
      let (b, c) = begun_counts (v ∷ vs) ce f h in
      (
        absorb_rows iequals n (begun (v ∷ vs) ce),
        run_job-begun v vs ce r h e f,
        exported ce _ _ g
            (ap minus_one (p ∙ ap (λ t. t + positives ce n ce.start) b) ∙ minus_one-suc _)
            (ap pos (q ∙ ap (λ t. t + negatives ce n ce.start) c ∙ omega arith)),
      )

  -- The job of a part of the table ends after at most two more calls than the part has rows. Its
  -- result has the number of positive and of negative examples among the rows, except that a part
  -- without a positive one counts as -1 positive and no negative examples.
  pub run_job-Counted : (ce : CandidateElimination) → Reads ce → Fresh ce → Counted ce
  unfolding get_first_postive
  run_job-Counted ce r h =
      counted ce _ r h refl
        (find_positive-Found (suc ce.end - ce.start) ce.start ce r (omega arith))
