-- ===== src/Algorithm/Learning/Parts.antt =====
-- What each part of a table exports.
use worker_unit.Base.{
  not, ℕ, zero, suc, ◌+◌, ◌-◌, ◌≤◌, ◌≡◌, inl, inr, refl, ap, ◌∙◌, Bool, true, false, Option, none,
  some, List, [], ◌∷◌, arith, length,
}
use worker_unit.Base.Text.{Bytes, equal}
use worker_unit.Algorithm.Finalize.{starts}
use worker_unit.Algorithm.Elimination.{
  star, question, stars, CandidateElimination, CeResultExportObject, is_positive, get_first_postive,
  run_job, start_with, again, candidate_elimination_end,
}
use worker_unit.Algorithm.Elimination.Rows.{fields, Reads, absorb_rows, absorb}
use worker_unit.Algorithm.Elimination.Counts.{
  Found, find_positive-Found, Fresh, begun, run_job-begun, first_call,
}
use worker_unit.Algorithm.Elimination.Result.{Sized, absorb-Sized, run_job-Covered}
use worker_unit.Algorithm.Elimination.Cover.{Starless, Covers}
use worker_unit.Algorithm.Learning.{export_part}

pub length-stars : (n : ℕ) → length (stars n) ≡ n
unfolding stars
length-stars zero = refl
length-stars (suc n) = ap suc (length-stars n)

question_plain : equal question star ≡ false
unfolding equal
question_plain = refl

pub covering_starts :
    (iequals : Bytes → Bytes → Bool) (ss us : List Bytes) (c : ℕ)
    → length ss ≡ suc c
    → Covers iequals ss us
    → starts ss ≡ some true
unfolding starts
covering_starts iequals [] us c h k = absurd (omega arith)
covering_starts iequals (s ∷ ss) [] c h k = absurd k
covering_starts iequals (s ∷ ss) (u ∷ us) c h (inl e, k) =
    ap (λ b. some (not b)) (ap (λ t. equal t star) e ∙ question_plain)
covering_starts iequals (s ∷ ss) (u ∷ us) c h (inr (e, f), k) = ap (λ b. some (not b)) e

module _ (iequals : Bytes → Bytes → Bool) where
  absorb_rows-Sized :
      (n : ℕ) (ce : CandidateElimination)
      → Sized iequals ce
      → Sized iequals (absorb_rows iequals n ce) × ((absorb_rows iequals n ce).columns ≡ ce.columns)
  unfolding absorb_rows
  absorb_rows-Sized zero ce z = (z, refl)
  absorb_rows-Sized (suc n) ce z =
      let next = record ce { start = ce.start + 1 } in
      let vs = fields ce.start ce.file_data_base_access in
      absorb_rows-Sized n (absorb iequals vs next) (absorb-Sized iequals vs next z)

  -- The job ends, with an entry of each hypothesis for each column.
  abbrev pub EndsSized : CandidateElimination → Type 0
  EndsSized ce =
      (ce' : CandidateElimination) × (run_job iequals (suc (suc (suc ce.end - ce.start))) ce
        ≡ some ce')
      × Sized iequals ce'
      × (ce'.columns ≡ ce.columns)

  ends_sized :
      (ce : CandidateElimination) (o : Option (List Bytes))
      → Reads ce
      → Fresh iequals ce
      → Sized iequals ce
      → get_first_postive iequals ce ≡ o
      → Found iequals ce (suc ce.end - ce.start) ce.start o
      → EndsSized ce
  unfolding run_job start_with again
  ends_sized ce none r h z e f = absurd f
  ends_sized ce (some []) r h z e f = (
    ce,
    ap (λ x. again x (run_job iequals (suc (suc ce.end - ce.start))))
        (first_call iequals ce (some []) h.0 e),
    z,
    refl,
  )
  ends_sized ce (some (v ∷ vs)) r h z e (f, g) =
      let n = suc ce.end - ce.start in
      let (y, c) =
        absorb_rows-Sized n (begun iequals (v ∷ vs) ce) (absorb-Sized iequals (v ∷ vs) ce z) in
      (
        absorb_rows iequals n (begun iequals (v ∷ vs) ce),
        run_job-begun iequals v vs ce r h e f,
        y,
        c,
      )

  run_job-EndsSized :
      (ce : CandidateElimination) → Reads ce → Fresh iequals ce → Sized iequals ce → EndsSized ce
  unfolding get_first_postive
  run_job-EndsSized ce r h z =
      ends_sized ce _ r h z refl
        (find_positive-Found iequals (suc ce.end - ce.start) ce.start ce r (omega arith))

  -- The result of a part, and what it matches if the part has the row.
  abbrev pub Exports : CandidateElimination → Option CeResultExportObject → Type 0
  Exports ce none = ⊥
  Exports ce (some r) = (length r.s ≡ ce.columns) × (length r.g ≡ ce.columns)

  pub export_part-Exports :
      (ce : CandidateElimination)
      → Reads ce
      → Fresh iequals ce
      → Sized iequals ce
      → Exports ce (export_part iequals ce)
  unfolding export_part candidate_elimination_end
  export_part-Exports ce r h z =
      let (ce', e, (a, b), c) = run_job-EndsSized ce r h z in
      rw (Exports, export_part, e) (a ∙ c, b ∙ c)

  abbrev pub ExportsCover : List Bytes → Option CeResultExportObject → Type 0
  ExportsCover us none = ⊥
  ExportsCover us (some r) = Covers iequals r.s us

  pub export_part-ExportsCover :
      (iequals-refl : (v : Bytes) → iequals v v ≡ true) (ce : CandidateElimination) (i : ℕ)
      → Reads ce
      → Fresh iequals ce
      → Sized iequals ce
      → ce.start ≤ i
      → i ≤ ce.end
      → Starless (fields i ce.file_data_base_access)
      → is_positive iequals (fields i ce.file_data_base_access) ce ≡ true
      → ExportsCover (fields i ce.file_data_base_access) (export_part iequals ce)
  unfolding export_part candidate_elimination_end
  export_part-ExportsCover iequals-refl ce i r h z a b l p =
      let (ce', e, c) = run_job-Covered iequals iequals-refl ce i r h z a b l p in
      rw (ExportsCover, export_part, e) c
