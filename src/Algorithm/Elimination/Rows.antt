-- ===== src/Algorithm/Elimination/Rows.antt =====
-- The job's calls as one pass over the rows of its part of the table.
use worker_unit.Base.{
  ℕ, zero, suc, ◌+◌, ◌<◌, ◌≤◌, ◌≡◌, refl, sym, ap, ◌∙◌, Bool, true, false, not, ◌&&◌, Option, none,
  some, List, [], ◌∷◌, arith, leb, if_true, if_false, ◌==◌, ==_iff, if◌then◌else◌, length,
  get_elem?, Bool-cases, inl, inr,
}
use worker_unit.Base.Text.{Bytes}
use worker_unit.Base.Int.{pos}
use worker_unit.Scheduler.Job.{job_done, job_pending}
use worker_unit.FileDatabase.{
  FileDataBaseAccess, is_read, comma, adv_tokenizer, get_row_value_list, row_text, tokens_of,
}
use worker_unit.Algorithm.Elimination.{
  CandidateElimination, positive_columns, negative_columns, compare, compare_with, compare_at,
  is_confirmed, is_positive, get_first_postive, get_next_row, next_row, use_row, pending,
  start_with, candidate_elimination_start, again, run_job,
}

unfoldable pub tokens : Option Bytes → List Bytes
unfolding adv_tokenizer
tokens none = []
tokens (some s) = adv_tokenizer comma s

-- The fields of a row, where the object can read it.
unfoldable pub fields : ℕ → FileDataBaseAccess → List Bytes
unfolding tokens
fields i d = tokens (get_elem? d.read_data i)

-- The object is open for reading, and the part lies within the table.
abbrev pub Reads : CandidateElimination → Type 0
Reads ce =
    (is_read ce.file_data_base_access.access_mode ≡ true)
    × (ce.file_data_base_access.file_deleted ≡ false)
    × (ce.end < length ce.file_data_base_access.read_data)

get_elem?-some {ℓ} :
    {A : Type ℓ} (xs : List A) (i : ℕ) → i < length xs → (a : A) × (get_elem? xs i ≡ some a)
get_elem?-some [] i h = absurd (omega arith)
get_elem?-some (x ∷ xs) zero h = (x, refl)
get_elem?-some (x ∷ xs) (suc i) h = get_elem?-some xs i (omega arith)

tokens_of-tokens : (o : Option Bytes) (s : Bytes) → o ≡ some s → tokens_of o ≡ some (tokens o)
unfolding tokens_of tokens
tokens_of-tokens o s e = rw e refl

pub get_row_value_list-fields :
    (ce : CandidateElimination) (i : ℕ)
    → Reads ce
    → i ≤ ce.end
    → get_row_value_list (pos i) ce.file_data_base_access ≡ some (fields i ce.file_data_base_access)
unfolding get_row_value_list row_text fields
get_row_value_list-fields ce i (a, b, c) h =
    let (s, e) = get_elem?-some ce.file_data_base_access.read_data i (omega arith) in
    simp (a, b) (tokens_of-tokens (get_elem? ce.file_data_base_access.read_data i) s e)

le→leb : (a b : ℕ) → a ≤ b → leb a b ≡ true
le→leb a b h = ground arith

lt→leb_false : (a b : ℕ) → b < a → leb a b ≡ false
lt→leb_false a b h = ground arith

module _ (iequals : Bytes → Bytes → Bool) where
  unfoldable pub is_denied : Bytes → Option Bytes → Bool
  is_denied confirm none = false
  is_denied confirm (some target) = not (iequals target confirm)

  unfoldable pub is_negative : List Bytes → CandidateElimination → Bool
  unfolding is_denied
  is_negative vs ce =
      length vs == ce.columns + 1 && is_denied ce.confirm_value (get_elem? vs ce.target_col)

  -- What one row does to the counts and the hypothesis.
  abbrev pub absorb : List Bytes → CandidateElimination → CandidateElimination
  absorb vs ce = record ce {
    total_positives =
        if is_positive iequals vs ce then ce.total_positives + 1 else ce.total_positives;
    total_negatives = if is_negative vs ce then ce.total_negatives + 1 else ce.total_negatives;
    s = if is_positive iequals vs ce then (positive_columns iequals ce.s ce.g vs).0 else ce.s;
    g =
        if is_positive iequals vs ce
        then (positive_columns iequals ce.s ce.g vs).1
        else if is_negative vs ce
        then negative_columns iequals ce.s ce.g vs
        else ce.g;
  }

  unfoldable pub absorb_rows : ℕ → CandidateElimination → CandidateElimination
  unfolding fields
  absorb_rows zero ce = ce
  absorb_rows (suc n) ce =
      absorb_rows n
        (absorb (fields ce.start ce.file_data_base_access) (record ce { start = ce.start + 1 }))

  pub compare-absorb :
      (vs : List Bytes) (ce : CandidateElimination) (t : Bytes)
      → (length vs == ce.columns + 1) ≡ true
      → get_elem? vs ce.target_col ≡ some t
      → compare iequals vs ce ≡ some (absorb vs ce)
  unfolding compare compare_at compare_with is_positive is_negative is_confirmed is_denied
  compare-absorb vs ce t e p = elim (Bool-cases (iequals t ce.confirm_value)) [
    | inl q ↦ simp (e, p, q) refl
    | inr q ↦ simp (e, p, q) refl
  ]

  absorb_skips :
      (vs : List Bytes) (ce : CandidateElimination)
      → (length vs == ce.columns + 1) ≡ false
      → absorb vs ce ≡ ce
  unfolding is_positive is_negative
  absorb_skips vs ce e = simp e refl

  use_row-absorb :
      (vs : List Bytes) (ce : CandidateElimination)
      → ce.target_col ≡ ce.columns
      → use_row iequals (some vs) ce ≡ some (job_pending, absorb vs ce)
  unfolding use_row
  use_row-absorb vs ce w = elim (Bool-cases (length vs == ce.columns + 1)) [
    | inl e ↦
        let h = (==_iff (length vs) (ce.columns + 1)).0 e in
        let (t, p) = get_elem?-some vs ce.target_col (omega arith) in
        simp e (ap pending (compare-absorb vs ce t e p))
    | inr e ↦ simp e (ap (λ x. some (job_pending, x)) (sym (absorb_skips vs ce e)))
  ]

  step-absorb :
      (ce : CandidateElimination)
      → ce.start_set ≡ true
      → ce.target_col ≡ ce.columns
      → ce.start ≤ ce.end
      → Reads ce
      → candidate_elimination_start iequals ce
        ≡ some (
          job_pending,
          absorb (fields ce.start ce.file_data_base_access) (record ce { start = ce.start + 1 }),
        )
  unfolding candidate_elimination_start next_row get_next_row
  step-absorb ce a w h r =
      if_false (not ce.start_set) (start_with iequals (get_first_postive iequals ce) ce) _
        (ap not a)
      ∙ ap (next_row iequals) (if_true (leb ce.start ce.end) _ _ (le→leb ce.start ce.end h))
      ∙ ap (λ o. use_row iequals o (record ce { start = ce.start + 1 }))
          (get_row_value_list-fields ce ce.start r h)
      ∙ use_row-absorb (fields ce.start ce.file_data_base_access)
          (record ce { start = ce.start + 1 }) w

  step_done :
      (ce : CandidateElimination)
      → ce.start_set ≡ true
      → ce.end < ce.start
      → candidate_elimination_start iequals ce ≡ some (job_done, ce)
  unfolding candidate_elimination_start next_row get_next_row
  step_done ce a h =
      if_false (not ce.start_set) (start_with iequals (get_first_postive iequals ce) ce) _
        (ap not a)
      ∙ ap (next_row iequals) (if_false (leb ce.start ce.end) _ _ (lt→leb_false ce.start ce.end h))

  pub run_job-absorb_rows :
      (n : ℕ) (ce : CandidateElimination)
      → ce.start_set ≡ true
      → ce.target_col ≡ ce.columns
      → ce.start + n ≡ suc ce.end
      → Reads ce
      → run_job iequals (suc n) ce ≡ some (absorb_rows n ce)
  unfolding run_job again absorb_rows
  run_job-absorb_rows zero ce a w h r = rw (step_done ce a (omega arith)) refl
  run_job-absorb_rows (suc n) ce a w h r = rw (step-absorb ce a w (omega arith) r) (
      run_job-absorb_rows n
        (absorb (fields ce.start ce.file_data_base_access) (record ce { start = ce.start + 1 })) a w
        (omega arith) r)
