-- ===== src/DataProcessor/Pipeline/Handover.antt =====
-- A table from its file to the packet that is sent back: cleaner, validators and tracker together.
use worker_unit.Base.{
  ℕ, suc, ◌≤◌, ◌≡◌, refl, ap, sym, subst, ◌∙◌, false, Option, none, some, List, [], ◌∷◌, length,
  ◌==◌, if_false, inl, inr, ◌⊎◌, arith, All, Bool,
}
use worker_unit.Base.Text.{Bytes}
use worker_unit.FileDatabase.{
  read_file, open_file, read_lines, get_blob, close_file, write_rows, split_string_by_newline,
}
use worker_unit.FileDatabase.Duplicates.{member, Distinct}
use worker_unit.Algorithm.Split.{TableData}
use worker_unit.DataProcessor.Cleaner.{DataCleaner, new_data_cleaner, run_job}
use worker_unit.DataProcessor.Cleaner.Runs.{rows_of, Cleaned, run_job-Cleaned}
use worker_unit.DataProcessor.Cleaner.Commits.{
  InSync, Synced, run_job-Synced, new_data_cleaner-InSync, open_file-InSync,
}
use worker_unit.DataProcessor.Stages.{CleanStageMap, set_count}
use worker_unit.DataProcessor.Stages.Order.{count_of-set_count}
use worker_unit.DataProcessor.Validator.{ValidateData}
use worker_unit.DataProcessor.Pipeline.{
  push_packet, sched_algo, validators, clean_data_finalize, result_packet, send_cleaned,
  validators_finalize,
}
use worker_unit.DataProcessor.Pipeline.Unmodified.{Runs, Runs-SameFlags}
use worker_unit.DataProcessor.Pipeline.Sent.{Unmodified, finalize-SendsOnce, Made, validators-Made}

abbrev pub In : ValidateData → List ValidateData → Type 0
In j [] = ⊥
In j (k ∷ ks) = (j ≡ k) ⊎ In j ks

All-In {κ} :
    (P : ValidateData → Type κ) (j : ValidateData) (js : List ValidateData)
    → All P js
    → In j js
    → P j
All-In P j [] a i = elim i [ ]
All-In P j (k ∷ ks) (a, as') (inl e) = subst P (sym e) a
All-In P j (k ∷ ks) (a, as') (inr i) = All-In P j ks as' i

new-Cleaned :
    (text : Bytes)
    → Cleaned
        (split_string_by_newline text)
        (run_job (suc (length (split_string_by_newline text))) (new_data_cleaner (some text)))
unfolding new_data_cleaner open_file read_lines
new-Cleaned text = run_job-Cleaned (new_data_cleaner (some text)) (refl, refl) refl

-- The last job sends the rows that the cleaner left.
blob-InSync :
    (text : Bytes) (c : DataCleaner)
    → InSync (split_string_by_newline text) c
    → get_blob (open_file read_file (close_file c.file_data_base_access (some text)))
      ≡ write_rows (rows_of c)
unfolding get_blob open_file
blob-InSync text c v = ap write_rows (open_file-InSync read_file text c v)

module _ (iequals : Bytes → Bytes → Bool) where
  -- Each of the objects is one of the jobs after some of its calls, in any order.
  abbrev pub Ended : List ValidateData → List ValidateData → Type 0
  Ended js vs = All (λ v. (j : ValidateData) × In j js × Runs iequals j v) vs

  Ended-Unmodified :
      (js vs : List ValidateData) → All Unmodified js → Ended js vs → All Unmodified vs
  Ended-Unmodified js [] u e = tt
  Ended-Unmodified js (v ∷ vs) u ((j, i, r), e) =
      ((Runs-SameFlags iequals r).0 ∙ All-In Unmodified j js u i, Ended-Unmodified js vs u e)

  Made-Unmodified : (text : Bytes) (js : List ValidateData) → All (Made text) js → All Unmodified js
  Made-Unmodified text [] a = tt
  Made-Unmodified text (j ∷ js) (a, as') = (a.1, Made-Unmodified text js as')

  module _ (threads address : ℕ) (t : TableData) (possible : List (Option (List Bytes)))
      (text : Bytes) (m : CleanStageMap) where
    abbrev pub jobs : List ValidateData
    jobs = validators threads t possible (some text)

    -- The cleaner ended with these rows; its end made the jobs and closed the file; and the ends of
    -- the jobs send the rows and call the algorithm, once.
    abbrev pub HandedOver : List ValidateData → Option DataCleaner → Type 0
    HandedOver vs none = ⊥
    HandedOver vs (some c) =
        Distinct (rows_of c)
        × ((x : Bytes) → member x (rows_of c) ≡ member x (split_string_by_newline text))
        × (clean_data_finalize threads address t possible c m (some text)
            ≡ some (jobs, set_count address 0 m, close_file c.file_data_base_access (some text)))
        × All (Made text) jobs
        × ((validators_finalize threads address t vs (set_count address 0 m)
              (close_file c.file_data_base_access (some text))).0
            ≡ push_packet (result_packet t (write_rows (rows_of c))) ∷ sched_algo t ∷ [])

    handed_over :
        (v : ValidateData) (vs : List ValidateData) (c : DataCleaner)
        → (threads == 0) ≡ false
        → Ended jobs (v ∷ vs)
        → length (v ∷ vs) ≡ threads
        → Cleaned (split_string_by_newline text) (some c)
        → InSync (split_string_by_newline text) c
        → HandedOver (v ∷ vs) (some c)
    unfolding clean_data_finalize send_cleaned
    handed_over v vs c z e l (d, _, k) s =
        let (_, made) = validators-Made threads t possible text in
        let (u, us) = Ended-Unmodified jobs (v ∷ vs) (Made-Unmodified text jobs made) e in
        let (effects, _) =
          finalize-SendsOnce threads address 0 t v vs (set_count address 0 m)
            (close_file c.file_data_base_access (some text)) u us (count_of-set_count address 0 m)
            (omega arith) in
        (
          d,
          k,
          if_false _ _ _ z,
          made,
          effects
              ∙ ap (λ b. push_packet (result_packet t b) ∷ sched_algo t ∷ [])
                  (blob-InSync text c s),
        )

    any_HandedOver :
        (v : ValidateData) (vs : List ValidateData) (o : Option DataCleaner)
        → (threads == 0) ≡ false
        → Ended jobs (v ∷ vs)
        → length (v ∷ vs) ≡ threads
        → Cleaned (split_string_by_newline text) o
        → Synced (split_string_by_newline text) o
        → HandedOver (v ∷ vs) o
    any_HandedOver v vs none z e l c s = c
    any_HandedOver v vs (some c) z e l d s = handed_over v vs c z e l d s

    -- A table with its file goes through cleaning and validation: the cleaner ends, with each row of
    -- the file once; its end makes the validation jobs before it closes the file, so that they read
    -- the rows from before; and once as many jobs have ended as there are threads, whatever they
    -- replaced in their rows, the cleaner's rows are sent back and the algorithm is called, once.
    pub run_job-HandedOver :
        (vs : List ValidateData)
        → 1 ≤ threads
        → Ended jobs vs
        → length vs ≡ threads
        → HandedOver vs
            (run_job (suc (length (split_string_by_newline text))) (new_data_cleaner (some text)))
    run_job-HandedOver [] h e l = absurd (omega arith)
    run_job-HandedOver (v ∷ vs) h e l =
        any_HandedOver v vs _ (ground arith) e l (new-Cleaned text) (
          run_job-Synced (suc (length (split_string_by_newline text)))
            (split_string_by_newline text) (new_data_cleaner (some text))
            (new_data_cleaner-InSync text))
