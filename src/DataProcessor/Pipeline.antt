-- ===== src/DataProcessor/Pipeline.antt =====
-- The ends of the cleaning and validation jobs in data_processor/data_cleaner.cpp and
-- data_processor/data_validator.cpp, and `update_clean_stages` with what it sets off: how a table
-- goes from stage to stage. The table's file is an optional text passed on explicitly.
use worker_unit.Base.{
  ℕ, zero, suc, Bool, true, false, Option, none, some, List, [], ◌∷◌, ◌++◌, if◌then◌else◌, map,
  ◌==◌,
}
use worker_unit.Base.Text.{Bytes}
use worker_unit.Scheduler.Job.{JobStatus, job_pending, priority_number}
use worker_unit.Sender.Package.{ForwardStackPackage, intr_send, reset_timer}
use worker_unit.FileDatabase.{FileDataBaseAccess, read_file, open_file, get_blob, close_file}
use worker_unit.Algorithm.Split.{TableData}
use worker_unit.DataProcessor.Cleaner.{DataCleaner}
use worker_unit.DataProcessor.Stages.{
  CleanStageMap, validate_ranges, set_count, update_clean_stages,
}
use worker_unit.DataProcessor.Validator.{ValidateData, new_validate_data}
pub mod Unmodified
pub mod Sent
pub mod Handover

-- What a stage gives to the sender, and the call of `sched_algo`.
pub data Effect : Type 0 where
  push_packet : ForwardStackPackage → Effect
  sched_algo : TableData → Effect

-- The jobs of `schedule_validate_phase`: each constructor reads the table's file.
unfoldable pub validators :
    ℕ → TableData → List (Option (List Bytes)) → Option Bytes → List ValidateData
unfolding new_validate_data validate_ranges
validators threads t possible disk =
    map (λ (r : ℕ × ℕ). new_validate_data r.0 r.1 t.rows t.columns possible disk)
      (validate_ranges threads t.rows)

-- The jobs, the map of their counts, and the file: `delete dataCleaner` comes after the jobs are made.
-- The address stands for the table in the map. `none` is a division by zero threads.
unfoldable pub clean_data_finalize :
    ℕ
    → ℕ
    → TableData
    → List (Option (List Bytes))
    → DataCleaner
    → CleanStageMap
    → Option Bytes
    → Option (List ValidateData × CleanStageMap × Option Bytes)
unfolding validators set_count close_file
clean_data_finalize threads address t possible c m disk =
    if threads == 0
    then none
    else some (
      validators threads t possible disk,
      set_count address 0 m,
      close_file c.file_data_base_access disk,
    )

abbrev pub result_packet : TableData → Bytes → ForwardStackPackage
result_packet t blob = record {
  status_code = intr_send;
  priority = priority_number t.priority;
  table_id = t.table_id;
  body = blob;
}

-- The rest of `update_clean_stages` once the count is full.
unfoldable pub send_cleaned : Bool → TableData → Option Bytes → List Effect
unfolding open_file get_blob
send_cleaned false t disk = []
send_cleaned true t disk =
    push_packet (result_packet t (get_blob (open_file read_file disk))) ∷ sched_algo t ∷ []

-- The table is counted first, and the job's own object is closed after that.
unfoldable pub validate_data_finalize :
    ℕ
    → ℕ
    → TableData
    → ValidateData
    → CleanStageMap
    → Option Bytes
    → List Effect × CleanStageMap × Option Bytes
unfolding update_clean_stages send_cleaned close_file
validate_data_finalize threads address t v m disk =
    let (code, m', full) = update_clean_stages threads (some address) m in
    (send_cleaned full t disk, m', close_file v.file_data_base_access disk)

-- The jobs of a table end one after the other.
unfoldable pub validators_finalize :
    ℕ
    → ℕ
    → TableData
    → List ValidateData
    → CleanStageMap
    → Option Bytes
    → List Effect × CleanStageMap × Option Bytes
unfolding validate_data_finalize
validators_finalize threads address t [] m disk = ([], m, disk)
validators_finalize threads address t (v ∷ vs) m disk =
    let (effects, m', disk') = validate_data_finalize threads address t v m disk in
    let (later, m'', disk'') = validators_finalize threads address t vs m' disk' in
    (effects ++ later, m'', disk'')

unfoldable pub clean_data_pause : JobStatus
clean_data_pause = job_pending

-- The server is told that the table is still being worked on.
unfoldable pub validate_data_pause : TableData → JobStatus × List Effect
validate_data_pause t = (
  job_pending,
  push_packet (record {
    status_code = reset_timer;
    priority = priority_number t.priority;
    table_id = t.table_id;
    body = [];
  })
      ∷ [],
)

-- A cleaner that fails is deleted, which closes its file.
unfoldable pub clean_data_failed : DataCleaner → Option Bytes → Option Bytes
unfolding close_file
clean_data_failed c disk = close_file c.file_data_base_access disk
