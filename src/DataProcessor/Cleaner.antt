-- ===== src/DataProcessor/Cleaner.antt =====
-- data_processor/data_cleaner.cpp: the job that deletes duplicate rows, one row at each call.
use worker_unit.Base.{ℕ, zero, suc, ◌+◌, Bool, true, false, Option, none, some}
use worker_unit.Base.Text.{Bytes}
use worker_unit.Base.Int.{pos}
use worker_unit.Scheduler.Job.{JobStatus, job_done, job_pending}
use worker_unit.FileDatabase.{
  FileCode, duplicate_cleanup_done, FileDataBaseAccess, rw_file, open_file,
  delete_duplicate_records,
}
pub mod Runs
pub mod Commits

pub record DataCleaner : Type 0 where
  pub iterator : ℕ
  pub file_data_base_access : FileDataBaseAccess

unfoldable pub new_data_cleaner : Option Bytes → DataCleaner
unfolding open_file
new_data_cleaner disk = record { iterator = 0; file_data_base_access = open_file rw_file disk }

abbrev pub is_done : FileCode → Bool
is_done duplicate_cleanup_done = true
is_done _ = false

-- The result is whether `clean` returns 1.
unfoldable pub clean : DataCleaner → Bool × DataCleaner
unfolding delete_duplicate_records
clean c =
    let (code, d) = delete_duplicate_records (pos c.iterator) c.file_data_base_access in
    (is_done code, record { iterator = c.iterator + 1; file_data_base_access = d })

abbrev pub status_of : Bool → JobStatus
status_of true = job_done
status_of false = job_pending

unfoldable pub clean_data_start : DataCleaner → JobStatus × DataCleaner
unfolding clean
clean_data_start c = let (finished, c') = clean c in (status_of finished, c')

unfoldable pub again :
    JobStatus × DataCleaner → (DataCleaner → Option DataCleaner) → Option DataCleaner
again (job_done, c) f = some c
again (_, c) f = f c

-- The thread's calls until the job is done; `none` is more calls than given.
unfoldable pub run_job : ℕ → DataCleaner → Option DataCleaner
unfolding again clean_data_start
run_job zero c = none
run_job (suc n) c = again (clean_data_start c) (run_job n)
