-- ===== src/DataProcessor/Validator.antt =====
-- data_processor/data_validator.cpp: the jobs that replace values the instance does not list.
use worker_unit.Base.{
  ℕ, zero, suc, ◌+◌, Bool, true, false, ◌&&◌, Option, none, some, List, [], ◌∷◌, leb, if◌then◌else◌,
  get_elem?,
}
use worker_unit.Base.Text.{Bytes, equal, is_empty}
use worker_unit.Base.Int.{pos}
use worker_unit.Scheduler.Job.{JobStatus, job_done, job_pending}
use worker_unit.FileDatabase.{
  FileCode, FileDataBaseAccess, rw_file, open_file, get_row_value_list, write_row_value_list,
}
pub mod Fields
pub mod Rows

-- The text `NaN`
abbrev pub nan : Bytes
nan = 78 ∷ 97 ∷ 78 ∷ []

-- `rows` and `columns` are the table's metadata. `possible_fields` is `instanceDataMatrix`, where
-- `none` is a null pointer and an array has one value for each row of the instance.
pub record ValidateData : Type 0 where
  pub start_row : ℕ
  pub end_row : ℕ
  pub iterator : ℕ
  pub rows : ℕ
  pub columns : ℕ
  pub possible_fields : List (Option (List Bytes))
  pub file_data_base_access : FileDataBaseAccess

unfoldable pub new_validate_data :
    ℕ → ℕ → ℕ → ℕ → List (Option (List Bytes)) → Option Bytes → ValidateData
unfolding open_file
new_validate_data start end rows columns possible disk = record {
  start_row = start;
  end_row = end;
  iterator = start;
  rows = rows;
  columns = columns;
  possible_fields = possible;
  file_data_base_access = open_file rw_file disk;
}

-- `temp != feildList`, negated
unfoldable pub equal_lists : List Bytes → List Bytes → Bool
unfolding equal
equal_lists [] [] = true
equal_lists (x ∷ xs) (y ∷ ys) = equal x y && equal_lists xs ys
equal_lists _ _ = false

-- `boost::iequals`
module _ (iequals : Bytes → Bytes → Bool) where
  unfoldable pub find_feild : List Bytes → Bytes → Bytes
  find_feild [] feild = nan
  find_feild (t ∷ ts) feild = if iequals t feild then feild else find_feild ts feild

  -- The values of the current column; `none` is the exception of `at`.
  unfoldable pub validate_feild : Option (Option (List Bytes)) → Bytes → Option Bytes
  unfolding find_feild
  validate_feild none feild = none
  validate_feild (some none) feild = some feild
  validate_feild (some (some ts)) feild = some (find_feild ts feild)

  unfoldable pub clean_data : Option (Option (List Bytes)) → Bytes → Option Bytes
  unfolding validate_feild is_empty
  clean_data values feild = if is_empty feild then some nan else validate_feild values feild

  unfoldable pub cons_feild : Option Bytes → Option (List Bytes) → Option (List Bytes)
  cons_feild (some f) (some fs) = some (f ∷ fs)
  cons_feild _ _ = none

  -- The loop over the columns from the given one; `none` is `feildList[i]` past the end.
  unfoldable pub clean_fields :
      ℕ → ℕ → List (Option (List Bytes)) → List Bytes → Option (List Bytes)
  unfolding clean_data cons_feild
  clean_fields zero col possible fs = some []
  clean_fields (suc n) col possible [] = none
  clean_fields (suc n) col possible (f ∷ fs) =
      cons_feild (clean_data (get_elem? possible col) f) (clean_fields n (suc col) possible fs)

  unfoldable pub written :
      Option (FileCode × FileDataBaseAccess) → ValidateData → Option (Bool × ValidateData)
  written none v = none
  written (some (code, d)) v =
      some (false, record v { iterator = v.iterator + 1; file_data_base_access = d })

  unfoldable pub store_fields :
      Option (List Bytes) → List Bytes → ValidateData → Option (Bool × ValidateData)
  unfolding equal_lists written write_row_value_list
  store_fields none fs v = none
  store_fields (some temp) fs v =
      if equal_lists temp fs
      then some (false, record v { iterator = v.iterator + 1 })
      else written (write_row_value_list temp (pos v.iterator) v.file_data_base_access) v

  unfoldable pub process_row : Option (List Bytes) → ValidateData → Option (Bool × ValidateData)
  unfolding store_fields clean_fields
  process_row none v = none
  process_row (some fs) v = store_fields (clean_fields v.columns 0 v.possible_fields fs) fs v

  -- The result is whether `processFeild` returns 1.
  unfoldable pub process_feild : ValidateData → Option (Bool × ValidateData)
  unfolding process_row
  process_feild v =
      if leb v.rows v.iterator
      then some (true, v)
      else process_row (get_row_value_list (pos v.iterator) v.file_data_base_access) v

  abbrev pub status_of : Bool → JobStatus
  status_of true = job_done
  status_of false = job_pending

  unfoldable pub validate_data_start : ValidateData → Option (JobStatus × ValidateData)
  unfolding process_feild
  validate_data_start v = elim (process_feild v) [
    | none ↦ none
    | some (b, v') ↦ some (status_of b, v')
  ]

  unfoldable pub run_rows :
      Option (Bool × ValidateData) → (ValidateData → Option ValidateData) → Option ValidateData
  run_rows none f = none
  run_rows (some (true, v)) f = some v
  run_rows (some (false, v)) f = f v

  -- The thread's calls until the job is done.
  unfoldable pub run_job : ℕ → ValidateData → Option ValidateData
  unfolding process_feild run_rows
  run_job zero v = none
  run_job (suc n) v = run_rows (process_feild v) (run_job n)
