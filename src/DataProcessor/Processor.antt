-- ===== src/DataProcessor/Processor.antt =====
-- data_processor/data_processor.cpp: the first stage of a table, which looks its instance up.
use worker_unit.Base.{
  ℕ, zero, suc, Bool, true, false, not, Option, none, some, List, [], ◌∷◌, ◌++◌, if◌then◌else◌,
  ◌==◌,
}
use worker_unit.Base.Text.{Bytes, is_empty}
use worker_unit.Base.Int.{pos}
use worker_unit.Scheduler.Job.{JobStatus, job_done, job_failed, job_pending, priority_number}
use worker_unit.Sender.Package.{ForwardStackPackage, dat_err, reset_timer}
use worker_unit.FileDatabase.{
  FileDataBaseAccess, read_file, rw_file, open_file, get_column_names_list, close_file, drop_file,
}
use worker_unit.Instances.{Instance, get_instance_from_id}
use worker_unit.Algorithm.Split.{TableData}
use worker_unit.Algorithm.Finalize.{to_string}
use worker_unit.DataProcessor.InstanceData.{
  InstanceData, ErrorString, no_error, column_count, column_names, initlize_data,
}
use worker_unit.DataProcessor.Cleaner.{DataCleaner, new_data_cleaner}
pub mod Looked

-- "instance column count doesn't match with userdata columns,   instance columns: "
abbrev instance_columns : Bytes
instance_columns =
    105 ∷ 110 ∷ 115 ∷ 116 ∷ 97 ∷ 110 ∷ 99 ∷ 101 ∷ 32 ∷ 99 ∷ 111 ∷ 108 ∷ 117 ∷ 109 ∷ 110 ∷ 32 ∷ 99
    ∷ 111 ∷ 117 ∷ 110 ∷ 116 ∷ 32 ∷ 100 ∷ 111 ∷ 101 ∷ 115 ∷ 110 ∷ 39 ∷ 116 ∷ 32 ∷ 109 ∷ 97 ∷ 116 ∷ 99
    ∷ 104 ∷ 32 ∷ 119 ∷ 105 ∷ 116 ∷ 104 ∷ 32 ∷ 117 ∷ 115 ∷ 101 ∷ 114 ∷ 100 ∷ 97 ∷ 116 ∷ 97 ∷ 32 ∷ 99
    ∷ 111 ∷ 108 ∷ 117 ∷ 109 ∷ 110 ∷ 115 ∷ 44 ∷ 32 ∷ 32 ∷ 32 ∷ 105 ∷ 110 ∷ 115 ∷ 116 ∷ 97 ∷ 110 ∷ 99
    ∷ 101 ∷ 32 ∷ 99 ∷ 111 ∷ 108 ∷ 117 ∷ 109 ∷ 110 ∷ 115 ∷ 58 ∷ 32 ∷ []

-- " userdata columns:"
abbrev userdata_columns : Bytes
userdata_columns =
    32 ∷ 117 ∷ 115 ∷ 101 ∷ 114 ∷ 100 ∷ 97 ∷ 116 ∷ 97 ∷ 32 ∷ 99 ∷ 111 ∷ 108 ∷ 117 ∷ 109 ∷ 110 ∷ 115
    ∷ 58 ∷ []

-- "Instance table and User table columns did not match"
abbrev did_not_match : Bytes
did_not_match =
    73 ∷ 110 ∷ 115 ∷ 116 ∷ 97 ∷ 110 ∷ 99 ∷ 101 ∷ 32 ∷ 116 ∷ 97 ∷ 98 ∷ 108 ∷ 101 ∷ 32 ∷ 97 ∷ 110
    ∷ 100 ∷ 32 ∷ 85 ∷ 115 ∷ 101 ∷ 114 ∷ 32 ∷ 116 ∷ 97 ∷ 98 ∷ 108 ∷ 101 ∷ 32 ∷ 99 ∷ 111 ∷ 108 ∷ 117
    ∷ 109 ∷ 110 ∷ 115 ∷ 32 ∷ 100 ∷ 105 ∷ 100 ∷ 32 ∷ 110 ∷ 111 ∷ 116 ∷ 32 ∷ 109 ∷ 97 ∷ 116 ∷ 99 ∷ 104
    ∷ []

-- The text behind `getErrorString` of the instance data.
unfoldable pub error_text : InstanceData → Bytes
unfolding to_string
error_text d = elim d.error_string [
  | no_error ↦ []
  | column_count ↦
      instance_columns
      ++ (to_string (pos d.instance_.total_columns)
          ++ (userdata_columns ++ to_string (pos d.user_table_total_columns)))
  | column_names ↦ did_not_match
]

-- The two pointers are `none` until `initlize` sets them; the fields that nothing uses are left out.
pub record DataProcessor : Type 0 where
  pub table_data : TableData
  pub instance_data : Option InstanceData
  pub init_done : Bool
  pub col_headers : List Bytes
  pub error_string : Bytes
  pub file_data_base_access : Option FileDataBaseAccess

unfoldable pub new_data_processor : TableData → DataProcessor
new_data_processor t = record {
  table_data = t;
  instance_data = none;
  init_done = false;
  col_headers = [];
  error_string = [];
  file_data_base_access = none;
}

-- `new InstanceData`. The names in the file are read only if the counts are equal; `none` is the first
-- row of an empty file.
unfoldable pub read_names : Instance → TableData → Option Bytes → Option (List Bytes)
unfolding open_file get_column_names_list
read_names i t disk =
    if not (i.total_columns == t.columns)
    then some []
    else get_column_names_list (open_file read_file disk)

abbrev pub new_instance_data : Instance → TableData → List Bytes → InstanceData
new_instance_data i t names = record {
  instance_ = i;
  user_table_total_columns = t.columns;
  user_columns = names;
  instance_data_matrix = [];
  error_string = no_error;
}

-- The table's file, opened for the data processor, and the column names read again from it.
unfoldable pub set_up : InstanceData → FileDataBaseAccess → DataProcessor → Option DataProcessor
unfolding get_column_names_list
set_up d file p = elim (get_column_names_list file) [
  | none ↦ none
  | some names ↦ some (record p {
    instance_data = some d;
    init_done = true;
    col_headers = names;
    file_data_base_access = some file;
  })
]

-- Whether the job goes on, with the object; `none` is an access out of bounds.
unfoldable pub after_data :
    Option (Bool × InstanceData) → Option Bytes → DataProcessor → Option (Bool × DataProcessor)
unfolding open_file set_up error_text
after_data none disk p = none
after_data (some (false, d)) disk p =
    some (false, record p { instance_data = some d; error_string = error_text d })
after_data (some (true, d)) disk p = elim (set_up d (open_file rw_file disk) p) [
  | none ↦ none
  | some p' ↦ some (true, p')
]

abbrev pub job_result : Option (Bool × DataProcessor) → Option (JobStatus × DataProcessor)
job_result none = none
job_result (some (true, p)) = some (job_done, p)
job_result (some (false, p)) = some (job_failed, p)

-- The two queries of sqlite_database_access.cpp, with `none` for a null pointer.
module _ (names : Bytes → ℕ → Option (List Bytes))
    (values : Bytes → Bytes → ℕ → Option (List Bytes)) where
  unfoldable pub load : Instance → Option Bytes → DataProcessor → Option (Bool × DataProcessor)
  unfolding read_names initlize_data after_data
  load i disk p = elim (read_names i p.table_data disk) [
    | none ↦ none
    | some us ↦ after_data (initlize_data names values (new_instance_data i p.table_data us)) disk p
  ]

  unfoldable pub initlize :
      List Instance → Option Bytes → DataProcessor → Option (Bool × DataProcessor)
  unfolding load get_instance_from_id is_empty
  initlize is disk p =
      let i = get_instance_from_id p.table_data.instance_type is in
      if is_empty i.instance_id then some (false, p) else load i disk p

  unfoldable pub process_data_start :
      List Instance → Option Bytes → DataProcessor → Option (JobStatus × DataProcessor)
  unfolding initlize
  process_data_start is disk p = job_result (initlize is disk p)

-- The table is still being worked on.
unfoldable pub process_data_pause : DataProcessor → JobStatus × ForwardStackPackage
process_data_pause p = (
  job_pending,
  record {
    status_code = reset_timer;
    priority = priority_number p.table_data.priority;
    table_id = p.table_data.table_id;
    body = [];
  },
)

-- The cleaner that is scheduled, the possible values it hands on, and the file: the destructor closes
-- the object's file last. `none` is a pointer that was never set.
unfoldable pub process_data_finalize :
    Option Bytes → DataProcessor → Option (DataCleaner × List (Option (List Bytes)) × Option Bytes)
unfolding new_data_cleaner close_file
process_data_finalize disk p = elim p.instance_data [
  | none ↦ none
  | some d ↦ elim p.file_data_base_access [
    | none ↦ none
    | some file ↦ some (new_data_cleaner disk, d.instance_data_matrix, close_file file disk)
  ]
]

-- `dealloc_table_dat`, without the memory of the table.
unfoldable pub drop_table_file : Option Bytes → Option Bytes
unfolding open_file drop_file
drop_table_file disk = (drop_file (open_file rw_file disk) disk).1

-- The packet for the server, and the file.
unfoldable pub process_data_failed :
    Option Bytes → DataProcessor → ForwardStackPackage × Option Bytes
unfolding drop_table_file
process_data_failed disk p = (
  record {
    status_code = dat_err;
    priority = priority_number p.table_data.priority;
    table_id = p.table_data.table_id;
    body = p.error_string;
  },
  drop_table_file disk,
)
