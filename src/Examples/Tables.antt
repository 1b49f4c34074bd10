-- ===== src/Examples/Tables.antt =====
-- Tables, instances and the stages before the algorithm at concrete inputs.
use worker_unit.Base.{◌≡◌, ◌≤◌, refl, true, false, none, some, List, [], ◌∷◌, arith, length}
use worker_unit.Base.Text.{Bytes, equal}
use worker_unit.Base.Int.{pos}
use worker_unit.FileDatabase.{
  FileDataBaseAccess, rw_file, read_file, open_file, close_file, rows, adv_tokenizer, comma,
  add_head, find_row, write_row_value_list, get_row_value_list, success,
}
use worker_unit.FileDatabase.Commit.{open_file-close_file, write_row_value_list_uncommitted}
use worker_unit.DataProcessor.Cleaner.{DataCleaner}
use worker_unit.DataProcessor.Cleaner.Runs.{rows_of, Cleaned, run_job-Cleaned}
use worker_unit.DataProcessor.Cleaner
use worker_unit.DataProcessor.Validator.{ValidateData}
use worker_unit.DataProcessor.Validator.Rows.{Processed, process_feild-Processed}
use worker_unit.DataProcessor.Stages.{update_times, set_count, count_of}
use worker_unit.DataProcessor.Stages.Order.{never, update_times-lost}
use worker_unit.Instances.{InstanceModel}
use worker_unit.Scheduler.Job.{high_priority}
use worker_unit.Receiver.UserData.{Body}

-- `a,b` and `c,d`
abbrev header : Bytes
header = 97 ∷ 44 ∷ 98 ∷ []

abbrev row : Bytes
row = 99 ∷ 44 ∷ 100 ∷ []

abbrev table : FileDataBaseAccess
table = record {
  access_mode = rw_file;
  read_write_data = header ∷ row ∷ row ∷ [];
  read_data = [];
  data_modified = true;
  file_deleted = false;
}

abbrev clean_table : FileDataBaseAccess
clean_table = record table { data_modified = false }

open_file-close_file_example :
    rows (open_file read_file (close_file table none)) ≡ header ∷ row ∷ row ∷ []
open_file-close_file_example =
    open_file-close_file read_file table none refl refl refl
      ((refl, (refl, (refl, tt))), ((refl, (refl, (refl, tt))), ((refl, (refl, (refl, tt))), tt)))

abbrev new_values : List Bytes
new_values = (121 ∷ []) ∷ []

write_row_value_list_uncommitted_example :
    (d' : FileDataBaseAccess) × (write_row_value_list ((120 ∷ []) ∷ new_values) (pos 1) clean_table
      ≡ some (success, d'))
    × (get_row_value_list (pos 1) d' ≡ some ((120 ∷ []) ∷ new_values))
    × (close_file d' (some header) ≡ some header)
write_row_value_list_uncommitted_example =
    write_row_value_list_uncommitted (120 ∷ []) new_values 1 clean_table (some header) refl refl
      refl (omega arith) (refl, tt) ((refl, tt), tt)

abbrev cleaner : DataCleaner
cleaner = record { iterator = 0; file_data_base_access = table }

run_job-Cleaned_example : Cleaned (rows_of cleaner) (Cleaner.run_job 4 cleaner)
run_job-Cleaned_example = run_job-Cleaned cleaner (refl, refl) refl

abbrev validator : ValidateData
validator = record {
  start_row = 1;
  end_row = 1;
  iterator = 1;
  rows = 2;
  columns = 2;
  possible_fields = some ((99 ∷ []) ∷ []) ∷ none ∷ [];
  file_data_base_access = clean_table;
}

two_fields : 2 ≤ length (adv_tokenizer comma (find_row 1 (header ∷ row ∷ row ∷ [])))
unfolding adv_tokenizer add_head find_row
two_fields = omega arith

process_feild-Processed_example : Processed equal validator none
process_feild-Processed_example =
    process_feild-Processed equal validator none (omega arith) (refl, refl, omega arith) refl refl
      (omega arith) two_fields

counted : count_of 5 ((5, 1) ∷ []) ≡ some 1
unfolding count_of
counted = refl

uncounted : count_of 5 ((6, 1) ∷ []) ≡ none
unfolding count_of
uncounted = refl

update_times-lost_example :
    let (flags, m') = update_times 3 1 5 ((6, 1) ∷ []) in
    (flags ≡ never 1) × ((update_times 3 2 5 (set_count 5 0 m')).0 ≡ never 2)
update_times-lost_example = update_times-lost 3 1 2 5 ((6, 1) ∷ []) uncounted (omega arith) refl

abbrev model : InstanceModel
model = record {
  actual_name = 105 ∷ [];
  alias_name = 105 ∷ 95 ∷ 97 ∷ [];
  scheduled_to_delete = false;
  reference_count = 2;
}

-- The text "a,b", a newline, and "1,2".
abbrev packet_body : Body
packet_body = record {
  table_id = 116 ∷ [];
  data_ = 97 ∷ 44 ∷ 98 ∷ 10 ∷ 49 ∷ 44 ∷ 50 ∷ [];
  instance_type = 105 ∷ [];
  priority = high_priority;
}
