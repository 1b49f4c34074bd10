-- ===== src/Examples/Handover.antt =====
-- A table from stage to stage, and the queries, at concrete inputs.
use worker_unit.Base.{
  ℕ, suc, ◌≡◌, refl, Bool, true, false, Option, none, some, List, [], ◌∷◌, arith, inl, inr, length,
}
use worker_unit.Base.Text.{Bytes, equal}
use worker_unit.Scheduler.Job.{high_priority}
use worker_unit.FileDatabase.{
  rw_file, split_string_by_newline, get_row_value_list, write_row_value_list,
}
use worker_unit.Algorithm.Split.{TableData}
use worker_unit.DataProcessor.Cleaner.{new_data_cleaner, run_job}
use worker_unit.DataProcessor.Validator
use worker_unit.DataProcessor.Validator.{ValidateData, new_validate_data}
use worker_unit.DataProcessor.Pipeline.{validators}
use worker_unit.DataProcessor.Pipeline.Unmodified.{none_yet, after}
use worker_unit.DataProcessor.Pipeline.Handover.{Ended, HandedOver, run_job-HandedOver}
use worker_unit.Sqlite.{Row, not_null, get_column_values, get_column_names, value}
use worker_unit.Sqlite.Columns.{get_column_values-padded, get_column_names_fields}

-- The rows "a", "b", "b" and "c".
abbrev text : Bytes
text = 97 ∷ 10 ∷ 98 ∷ 10 ∷ 98 ∷ 10 ∷ 99 ∷ 10 ∷ []

abbrev table : TableData
table = record {
  rows = 3;
  columns = 1;
  table_id = 116 ∷ [];
  priority = high_priority;
  instance_type = 105 ∷ [];
}

-- Only "c" is a value of the instance.
abbrev possible : List (Option (List Bytes))
possible = some ((99 ∷ []) ∷ []) ∷ []

abbrev first_job : ValidateData
unfolding new_validate_data
first_job = new_validate_data 1 1 3 1 possible (some text)

-- The first job has replaced the row "b" by "NaN".
abbrev replaced : ValidateData
replaced = record {
  start_row = 1;
  end_row = 1;
  iterator = 2;
  rows = 3;
  columns = 1;
  possible_fields = possible;
  file_data_base_access = record {
    access_mode = rw_file;
    read_write_data = (97 ∷ []) ∷ (78 ∷ 97 ∷ 78 ∷ []) ∷ (98 ∷ []) ∷ (99 ∷ []) ∷ [];
    read_data = [];
    data_modified = false;
    file_deleted = false;
  };
}

abbrev second_job : ValidateData
unfolding new_validate_data
second_job = new_validate_data 2 3 3 1 possible (some text)

replaces : Validator.process_feild equal first_job ≡ some (false, replaced)
unfolding Validator.process_feild new_validate_data get_row_value_list write_row_value_list equal
replaces = refl

two-Ended : Ended equal (validators 2 table possible (some text)) (second_job ∷ replaced ∷ [])
unfolding validators
two-Ended = (
  (second_job, inr (inl refl), none_yet),
  ((first_job, inl refl, after false replaced none_yet replaces), tt),
)

-- Two threads, and one of the two jobs has replaced a value in its rows.
run_job-HandedOver_example :
    HandedOver equal 2 7 table possible text []
      (second_job ∷ replaced ∷ [])
      (run_job (suc (length (split_string_by_newline text))) (new_data_cleaner (some text)))
run_job-HandedOver_example =
    run_job-HandedOver equal 2 7 table possible text [] (second_job ∷ replaced ∷ []) (omega arith)
      two-Ended refl

-- A database that answers each query with two rows of one field and the column ID, and that counts
-- the queries.
abbrev one_row : Row
one_row = record { names = (98 ∷ []) ∷ (73 ∷ 68 ∷ []) ∷ []; cells = some (120 ∷ []) ∷ none ∷ [] }

abbrev exec : Bytes → ℕ → Bool × List Row × ℕ
exec query n = (true, one_row ∷ one_row ∷ [], suc n)

abbrev one_answer : Bytes → ℕ → Bool × List Row × ℕ
one_answer query n = (true, one_row ∷ [], suc n)

-- The two values and an empty text, for a number of three.
get_column_values-padded_example :
    get_column_values exec (116 ∷ []) (98 ∷ []) 3 4 ≡ (value ((120 ∷ []) ∷ (120 ∷ []) ∷ [] ∷ []), 5)
unfolding not_null
get_column_values-padded_example = get_column_values-padded exec (116 ∷ []) (98 ∷ []) 3 4

-- The table has one field, "b"; both rows carry its name.
get_column_names_fields_example :
    get_column_names one_answer (116 ∷ []) 1 4 ≡ (value ((98 ∷ []) ∷ []), 5)
get_column_names_fields_example =
    get_column_names_fields one_answer (116 ∷ []) (73 ∷ 68 ∷ []) ((98 ∷ []) ∷ []) one_row.cells 4 5
      true refl
