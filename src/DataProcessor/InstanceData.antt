-- ===== src/DataProcessor/InstanceData.antt =====
-- data_processor/instance_data.cpp: the columns of a table against those of its instance.
use worker_unit.Base.{
  ℕ, zero, suc, Bool, true, false, not, Option, none, some, List, [], ◌∷◌, ◌==◌, if◌then◌else◌,
  length, map,
}
use worker_unit.Base.Text.{Bytes, equal}
use worker_unit.Instances.{Instance}
pub mod Names

-- The two error texts that `getErrorString` may return, and the empty one.
pub data ErrorString : Type 0 where
  no_error column_count column_names : ErrorString

-- `instance_data_matrix` has `none` for a null pointer. `user_columns` is what `getColumnNamesList`
-- reads from the table's file.
pub record InstanceData : Type 0 where
  pub instance_ : Instance
  pub user_table_total_columns : ℕ
  pub user_columns : List Bytes
  pub instance_data_matrix : List (Option (List Bytes))
  pub error_string : ErrorString

-- The inner loop: the first of the instance's names that is the given one.
unfoldable pub find_column : Bytes → List Bytes → Option Bytes
unfolding equal
find_column name [] = none
find_column name (c ∷ cs) = if equal name c then some c else find_column name cs

unfoldable pub add_match : Option Bytes → List Bytes → List Bytes
add_match none ms = ms
add_match (some c) ms = c ∷ ms

unfoldable pub with_match : Option Bytes → Option (List Bytes) → Option (List Bytes)
unfolding add_match
with_match o none = none
with_match o (some ms) = some (add_match o ms)

-- The outer loop, `none` is an index past the user table's columns.
unfoldable pub match_columns : ℕ → List Bytes → List Bytes → Option (List Bytes)
unfolding find_column with_match
match_columns zero us cs = some []
match_columns (suc n) [] cs = none
match_columns (suc n) (u ∷ us) cs = with_match (find_column u cs) (match_columns n us cs)

-- A result, or a null pointer with the error text.
pub data ColumnNames : Type 0 where
  failed : ErrorString → ColumnNames
  columns : List Bytes → ColumnNames

unfoldable pub all_matched : ℕ → Option (List Bytes) → Option ColumnNames
all_matched cols none = none
all_matched cols (some ms) =
    some (if not (length ms == cols) then failed column_names else columns ms)

-- The names of the instance's columns, of which the query returns one for each column.
unfoldable pub compare_columns : ℕ → List Bytes → Option (List Bytes) → Option ColumnNames
unfolding match_columns all_matched
compare_columns cols us none = some (failed no_error)
compare_columns cols us (some cs) =
    if length us == 0 then some (failed no_error) else all_matched cols (match_columns cols us cs)

-- The two queries of sqlite_database_access.cpp, with `none` for a null pointer.
module _ (column_names : Bytes → ℕ → Option (List Bytes))
    (column_values : Bytes → Bytes → ℕ → Option (List Bytes)) where
  unfoldable pub validate_columns : InstanceData → Option ColumnNames
  unfolding compare_columns
  validate_columns d =
      let i = d.instance_ in
      if not (i.total_columns == d.user_table_total_columns)
      then some (failed column_count)
      else compare_columns i.total_columns d.user_columns
          (column_names i.instance_id i.total_columns)

  -- Whether it returns 0. The loop goes over as many names as were matched.
  unfoldable pub load_columns : Option ColumnNames → InstanceData → Option (Bool × InstanceData)
  load_columns none d = none
  load_columns (some (failed e)) d = some (false, record d { error_string = e })
  load_columns (some (columns ms)) d = some (
    true,
    record d {
      instance_data_matrix =
          map (λ m. column_values d.instance_.instance_id m d.instance_.total_rows) ms;
    },
  )

  unfoldable pub initlize_data : InstanceData → Option (Bool × InstanceData)
  unfolding validate_columns load_columns
  initlize_data d = load_columns (validate_columns d) d
