-- ===== src/FileDatabase/Overwrite.antt =====
-- services/file_database_access.cpp: the write of a single value.
use worker_unit.Base.{Bool, true, false, Option, none, some, ltb, if◌then◌else◌, length}
use worker_unit.Base.Int.{ℤ, pos, negsuc, to_size}
use worker_unit.FileDatabase.{
  FileCode, access_denied, invalid_access_mode, row_index_overflow, column_index_overflow,
  row_index_underflow, column_index_underflow, FileDataBaseAccess, is_read, get_total_columns,
}

-- `a > b`
unfoldable pub exceeds : ℤ → ℤ → Bool
exceeds (pos a) (pos b) = ltb b a
exceeds (pos a) (negsuc b) = true
exceeds (negsuc a) (pos b) = false
exceeds (negsuc a) (negsuc b) = ltb a b

-- The value plays no part: past the tests, `erase(i)` ends the iterator's life before `insert(i, data)` uses
-- it, unless the regular expression's constructor throws before. Both are `none`, and so is a column
-- past the row's tokens, `readWriteData.front()` of no rows or `erase(end())`.
unfoldable pub write_row_value : ℤ → ℤ → FileDataBaseAccess → Option (FileCode × FileDataBaseAccess)
unfolding get_total_columns exceeds
write_row_value row column d =
    if d.file_deleted
    then some (access_denied, d)
    else if is_read d.access_mode
    then some (invalid_access_mode, d)
    else if ltb (length d.read_write_data) (to_size row)
    then some (row_index_overflow, d)
    else elim (get_total_columns d) [
      | none ↦ none
      | some total ↦ if exceeds column total then some (column_index_overflow, d) else elim row [
        | negsuc n ↦ some (row_index_underflow, d)
        | pos i ↦ elim column [ negsuc n ↦ some (column_index_underflow, d) | pos j ↦ none ]
      ]
    ]
