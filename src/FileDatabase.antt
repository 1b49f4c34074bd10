-- ===== src/FileDatabase.antt =====
-- services/file_database_access.cpp: a table in a CSV file, read whole and written back on close.
use worker_unit.Base.{
  ℕ, zero, suc, ◌+◌, Bool, true, false, not, ◌&&◌, ◌||◌, Option, none, some, List, [], ◌∷◌, ◌++◌,
  ltb, leb, ◌==◌, if◌then◌else◌, length, get_elem?, set,
}
use worker_unit.Base.Text.{Bytes, equal}
use worker_unit.Base.Int.{ℤ, pos, negsuc, to_size, gtz}
pub mod Text
pub mod Commit
pub mod Duplicates
pub mod Overwrite

-- `enum FileAccessType`
pub data FileAccessType : Type 0 where
  read_file rw_file : FileAccessType

-- `enum FileAccessErrors`, and the 0 of success.
pub data FileCode : Type 0 where
  success access_denied invalid_access_mode duplicate_cleanup_done row_index_overflow : FileCode
  column_index_overflow row_index_underflow column_index_underflow : FileCode

pub record FileDataBaseAccess : Type 0 where
  pub access_mode : FileAccessType
  pub read_write_data : List Bytes
  pub read_data : List Bytes
  pub data_modified : Bool
  pub file_deleted : Bool

abbrev pub is_read : FileAccessType → Bool
is_read read_file = true
is_read rw_file = false

abbrev pub newline : ℕ
newline = 10

abbrev pub comma : ℕ
comma = 44

-- A byte in front of the first piece, which begins with it if there was none.
unfoldable pub add_head : ℕ → List Bytes → List Bytes
add_head c [] = (c ∷ []) ∷ []
add_head c (l ∷ ls) = (c ∷ l) ∷ ls

-- The pieces that repeated `getline` calls deliver: no empty one after a last newline.
unfoldable pub split_string_by_newline : Bytes → List Bytes
unfolding add_head
split_string_by_newline [] = []
split_string_by_newline (c ∷ s) =
    let rest = split_string_by_newline s in if c == newline then [] ∷ rest else add_head c rest

-- Here the loop runs until `eof`, which a delimiter at the end of the text does not set.
unfoldable pub adv_tokenizer : ℕ → Bytes → List Bytes
unfolding add_head
adv_tokenizer del [] = [] ∷ []
adv_tokenizer del (c ∷ s) =
    let rest = adv_tokenizer del s in if c == del then [] ∷ rest else add_head c rest

-- `resultData += row + '\n'` for every row
unfoldable pub write_rows : List Bytes → Bytes
write_rows [] = []
write_rows (r ∷ rs) = r ++ (newline ∷ write_rows rs)

-- What opening finds of a file, given its contents. A missing file gives no rows; the second
-- `open` is that of an `ifstream`, which adds `in` to the mode, and so creates no file either.
unfoldable pub read_lines : Option Bytes → List Bytes
unfolding split_string_by_newline
read_lines none = []
read_lines (some contents) = split_string_by_newline contents

unfoldable pub open_file : FileAccessType → Option Bytes → FileDataBaseAccess
unfolding read_lines
open_file read_file disk = record {
  access_mode = read_file;
  read_write_data = [];
  read_data = read_lines disk;
  data_modified = false;
  file_deleted = false;
}
open_file rw_file disk = record {
  access_mode = rw_file;
  read_write_data = read_lines disk;
  read_data = [];
  data_modified = false;
  file_deleted = false;
}

-- The rows that the access mode makes the object work on.
abbrev pub rows : FileDataBaseAccess → List Bytes
rows d = if is_read d.access_mode then d.read_data else d.read_write_data

unfoldable pub write_blob : Bytes → FileDataBaseAccess → FileCode × FileDataBaseAccess
unfolding split_string_by_newline
write_blob s d =
    if d.file_deleted
    then (access_denied, d)
    else if is_read d.access_mode
    then (invalid_access_mode, d)
    else (success, record d { read_write_data = split_string_by_newline s; data_modified = true })

unfoldable pub get_blob : FileDataBaseAccess → Bytes
unfolding write_rows
get_blob d = if d.file_deleted then [] else write_rows (rows d)

unfoldable pub get_total_rows : FileDataBaseAccess → ℤ
get_total_rows d = if d.file_deleted then negsuc 0 else pos (length (rows d))

unfoldable pub count_commas : Bytes → ℕ
count_commas [] = 0
count_commas (c ∷ s) = if c == comma then suc (count_commas s) else count_commas s

-- `none` is `front()` of an empty container.
unfoldable pub get_total_columns : FileDataBaseAccess → Option ℤ
unfolding count_commas
get_total_columns d =
    if d.file_deleted
    then some (negsuc 0)
    else elim (rows d) [ [] ↦ none | header ∷ _ ↦ some (pos (count_commas header + 1)) ]

-- The loop over the list leaves `data` empty if it does not come to the index.
unfoldable pub find_row : ℕ → List Bytes → Bytes
find_row i [] = []
find_row zero (r ∷ rs) = r
find_row (suc i) (r ∷ rs) = find_row i rs

-- The row's text; `none` is `readData[rowIndex]` out of bounds.
unfoldable pub row_text : FileDataBaseAccess → ℕ → Option Bytes
unfolding find_row
row_text d i =
    if is_read d.access_mode then get_elem? d.read_data i else some (find_row i d.read_write_data)

unfoldable pub tokens_of : Option Bytes → Option (List Bytes)
unfolding adv_tokenizer
tokens_of none = none
tokens_of (some s) = some (adv_tokenizer comma s)

unfoldable pub get_row_value_list : ℤ → FileDataBaseAccess → Option (List Bytes)
unfolding row_text tokens_of
get_row_value_list (negsuc n) d = some []
get_row_value_list (pos i) d = if d.file_deleted then some [] else tokens_of (row_text d i)

unfoldable pub get_column_names_list : FileDataBaseAccess → Option (List Bytes)
unfolding adv_tokenizer
get_column_names_list d =
    if d.file_deleted
    then some []
    else elim (rows d) [ [] ↦ none | header ∷ _ ↦ some (adv_tokenizer comma header) ]

-- `columnIndex` is tested against `total`, the result of `getTotalColumns()`.
unfoldable pub column_value : ℕ → ℤ → ℤ → FileDataBaseAccess → Option Bytes
unfolding row_text adv_tokenizer
column_value i column total d = if gtz column total then some [] else elim column [
  | negsuc n ↦ some []
  | pos j ↦ elim (row_text d i) [ none ↦ none | some s ↦ get_elem? (adv_tokenizer comma s) j ]
]

-- The row index is tested against the size of `readWriteData` in both modes.
unfoldable pub get_row_value : ℤ → ℤ → FileDataBaseAccess → Option Bytes
unfolding get_total_columns column_value
get_row_value row column d =
    if d.file_deleted
    then some []
    else if ltb (length d.read_write_data) (to_size row)
    then some []
    else elim (get_total_columns d) [
      | none ↦ none
      | some total ↦ elim row [ negsuc n ↦ some [] | pos i ↦ column_value i column total d ]
    ]

-- `rowString += "," + valueList[i]`
unfoldable pub append_values : Bytes → List Bytes → Bytes
append_values s [] = s
append_values s (v ∷ vs) = append_values (s ++ (comma ∷ v)) vs

-- `none` is `valueList[0]` of an empty list, or `erase(end())`.
unfoldable pub replace_row :
    List Bytes → ℤ → FileDataBaseAccess → Option (FileCode × FileDataBaseAccess)
unfolding append_values
replace_row vs (negsuc n) d = some (row_index_underflow, d)
replace_row [] (pos i) d = none
replace_row (v ∷ vs) (pos i) d =
    if ltb i (length d.read_write_data)
    then some (success, record d { read_write_data = set d.read_write_data i (append_values v vs) })
    else none

unfoldable pub write_row_value_list :
    List Bytes → ℤ → FileDataBaseAccess → Option (FileCode × FileDataBaseAccess)
unfolding replace_row
write_row_value_list vs row d =
    if d.file_deleted
    then some (access_denied, d)
    else if is_read d.access_mode
    then some (invalid_access_mode, d)
    else if ltb (length d.read_write_data) (to_size row)
    then some (row_index_overflow, d)
    else replace_row vs row d

-- The rows after the index that are not the given text, and whether one was erased.
unfoldable pub erase_equal : Bytes → List Bytes → List Bytes × Bool
unfolding equal
erase_equal s [] = ([], false)
erase_equal s (r ∷ rs) =
    let (rs', modified) = erase_equal s rs in if equal s r then (rs', true) else (r ∷ rs', modified)

unfoldable pub erase_duplicates : ℕ → List Bytes → List Bytes × Bool
unfolding erase_equal
erase_duplicates i [] = ([], false)
erase_duplicates zero (r ∷ rs) = let (rs', modified) = erase_equal r rs in (r ∷ rs', modified)
erase_duplicates (suc i) (r ∷ rs) =
    let (rs', modified) = erase_duplicates i rs in (r ∷ rs', modified)

unfoldable pub delete_duplicate_records : ℤ → FileDataBaseAccess → FileCode × FileDataBaseAccess
unfolding erase_duplicates
delete_duplicate_records row d =
    if d.file_deleted
    then (access_denied, d)
    else if is_read d.access_mode
    then (invalid_access_mode, d)
    else if leb (length d.read_write_data) (to_size row)
    then (duplicate_cleanup_done, d)
    else elim row [
      | negsuc n ↦ (row_index_underflow, d)
      | pos i ↦
          let (rs, modified) = erase_duplicates i d.read_write_data in
          (success, record d { read_write_data = rs; data_modified = d.data_modified || modified })
    ]

-- The file's contents afterwards; `ofstream` creates a missing file.
unfoldable pub commit_changes : FileDataBaseAccess → Option Bytes → Option Bytes
unfolding write_rows
commit_changes d disk =
    if not (is_read d.access_mode) && d.data_modified
    then some (write_rows d.read_write_data)
    else disk

unfoldable pub drop_file : FileDataBaseAccess → Option Bytes → FileDataBaseAccess × Option Bytes
drop_file d disk =
    if d.file_deleted
    then (d, disk)
    else if is_read d.access_mode
    then (d, disk)
    else (record d { file_deleted = true }, none)

-- The destructor.
unfoldable pub close_file : FileDataBaseAccess → Option Bytes → Option Bytes
unfolding commit_changes
close_file d disk = if d.file_deleted then disk else commit_changes d disk
