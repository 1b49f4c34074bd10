-- ===== src/FileDatabase/Commit.antt =====
-- What of an object's rows reaches the file, and what its accessors show of them.
use worker_unit.Base.{
  ℕ, zero, suc, ◌<◌, ◌≡◌, refl, ap, true, false, Option, none, some, List, [], ◌∷◌, arith, ltb,
  lt→ltb, length, set, All,
}
use worker_unit.Base.Text.{Bytes}
use worker_unit.Base.Int.{ℤ, pos, negsuc}
use worker_unit.FileDatabase.{
  FileAccessType, read_file, rw_file, success, access_denied, invalid_access_mode,
  FileDataBaseAccess, is_read, newline, comma, open_file, read_lines, rows, write_blob, get_blob,
  get_total_columns, get_column_names_list, get_row_value_list, find_row, row_text, tokens_of,
  replace_row, write_row_value_list, append_values, delete_duplicate_records, commit_changes,
  drop_file, close_file, adv_tokenizer,
}
use worker_unit.FileDatabase.Text.{
  Free, terminate, split-write_rows, write_rows-split, length-tokenizer, tokenizer-append_values,
}

-- Closing a changed object and opening its file again, in either mode, gives the rows it had, if no
-- row has a newline in it.
pub open_file-close_file :
    (mode : FileAccessType) (d : FileDataBaseAccess) (disk : Option Bytes)
    → is_read d.access_mode ≡ false
    → d.file_deleted ≡ false
    → d.data_modified ≡ true
    → All (Free newline) d.read_write_data
    → rows (open_file mode (close_file d disk)) ≡ d.read_write_data
unfolding open_file read_lines close_file commit_changes
open_file-close_file read_file d disk a b c h =
    simp (a, b, c) (split-write_rows d.read_write_data h)
open_file-close_file rw_file d disk a b c h = simp (a, b, c) (split-write_rows d.read_write_data h)

-- An object opened for writing shows a blob written to it as it was, with a newline after its last
-- row, and its file holds the same after closing.
pub get_blob-write_blob :
    (s : Bytes) (disk : Option Bytes)
    → let (code, d) = write_blob s (open_file rw_file disk) in
      (code ≡ success) × (get_blob d ≡ terminate s) × (close_file d disk ≡ some (terminate s))
unfolding write_blob open_file get_blob close_file commit_changes
get_blob-write_blob s disk = (refl, write_rows-split s, ap some (write_rows-split s))

-- No operation changes an object that is open for reading, nor its file.
pub read_file_unchanged :
    (s : Bytes) (vs : List Bytes) (row : ℤ) (d : FileDataBaseAccess) (disk : Option Bytes)
    → is_read d.access_mode ≡ true
    → d.file_deleted ≡ false
    → (write_blob s d ≡ (invalid_access_mode, d))
      × (write_row_value_list vs row d ≡ some (invalid_access_mode, d))
      × (delete_duplicate_records row d ≡ (invalid_access_mode, d))
      × (drop_file d disk ≡ (d, disk))
      × (close_file d disk ≡ disk)
unfolding write_blob write_row_value_list delete_duplicate_records drop_file close_file
    commit_changes
read_file_unchanged s vs row d disk a b = simp (a, b) (refl, refl, refl, refl, refl)

-- After the file was dropped every access is refused, and closing does not bring it back.
pub drop_file_denies :
    (s : Bytes) (vs : List Bytes) (row : ℤ) (d : FileDataBaseAccess) (disk : Option Bytes)
    → is_read d.access_mode ≡ false
    → d.file_deleted ≡ false
    → let (d', disk') = drop_file d disk in
      (disk' ≡ none)
      × (write_blob s d' ≡ (access_denied, d'))
      × (write_row_value_list vs row d' ≡ some (access_denied, d'))
      × (delete_duplicate_records row d' ≡ (access_denied, d'))
      × (get_row_value_list row d' ≡ some [])
      × (close_file d' disk' ≡ none)
unfolding drop_file write_blob write_row_value_list delete_duplicate_records get_row_value_list
    close_file
drop_file_denies s vs (pos i) d disk a b = simp (a, b) (refl, refl, refl, refl, refl, refl)
drop_file_denies s vs (negsuc i) d disk a b = simp (a, b) (refl, refl, refl, refl, refl, refl)

-- The number of columns of a table that has a header row is the number of its column names.
pub get_total_columns-length :
    (d : FileDataBaseAccess) (header : Bytes) (rest : List Bytes)
    → d.file_deleted ≡ false
    → rows d ≡ header ∷ rest
    → (names : List Bytes) × (get_column_names_list d ≡ some names)
      × (get_total_columns d ≡ some (pos (length names)))
unfolding get_total_columns get_column_names_list
get_total_columns-length d header rest a e = (
  adv_tokenizer comma header,
  rw (a, e) refl,
  rw (a, e) (ap (λ n. some (pos n)) (omega (arith, length-tokenizer header))),
)

ltb-lt_false : (i n : ℕ) → i < n → ltb n i ≡ false
ltb-lt_false i n h = ground arith

find_row-set : (i : ℕ) (rs : List Bytes) (r : Bytes) → i < length rs → find_row i (set rs i r) ≡ r
unfolding find_row
find_row-set i [] r h = absurd (omega arith)
find_row-set zero (x ∷ rs) r h = refl
find_row-set (suc i) (x ∷ rs) r h = find_row-set i rs r (omega arith)

-- Values without commas that are written to a row within the table are the values that the object
-- shows there, but the file is left as it was when the object is closed, unless something else has
-- marked the object as modified.
pub write_row_value_list_uncommitted :
    (v : Bytes) (vs : List Bytes) (i : ℕ) (d : FileDataBaseAccess) (disk : Option Bytes)
    → is_read d.access_mode ≡ false
    → d.file_deleted ≡ false
    → d.data_modified ≡ false
    → i < length d.read_write_data
    → Free comma v
    → All (Free comma) vs
    → (d' : FileDataBaseAccess) × (write_row_value_list (v ∷ vs) (pos i) d ≡ some (success, d'))
      × (get_row_value_list (pos i) d' ≡ some (v ∷ vs))
      × (close_file d' disk ≡ disk)
unfolding write_row_value_list replace_row get_row_value_list row_text tokens_of close_file
    commit_changes
write_row_value_list_uncommitted v vs i d disk a b c h k l = (
  record d { read_write_data = set d.read_write_data i (append_values v vs) },
  simp (a, b, ltb-lt_false i (length d.read_write_data) h, lt→ltb i (length d.read_write_data) h)
      refl,
  simp
      (
        a,
        b,
        find_row-set i d.read_write_data (append_values v vs) h,
        tokenizer-append_values v vs k l,
      )
      refl,
  simp (a, b, c) refl,
)
