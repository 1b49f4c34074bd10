-- ===== src/Sqlite.antt =====
-- services/sqlite_database_access.cpp: the queries, and the callbacks that collect their rows.
use worker_unit.Base.{
  ℕ, zero, suc, ◌+◌, Bool, true, false, Option, none, some, List, [], ◌∷◌, ◌++◌, if◌then◌else◌, set,
  ◌==◌, ltb, get_elem?, length,
}
use worker_unit.Base.Text.{Bytes}
use worker_unit.Base.Int.{ℤ, pos, negsuc}
use worker_unit.FileDatabase.{comma}
use worker_unit.Algorithm.Finalize.{to_string}
pub mod Columns

-- "SELECT * FROM "
abbrev pub select_all : Bytes
select_all = 83 ∷ 69 ∷ 76 ∷ 69 ∷ 67 ∷ 84 ∷ 32 ∷ 42 ∷ 32 ∷ 70 ∷ 82 ∷ 79 ∷ 77 ∷ 32 ∷ []

-- " where id="
abbrev pub where_id : Bytes
where_id = 32 ∷ 119 ∷ 104 ∷ 101 ∷ 114 ∷ 101 ∷ 32 ∷ 105 ∷ 100 ∷ 61 ∷ []

-- " WHERE ID=1;"
abbrev pub where_first : Bytes
where_first = 32 ∷ 87 ∷ 72 ∷ 69 ∷ 82 ∷ 69 ∷ 32 ∷ 73 ∷ 68 ∷ 61 ∷ 49 ∷ 59 ∷ []

-- "SELECT "
abbrev pub select : Bytes
select = 83 ∷ 69 ∷ 76 ∷ 69 ∷ 67 ∷ 84 ∷ 32 ∷ []

-- " FROM "
abbrev pub from_table : Bytes
from_table = 32 ∷ 70 ∷ 82 ∷ 79 ∷ 77 ∷ 32 ∷ []

-- ";"
abbrev pub end_of_query : Bytes
end_of_query = 59 ∷ []

-- A row that a query yields: the names of its columns and its cells, null or not.
pub record Row : Type 0 where
  pub names : List Bytes
  pub cells : List (Option Bytes)

unfoldable pub empty_texts : ℕ → List Bytes
empty_texts zero = []
empty_texts (suc n) = [] ∷ empty_texts n

unfoldable pub cons_text : Bytes → Option (List Bytes) → Option (List Bytes)
cons_text v none = none
cons_text v (some vs) = some (v ∷ vs)

-- `mdata[i] = argv[i]` for all but the last cell. `none` is a text made of a null pointer, or a write
-- past the array.
unfoldable pub fill_cells : List (Option Bytes) → List Bytes → Option (List Bytes)
unfolding cons_text
fill_cells [] texts = some texts
fill_cells (c ∷ []) texts = some texts
fill_cells (none ∷ d ∷ cs) texts = none
fill_cells (some v ∷ d ∷ cs) [] = none
fill_cells (some v ∷ d ∷ cs) (t ∷ texts) = cons_text v (fill_cells (d ∷ cs) texts)

-- `mdata[i] = azColName[i]`, likewise.
unfoldable pub fill_names : List Bytes → List Bytes → Option (List Bytes)
unfolding cons_text
fill_names [] texts = some texts
fill_names (c ∷ []) texts = some texts
fill_names (c ∷ d ∷ cs) [] = none
fill_names (c ∷ d ∷ cs) (t ∷ texts) = cons_text c (fill_names (d ∷ cs) texts)

-- A callback on one row after the other.
unfoldable pub each_row {ℓ} : {A : Type ℓ} → (Row → A → Option A) → List Row → A → Option A
each_row f [] a = some a
each_row f (r ∷ rs) a = elim (f r a) [ none ↦ none | some a' ↦ each_row f rs a' ]

unfoldable pub row_callback : Row → List Bytes → Option (List Bytes)
unfolding fill_cells
row_callback r texts = fill_cells r.cells texts

unfoldable pub column_head_callback : Row → List Bytes → Option (List Bytes)
unfolding fill_names
column_head_callback r texts = fill_names r.names texts

-- The cells that are not null.
unfoldable pub not_null : List (Option Bytes) → List Bytes
not_null [] = []
not_null (none ∷ cs) = not_null cs
not_null (some v ∷ cs) = v ∷ not_null cs

unfoldable pub col_callback : Row → List Bytes → Option (List Bytes)
unfolding not_null
col_callback r values = some (values ++ not_null r.cells)

-- The cells with commas between them; `none` is a null pointer appended.
unfoldable pub join_cells : List (Option Bytes) → Option Bytes
join_cells [] = some []
join_cells (none ∷ cs) = none
join_cells (some v ∷ []) = some v
join_cells (some v ∷ c ∷ cs) = elim (join_cells (c ∷ cs)) [
  | none ↦ none
  | some s ↦ some (v ++ (comma ∷ s))
]

-- With a column past the row only the pointer's copy is set to null.
unfoldable pub read_callback : ℤ → Row → Bytes → Option Bytes
unfolding join_cells
read_callback (negsuc n) r text = elim (join_cells r.cells) [
  | none ↦ none
  | some s ↦ some (text ++ (s ++ (59 ∷ [])))
]
read_callback (pos column) r text = elim (get_elem? r.cells column) [
  | none ↦ some text
  | some none ↦ none
  | some (some v) ↦ some v
]

-- The loop over the values, with the index `j` into the array of `rows` texts.
unfoldable pub copy_values : ℕ → ℕ → List Bytes → List Bytes → List Bytes
copy_values rows j [] texts = texts
copy_values rows j (v ∷ vs) texts =
    let rest = copy_values rows (j + 1) vs (set texts j v) in if j == rows then texts else rest

-- What a method returns: undefined behaviour, a null pointer, or a value.
pub data Reply {ℓ} (A : Type ℓ) : Type ℓ where
  undefined null_pointer : Reply A
  value : A → Reply A

abbrev pub reply_of {ℓ} : {A : Type ℓ} → Bool → Option A → Reply A
reply_of ok none = undefined
reply_of false (some a) = null_pointer
reply_of true (some a) = value a

-- `sqlite3_exec`: whether it returns SQLITE_OK, the rows for the callback, and the database. It gets
-- the text behind `c_str()`, of which it sees what stands before a zero byte.
module _ {ℓ} {S : Type ℓ} (exec : Bytes → S → Bool × List Row × S) where
  unfoldable pub get_row_values : Bytes → ℕ → ℤ → S → Reply (List Bytes) × S
  unfolding to_string each_row row_callback empty_texts
  get_row_values table_id columns row_num s =
      let (ok, rows, s') =
        exec (select_all ++ (table_id ++ (where_id ++ (to_string row_num ++ end_of_query)))) s in
      (reply_of ok (each_row row_callback rows (empty_texts columns)), s')

  unfoldable pub get_column_values : Bytes → Bytes → ℕ → S → Reply (List Bytes) × S
  unfolding each_row col_callback copy_values empty_texts
  get_column_values table_name column_name rows s =
      let (ok, found, s') =
        exec (select ++ (column_name ++ (from_table ++ (table_name ++ end_of_query)))) s in
      (
        reply_of ok (elim (each_row col_callback found []) [
          | none ↦ none
          | some vs ↦ some (copy_values rows 0 vs (empty_texts rows))
        ]),
        s',
      )

  -- Whether the code is SQLITE_OK.
  unfoldable pub write_value : Bytes → S → Bool × S
  write_value query s = let (ok, rows, s') = exec query s in (ok, s')

  unfoldable pub read_value : Bytes → ℤ → S → Reply Bytes × S
  unfolding each_row read_callback
  read_value query column s =
      let (ok, rows, s') = exec query s in
      (reply_of ok (each_row (read_callback column) rows []), s')

  unfoldable pub get_column_names : Bytes → ℕ → S → Reply (List Bytes) × S
  unfolding each_row column_head_callback empty_texts
  get_column_names table_id columns s =
      let (ok, rows, s') = exec (select_all ++ (table_id ++ where_first)) s in
      (reply_of ok (each_row column_head_callback rows (empty_texts columns)), s')

-- "csv.db"
abbrev pub database_file : Bytes
database_file = 99 ∷ 115 ∷ 118 ∷ 46 ∷ 100 ∷ 98 ∷ []

-- `sqlite3_open` and `sqlite3_close`: whether the result is SQLITE_OK, and the database.
module _ {ℓ} {S : Type ℓ} (open_database : Bytes → S → Bool × S) (close : S → Bool × S) where
  -- The code is 1 for a database that does not open.
  unfoldable pub init_database : S → ℕ × S
  init_database s = let (ok, s') = open_database database_file s in (if ok then 0 else 1, s')

  -- The destructor only logs a failure.
  unfoldable pub close_database : S → S
  close_database s = let (ok, s') = close s in s'
