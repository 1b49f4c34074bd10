-- ===== src/Sqlite/Columns.antt =====
-- What the two queries of a table's columns return.
use worker_unit.Base.{
  ℕ, zero, suc, ◌+◌, ◌≡◌, refl, ap, sym, subst, ◌∙◌, Bool, true, false, Option, none, some, List,
  [], ◌∷◌, ◌++◌, if◌then◌else◌, set, ◌==◌, length, length-append, arith, if_true, if_false,
}
use mathlib.Core.List.{append_assoc, append-nil}
use worker_unit.Base.Text.{Bytes}
use worker_unit.Sqlite.{
  Row, empty_texts, not_null, each_row, col_callback, copy_values, cons_text, fill_names,
  column_head_callback, null_pointer, value, reply_of, get_column_values, get_column_names, select,
  select_all, from_table, end_of_query, where_first,
}

-- The first `n` texts of the list, with empty ones for those that are missing.
abbrev pub padded : ℕ → List Bytes → List Bytes
padded zero vs = []
padded (suc n) [] = [] ∷ padded n []
padded (suc n) (v ∷ vs) = v ∷ padded n vs

-- The values of all rows in order.
abbrev pub column_of : List Row → List Bytes
column_of [] = []
column_of (r ∷ rs) = not_null r.cells ++ column_of rs

empty-padded : (n : ℕ) → empty_texts n ≡ padded n []
unfolding empty_texts
empty-padded zero = refl
empty-padded (suc n) = ap (λ t. [] ∷ t) (empty-padded n)

set-append :
    (front : List Bytes) (t v : Bytes) (ts : List Bytes)
    → set (front ++ (t ∷ ts)) (length front) v ≡ (front ++ (v ∷ [])) ++ ts
set-append [] t v ts = refl
set-append (f ∷ front) t v ts = ap (λ x. f ∷ x) (set-append front t v ts)

copy_values-padded :
    (vs front : List Bytes) (rows j k : ℕ)
    → length front ≡ j
    → j + k ≡ rows
    → copy_values rows j vs (front ++ empty_texts k) ≡ front ++ padded k vs
unfolding copy_values empty_texts
copy_values-padded [] front rows j k e l = ap (λ t. front ++ t) (empty-padded k)
copy_values-padded (v ∷ vs) front rows j zero e l =
    if_true (j == rows) (front ++ empty_texts 0)
      (copy_values rows (j + 1) vs (set (front ++ empty_texts 0) j v)) (ground arith)
copy_values-padded (v ∷ vs) front rows j (suc k) e l =
    if_false (j == rows) (front ++ empty_texts (suc k))
      (copy_values rows (j + 1) vs (set (front ++ empty_texts (suc k)) j v)) (ground arith)
    ∙ ap (copy_values rows (j + 1) vs) (
        subst (λ i. set (front ++ ([] ∷ empty_texts k)) i v ≡ (front ++ (v ∷ [])) ++ empty_texts k)
          e (set-append front [] v (empty_texts k)))
    ∙ copy_values-padded vs (front ++ (v ∷ [])) rows (j + 1) k
        (omega (arith, length-append front (v ∷ []))) (omega arith)
    ∙ append_assoc front (v ∷ []) (padded k vs)

each_row-column :
    (rs : List Row) (acc : List Bytes) → each_row col_callback rs acc ≡ some (acc ++ column_of rs)
unfolding each_row col_callback
each_row-column [] acc = ap some (sym (append-nil acc))
each_row-column (r ∷ rs) acc =
    each_row-column rs (acc ++ not_null r.cells)
    ∙ ap some (append_assoc acc (not_null r.cells) (column_of rs))

-- The first names of the list in the array.
fill_names-exact :
    (fs : List Bytes) (last : Bytes)
    → fill_names (fs ++ (last ∷ [])) (empty_texts (length fs)) ≡ some fs
unfolding fill_names empty_texts
fill_names-exact [] last = refl
fill_names-exact (f ∷ []) last = refl
fill_names-exact (f ∷ g ∷ fs) last = ap (cons_text f) (fill_names-exact (g ∷ fs) last)

reply-padded :
    (ok : Bool) (rows : ℕ) (found : List Row)
    → reply_of ok (elim (each_row col_callback found []) [
      | none ↦ none
      | some vs ↦ some (copy_values rows 0 vs (empty_texts rows))
    ])
      ≡ (if ok then value (padded rows (column_of found)) else null_pointer)
reply-padded ok rows found =
    ap
      (λ o.
        reply_of ok
          (elim o [ none ↦ none | some vs ↦ some (copy_values rows 0 vs (empty_texts rows)) ]))
      (each_row-column found [])
    ∙ ap (λ vs. reply_of ok (some vs))
        (copy_values-padded (column_of found) [] rows 0 rows refl (omega arith))
    ∙ by_code ok
  where
    by_code :
        (b : Bool)
        → reply_of b (some (padded rows (column_of found)))
          ≡ (if b then value (padded rows (column_of found)) else null_pointer)
    by_code true = refl
    by_code false = refl

module _ {ℓ} {S : Type ℓ} (exec : Bytes → S → Bool × List Row × S) where
  abbrev pub column_query : Bytes → Bytes → Bytes
  column_query table_name column_name =
      select ++ (column_name ++ (from_table ++ (table_name ++ end_of_query)))

  -- If the database takes the query, `getColumnValues` returns the values of the column that are not
  -- null, in the order of the rows, cut off at the asked number or filled up with empty texts;
  -- otherwise a null pointer.
  pub get_column_values-padded :
      (table_name column_name : Bytes) (rows : ℕ) (s : S)
      → let (ok, found, s') = exec (column_query table_name column_name) s in
        get_column_values exec table_name column_name rows s
        ≡ (if ok then value (padded rows (column_of found)) else null_pointer, s')
  unfolding get_column_values
  get_column_values-padded table_name column_name rows s =
      let (ok, found, s') = exec (column_query table_name column_name) s in
      ap (λ r. (r, s')) (reply-padded ok rows found)

  -- The table of an instance has its fields as columns and the column ID behind them. If the query
  -- finds its first row, `getColumnNames` returns the names of the fields; if it finds none, it
  -- returns as many empty texts, not a null pointer.
  pub get_column_names_fields :
      (table_id last : Bytes) (fields : List Bytes) (cells : List (Option Bytes)) (s s' : S)
      (found : Bool)
      → exec (select_all ++ (table_id ++ where_first)) s ≡ (
        true,
        (if found then record { names = fields ++ (last ∷ []); cells = cells } ∷ [] else []),
        s',
      )
      → get_column_names exec table_id (length fields) s
        ≡ (value (if found then fields else empty_texts (length fields)), s')
  unfolding get_column_names each_row column_head_callback
  get_column_names_fields table_id last fields cells s s' true e =
      ap
        (λ x. (reply_of x.0 (each_row column_head_callback x.1 (empty_texts (length fields))), x.2))
        e
      ∙ ap (λ o. (reply_of true (elim o [ none ↦ none | some a ↦ some a ]), s'))
          (fill_names-exact fields last)
  get_column_names_fields table_id last fields cells s s' false e =
      ap
        (λ x. (reply_of x.0 (each_row column_head_callback x.1 (empty_texts (length fields))), x.2))
        e
