-- ===== src/Receiver/InstanceData.antt =====
-- receiver_proc/instance_data_parser.cpp: a table of instances from a packet goes to the database.
use worker_unit.Base.{
  ℕ, zero, suc, ◌+◌, ◌||◌, Bool, true, false, Option, none, some, List, [], ◌∷◌, ◌++◌, ◌==◌,
  if◌then◌else◌, length,
}
use worker_unit.Base.Text.{Bytes}
use worker_unit.FileDatabase.{newline, comma}
use worker_unit.Instances.{Instance, InstanceModel, new_instance, push_instance, add_instance}
use worker_unit.Receiver.Queries.{drop_table, semicolon, Queries, queries, insert_query}
use worker_unit.Receiver.UserData.{ReceiverStatus, p_error, p_success}
pub mod Statements
pub mod Stored

-- The commas up to the newline; `none` is a text without one, of which the loop leaves the end.
unfoldable pub count_from : Bytes → Option ℕ
count_from [] = none
count_from (c ∷ s) =
    let rest = count_from s in
    if c == newline
    then some 0
    else if c == comma
    then elim rest [ none ↦ none | some n ↦ some (suc n) ]
    else rest

-- The loop begins at the index -1: `before` is the byte in front of the text.
unfoldable pub count_columns : ℕ → Bytes → Option ℕ
unfolding count_from
count_columns before body =
    if before == newline
    then some 1
    else elim (count_from body) [ none ↦ none | some n ↦ some (suc n) ]

-- The text up to a comma or a newline, and the text behind that; `none` is a position behind the end.
unfoldable pub next_field : Bytes → Bytes × Option Bytes
next_field [] = ([], none)
next_field (c ∷ s) =
    let (field, rest) = next_field s in
    if c == comma || c == newline then ([], some s) else (c ∷ field, rest)

-- The loop over the columns. `substr` throws if it starts behind the end, which nothing catches.
unfoldable pub take_fields : ℕ → Option Bytes → Option (List Bytes × Option Bytes)
unfolding next_field
take_fields zero p = some ([], p)
take_fields (suc n) none = none
take_fields (suc n) (some s) =
    let (field, p) = next_field s in
    elim (take_fields n p) [ none ↦ none | some (fields, q) ↦ some (field ∷ fields, q) ]

-- The queries, and where the reading of the body stands.
unfoldable pub create_sql_cmds : Bytes → ℕ → Bytes → Option (Queries × Option Bytes)
unfolding take_fields
create_sql_cmds id columns body = elim (take_fields columns (some body)) [
  | none ↦ none
  | some (fields, p) ↦ some (queries id fields, p)
]

-- The fields of `packet["body"]`.
pub record InstanceBody : Type 0 where
  pub instance_id : Bytes
  pub data_ : Bytes
  pub algorithm : ℕ

-- The status, the table's id if it was set, the lists of instances, and the database.
pub record InstanceParsing {ℓ} (S : Type ℓ) : Type ℓ where
  pub status : ReceiverStatus
  pub table_id : Option Bytes
  pub models : List InstanceModel
  pub instances : List Instance
  pub database : S

-- The database: `write_value` says whether it took the command, and `reads` whether a query yields
-- anything. Both get the text behind a `c_str()`, of which they see what stands before a zero byte.
module _ {ℓ} {S : Type ℓ} (write_value : Bytes → S → Bool × S) (reads : Bytes → S → Bool) where
  -- A command that fails is tried a second time.
  unfoldable pub insert_row : Bytes → ℕ × S → ℕ × S
  insert_row q (rows, s) =
      let (ok, s') = write_value q s in
      let (ok', s'') = write_value q s' in
      if ok then (suc rows, s') else if ok' then (suc rows, s'') else (rows, s'')

  -- The fuel stands for the rows of the text. A position at the end or behind it ends the loop.
  unfoldable pub insert_rows : ℕ → ℕ → Queries → Option Bytes → ℕ × S → Option (ℕ × S)
  unfolding take_fields insert_row
  insert_rows fuel columns qs none st = some st
  insert_rows fuel columns qs (some []) st = some st
  insert_rows zero columns qs (some (c ∷ s)) st = none
  insert_rows (suc fuel) columns qs (some (c ∷ s)) st = elim (take_fields columns (some (c ∷ s))) [
    | none ↦ none
    | some (values, p) ↦ insert_rows fuel columns qs p (insert_row (insert_query qs values) st)
  ]

  -- The rows that were inserted, or `none` for EXIT_FAILURE; the outer `none` is the throw.
  unfoldable pub insert_into_table : Queries → ℕ → Bytes → Option Bytes → S → Option (Option ℕ × S)
  unfolding insert_rows
  insert_into_table qs columns body p s =
      let (ok, s') = write_value qs.create_table_query s in
      if ok || reads qs.verify_table_query s'
      then elim (insert_rows (suc (length body)) columns qs p (0, s')) [
        | none ↦ none
        | some (rows, s'') ↦ some (some rows, s'')
      ]
      else some (none, s')

  -- `deleteInstanceModel` for each of the aliases.
  unfoldable pub drop_models : List Bytes → S → S
  drop_models [] s = s
  drop_models (a ∷ names) s = drop_models names (write_value (drop_table ++ (a ++ semicolon)) s).1

  -- The end of the parsing: a table that could not be made is dropped.
  unfoldable pub finish_instance :
      Queries
      → Bytes
      → ℕ
      → ℕ
      → List InstanceModel
      → List Instance
      → Option ℕ × S
      → InstanceParsing S
  unfolding new_instance push_instance
  finish_instance qs alias_name algorithm columns models instances (none, s) = record {
    status = p_error;
    table_id = some alias_name;
    models = models;
    instances = instances;
    database = (write_value qs.drop_table_query s).1;
  }
  finish_instance qs alias_name algorithm columns models instances (some rows, s) = record {
    status = p_success;
    table_id = some alias_name;
    models = models;
    instances = push_instance (new_instance alias_name algorithm columns rows) instances;
    database = s;
  }

  unfoldable pub parse_instance :
      Option ℕ
      → Bytes
      → InstanceBody
      → List InstanceModel
      → List Instance
      → S
      → Option (InstanceParsing S)
  unfolding create_sql_cmds insert_into_table finish_instance
  parse_instance none alias_name b models instances s = none
  parse_instance (some columns) alias_name b models instances s =
      elim (create_sql_cmds alias_name columns b.data_) [
        | none ↦ none
        | some (qs, p) ↦ elim (insert_into_table qs columns b.data_ p s) [
          | none ↦ none
          | some r ↦ some (finish_instance qs alias_name b.algorithm columns models instances r)
        ]
      ]

  -- `prefix` is the result of `getPrefixString()`, `before` the byte in front of the data.
  unfoldable pub process_instance_packet :
      ℕ
      → Bytes
      → Option InstanceBody
      → List InstanceModel
      → List Instance
      → S
      → Option (InstanceParsing S)
  unfolding parse_instance count_columns add_instance drop_models
  process_instance_packet before prefix none models instances s = some (record {
    status = p_error;
    table_id = none;
    models = models;
    instances = instances;
    database = s;
  })
  process_instance_packet before prefix (some b) models instances s =
      let (alias_name, models', dropped) = add_instance prefix b.instance_id models in
      parse_instance (count_columns before b.data_) alias_name b models' instances
        (drop_models dropped s)
