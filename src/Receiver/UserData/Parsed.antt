-- ===== src/Receiver/UserData/Parsed.antt =====
-- What a well-formed data packet leads to.
use worker_unit.Base.{
  ℕ, suc, ◌-◌, ◌≡◌, refl, ap, ◌∙◌, false, Option, some, List, ◌∷◌, arith, if_false, length,
}
use worker_unit.Base.Text.{Bytes, is_empty}
use worker_unit.Base.Int.{pos}
use worker_unit.FileDatabase.{
  FileDataBaseAccess, rw_file, comma, adv_tokenizer, split_string_by_newline, open_file, write_blob,
  get_total_columns, get_total_rows, close_file, commit_changes,
}
use worker_unit.FileDatabase.Text.{terminate, write_rows-split, length-tokenizer}
use worker_unit.Instances.{InstanceModel, incriment_refrence, get_instance_alias_name}
use worker_unit.Algorithm.Split.{TableData}
use worker_unit.Receiver.UserData.{
  Body, Parsing, p_success, construct_data_objects, store_table, store_blob, parse_body,
  process_data_packet,
}

-- The table that a packet announces, with as many columns as the header has fields.
abbrev pub announced : Bytes → ℕ → Bytes → Body → TableData
announced header rows alias_name b = record {
  rows = rows;
  columns = length (adv_tokenizer comma header);
  table_id = b.table_id;
  priority = b.priority;
  instance_type = alias_name;
}

-- What a packet leads to that is accepted.
abbrev pub accepted : Bytes → ℕ → Bytes → Body → List InstanceModel → Option Bytes → Option Parsing
accepted header rows alias_name b models disk = some (record {
  status = p_success;
  table_id = some b.table_id;
  models = models;
  disk = disk;
  table_data = some (announced header rows alias_name b);
})

-- The object that holds the data, ready to be closed.
abbrev filled : Bytes → Option Bytes → FileDataBaseAccess
unfolding write_blob open_file
filled s disk = (write_blob s (open_file rw_file disk)).1

filled-counts :
    (s : Bytes) (disk : Option Bytes) (header : Bytes) (rest : List Bytes)
    → split_string_by_newline s ≡ header ∷ rest
    → (get_total_columns (filled s disk) ≡ some (pos (length (adv_tokenizer comma header))))
      × (get_total_rows (filled s disk) ≡ pos (suc (length rest)))
unfolding write_blob open_file get_total_columns get_total_rows
filled-counts s disk header rest e =
    (rw (e) (ap (λ n. some (pos n)) (omega (arith, length-tokenizer header))), rw (e) refl)

close_filled :
    (s : Bytes) (disk : Option Bytes) → close_file (filled s disk) disk ≡ some (terminate s)
unfolding write_blob open_file close_file commit_changes
close_filled s disk = ap some (write_rows-split s)

suc_minus_one : (n : ℕ) → suc n - 1 ≡ n
suc_minus_one n = omega arith

store_blob-accepted :
    (d : FileDataBaseAccess) (b : Body) (alias_name : Bytes) (models : List InstanceModel)
    (disk file : Option Bytes) (header : Bytes) (rest : List Bytes)
    → get_total_columns d ≡ some (pos (length (adv_tokenizer comma header)))
    → get_total_rows d ≡ pos (suc (length rest))
    → close_file d disk ≡ file
    → store_blob d alias_name b models disk ≡ accepted header (length rest) alias_name b models file
unfolding store_blob store_table construct_data_objects
store_blob-accepted d b alias_name models disk file header rest columns total closing =
    ap (λ c. store_table c (get_total_rows d) d alias_name b models disk) columns
    ∙ ap
        (λ r.
          store_table (some (pos (length (adv_tokenizer comma header)))) r d alias_name b models
            disk)
        total
    ∙ ap (λ n. accepted header n alias_name b models (close_file d disk))
        (suc_minus_one (length rest))
    ∙ ap (accepted header (length rest) alias_name b models) closing

-- A packet whose instance is known and whose data has a header row is stored and announced: its file
-- holds the data with a newline after the last row, and the table has as many columns as the header
-- has fields, and one row for each line after it.
pub process_data_packet-accepted :
    (b : Body) (models : List InstanceModel) (disk : Option Bytes) (header : Bytes)
    (rest : List Bytes)
    → split_string_by_newline b.data_ ≡ header ∷ rest
    → let models' = incriment_refrence b.instance_type models in
      let alias_name = get_instance_alias_name b.instance_type models' in
      (is_empty alias_name ≡ false)
      → process_data_packet (some b) models disk
        ≡ accepted header (length rest) alias_name b models' (some (terminate b.data_))
unfolding process_data_packet parse_body
process_data_packet-accepted b models disk header rest e a =
    let (columns, total) = filled-counts b.data_ disk header rest e in
    if_false _ _ _ a
    ∙ store_blob-accepted (filled b.data_ disk) b _ _ disk _ header rest columns total
        (close_filled b.data_ disk)
