-- ===== src/Receiver/UserData.antt =====
-- receiver_proc/user_data_parser.cpp: a table from a packet goes to its file.
use worker_unit.Base.{ℕ, ◌-◌, Bool, true, false, Option, none, some, List, if◌then◌else◌}
use worker_unit.Base.Text.{Bytes, is_empty}
use worker_unit.Base.Int.{ℤ, pos, negsuc}
use worker_unit.Scheduler.Job.{TaskPriority}
use worker_unit.FileDatabase.{
  FileDataBaseAccess, rw_file, open_file, write_blob, get_total_columns, get_total_rows, close_file,
}
use worker_unit.Instances.{InstanceModel, incriment_refrence, get_instance_alias_name}
use worker_unit.Algorithm.Split.{TableData}
pub mod Parsed

-- The fields of `packet["body"]`. The schema of a data packet lets only the numbers of the four
-- priorities pass.
pub record Body : Type 0 where
  pub table_id : Bytes
  pub data_ : Bytes
  pub instance_type : Bytes
  pub priority : TaskPriority

-- `enum ReceiverStatus`
pub data ReceiverStatus : Type 0 where
  p_empty p_ok snd_reset p_error p_dat_err p_success p_valid : ReceiverStatus

-- The status, the table's id if it was set, the instance models, the table's file, and the new table.
pub record Parsing : Type 0 where
  pub status : ReceiverStatus
  pub table_id : Option Bytes
  pub models : List InstanceModel
  pub disk : Option Bytes
  pub table_data : Option TableData

unfoldable pub construct_data_objects : ℕ → ℕ → Bytes → Body → TableData
construct_data_objects rows columns alias_name b = record {
  rows = rows - 1;
  columns = columns;
  table_id = b.table_id;
  priority = b.priority;
  instance_type = alias_name;
}

-- The object once the blob is written, with its two counts; it is then closed. `none` is the access
-- to the first row of an empty table.
unfoldable pub store_table :
    Option ℤ
    → ℤ
    → FileDataBaseAccess
    → Bytes
    → Body
    → List InstanceModel
    → Option Bytes
    → Option Parsing
unfolding construct_data_objects close_file
store_table (some (pos columns)) (pos rows) d alias_name b models disk = some (record {
  status = p_success;
  table_id = some b.table_id;
  models = models;
  disk = close_file d disk;
  table_data = some (construct_data_objects rows columns alias_name b);
})
store_table _ _ d alias_name b models disk = none

unfoldable pub store_blob :
    FileDataBaseAccess → Bytes → Body → List InstanceModel → Option Bytes → Option Parsing
unfolding store_table get_total_columns get_total_rows
store_blob d alias_name b models disk =
    store_table (get_total_columns d) (get_total_rows d) d alias_name b models disk

-- An alias that is not found ends the parsing; the object is never closed then.
unfoldable pub parse_body : Bytes → Body → List InstanceModel → Option Bytes → Option Parsing
unfolding store_blob write_blob open_file is_empty
parse_body alias_name b models disk =
    if is_empty alias_name
    then some (record {
      status = p_error;
      table_id = some b.table_id;
      models = models;
      disk = disk;
      table_data = none;
    })
    else store_blob (write_blob b.data_ (open_file rw_file disk)).1 alias_name b models disk

-- The argument is `none` if a field of the body is missing.
unfoldable pub process_data_packet :
    Option Body → List InstanceModel → Option Bytes → Option Parsing
unfolding parse_body incriment_refrence get_instance_alias_name
process_data_packet none models disk =
    some (record {
      status = p_error;
      table_id = none;
      models = models;
      disk = disk;
      table_data = none;
    })
process_data_packet (some b) models disk =
    let models' = incriment_refrence b.instance_type models in
    parse_body (get_instance_alias_name b.instance_type models') b models' disk
