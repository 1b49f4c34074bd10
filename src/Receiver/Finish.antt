-- ===== src/Receiver/Finish.antt =====
-- receiver_proc/receiver.cpp: what the receiver sends when its job has ended or failed, and the table
-- that it hands to the data processor.
use worker_unit.Base.{Bool, true, false, not, if◌then◌else◌, Option, none, some, List, [], ◌∷◌}
use worker_unit.Base.Text.{Bytes, is_empty}
use worker_unit.Scheduler.Job.{TaskPriority, priority_number, low_priority, high_priority}
use worker_unit.Sender.Package.{ForwardStackPackage, SenderDataType, dat_recvd, recv_err}
use worker_unit.Instances.{InstanceModel, get_instance_actual_name}
use worker_unit.Algorithm.Split.{TableData}
use worker_unit.Receiver.Stage.{Receiver}
pub mod Answers

-- `recv->tableId`, which is empty until a parser sets it.
abbrev pub id_of : Option Bytes → Bytes
id_of none = []
id_of (some id) = id

abbrev pub packet : SenderDataType → Bytes → TaskPriority → ForwardStackPackage
packet code id priority = record {
  status_code = code;
  priority = priority_number priority;
  table_id = id;
  body = [];
}

-- The packets in order, and the table for which `init_data_processor` is called. `none` is a read
-- through the table's pointer that was never set.
unfoldable pub receiver_finalize :
    List InstanceModel → Receiver → Option (List ForwardStackPackage × Option TableData)
unfolding get_instance_actual_name is_empty
receiver_finalize models r =
    if r.is_user_data
    then elim r.table_data [
      | none ↦ none
      | some t ↦ some (packet dat_recvd (id_of r.table_id) t.priority ∷ [], some t)
    ]
    else some (
      if not (is_empty (id_of r.table_id))
          then packet dat_recvd (get_instance_actual_name (id_of r.table_id) models) low_priority
            ∷ []
          else [],
      none,
    )

unfoldable pub receiver_fail : List InstanceModel → Receiver → ForwardStackPackage
unfolding get_instance_actual_name is_empty
receiver_fail models r =
    if is_empty (id_of r.table_id)
    then packet recv_err [] high_priority
    else packet recv_err (get_instance_actual_name (id_of r.table_id) models) high_priority
