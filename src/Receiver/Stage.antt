-- ===== src/Receiver/Stage.antt =====
-- receiver_proc/receiver.cpp: what kind of packet came, and what is done with it.
use worker_unit.Base.{
  ℕ, zero, suc, ◌+◌, ◌/◌, ◌%◌, Bool, true, false, Option, none, some, List, ◌==◌, if◌then◌else◌,
}
use worker_unit.Base.Text.{Bytes, equal}
use worker_unit.Scheduler.Job.{JobStatus, job_failed, job_done}
use worker_unit.Sender.Package.{Outcome, done, blocked, undefined, ◌>>=◌}
use worker_unit.Sender.AwaitStack.{
  AwaitStack, Code, success, failure, match_item, sp_intr_ack, sp_fres_ack,
}
use worker_unit.Instances.{Instance, InstanceModel}
use worker_unit.Algorithm.Split.{TableData}
use worker_unit.Receiver.UserData.{
  ReceiverStatus, p_empty, p_ok, p_error, Body, Parsing, process_data_packet,
}
use worker_unit.Receiver.InstanceData.{InstanceBody, InstanceParsing, process_instance_packet}
pub mod Failing

-- The body as the two schemas tell it apart.
pub data PacketBody : Type 0 where
  user_data : Body → PacketBody
  instance_data : InstanceBody → PacketBody
  corrupted : PacketBody

-- A packet that passes the schema of the head, whose number is given by its bits, and what reading it meets with: the byte in front of
-- the data of an instance, and the letters of `getPrefixString()`.
pub record ServerPacket : Type 0 where
  pub head : ℕ
  pub id : Bytes
  pub body : PacketBody
  pub before : ℕ
  pub prefix : Bytes

-- The fields of a Receiver besides the packet.
pub record Receiver : Type 0 where
  pub table_id : Option Bytes
  pub is_user_data : Bool
  pub table_data : Option TableData

unfoldable pub new_receiver : Receiver
new_receiver = record { table_id = none; is_user_data = false; table_data = none }

-- The global objects that a packet changes, with the files by the id of their table.
pub record Globals {ℓ} (S : Type ℓ) : Type ℓ where
  pub worker_id : Bytes
  pub await_stack : AwaitStack
  pub models : List InstanceModel
  pub instances : List Instance
  pub files : Bytes → Option Bytes
  pub database : S

-- SP_HANDSHAKE, SP_DATA_SENT, SP_INTR_ACK and SP_FRES_ACK are the bits 0 to 3 of the head.
abbrev pub has_bit : ℕ → ℕ → Bool
has_bit value head = (head / value) % 2 == 1

-- `matchItem` returns 0 for a match, which the test takes for false.
abbrev pub ack_status : Code → ReceiverStatus
ack_status success = p_empty
ack_status failure = p_ok

module _ {ℓ} {S : Type ℓ} (write_value : Bytes → S → Bool × S) (reads : Bytes → S → Bool) where
  abbrev pub Identified : Type ℓ
  Identified = ReceiverStatus × Receiver × Globals S

  abbrev pub acknowledged : Receiver → Globals S → Code × AwaitStack → Identified
  acknowledged r g (code, stack) = (ack_status code, r, record g { await_stack = stack })

  unfoldable pub acknowledge : ServerPacket → Receiver → Globals S → Outcome Identified
  unfolding match_item
  acknowledge p r g =
      if has_bit 4 p.head
      then match_item sp_intr_ack p.id g.await_stack >>= (λ x. done (acknowledged r g x))
      else if has_bit 8 p.head
      then match_item sp_fres_ack p.id g.await_stack >>= (λ x. done (acknowledged r g x))
      else done (p_error, r, g)

  -- An exception that nothing catches, or an access out of bounds, is `undefined`.
  abbrev pub user_parsed : Bytes → Globals S → Option Parsing → Outcome Identified
  user_parsed id g none = undefined
  user_parsed id g (some x) = done (
    x.status,
    record { table_id = x.table_id; is_user_data = true; table_data = x.table_data },
    record g { models = x.models; files = λ name. if equal name id then x.disk else g.files name },
  )

  abbrev pub instance_parsed :
      Receiver → Globals S → Option (InstanceParsing S) → Outcome Identified
  instance_parsed r g none = undefined
  instance_parsed r g (some x) = done (
    x.status,
    record r { table_id = x.table_id },
    record g { models = x.models; instances = x.instances; database = x.database },
  )

  -- A body that neither schema passes is treated as no body: the bits of acknowledgements are looked at.
  unfoldable pub process_body :
      PacketBody → ServerPacket → Receiver → Globals S → Outcome Identified
  unfolding acknowledge process_data_packet process_instance_packet
  process_body (user_data b) p r g =
      user_parsed b.table_id g (process_data_packet (some b) g.models (g.files b.table_id))
  process_body (instance_data b) p r g = instance_parsed r g (
      process_instance_packet write_value reads p.before p.prefix (some b) g.models g.instances
        g.database)
  process_body corrupted p r g = acknowledge p r g

  -- The argument is `none` if the head does not pass.
  unfoldable pub identify_packet_type :
      Option ServerPacket → Receiver → Globals S → Outcome Identified
  unfolding acknowledge process_body
  identify_packet_type none r g = done (p_error, r, g)
  identify_packet_type (some p) r g =
      if has_bit 1 p.head
      then done (p_empty, r, record g { worker_id = p.id })
      else if has_bit 2 p.head
      then process_body p.body p r g
      else acknowledge p r g

  abbrev pub job_status_of : ReceiverStatus → JobStatus
  job_status_of p_error = job_failed
  job_status_of _ = job_done

  abbrev pub job_result : Identified → JobStatus × Receiver × Globals S
  job_result (status, r, g) = (job_status_of status, r, g)

  -- The result of the start function of the receiver stage.
  unfoldable pub receiver_proccess :
      Option ServerPacket → Receiver → Globals S → Outcome (JobStatus × Receiver × Globals S)
  unfolding identify_packet_type
  receiver_proccess p r g = identify_packet_type p r g >>= (λ x. done (job_result x))
