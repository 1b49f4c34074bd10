-- ===== src/Examples/Packets.antt =====
-- Packets from the server at concrete inputs.
use worker_unit.Base.{◌≡◌, refl, Bool, true, false, some, List, [], ◌∷◌, ◌++◌}
use worker_unit.Base.Text.{Bytes}
use worker_unit.Instances.{add_instance}
use worker_unit.Receiver.InstanceData.{InstanceBody, process_instance_packet}
use worker_unit.Base.{none, if◌then◌else◌}
use worker_unit.Base.Text.{equal}
use worker_unit.Scheduler.Job.{high_priority, job_failed}
use worker_unit.Sender.Package.{done}
use worker_unit.Receiver.Stage.{Globals, ServerPacket, user_data, new_receiver, receiver_proccess}
use worker_unit.Receiver.InstanceData.Stored.{stored, process_instance_packet-stored}

-- The text "a,b", a newline, "1,2" and a newline.
abbrev packet_body : InstanceBody
packet_body = record {
  instance_id = 105 ∷ [];
  data_ = 97 ∷ 44 ∷ 98 ∷ 10 ∷ 49 ∷ 44 ∷ 50 ∷ 10 ∷ [];
  algorithm = 1;
}

-- A database that takes every command and remembers it.
abbrev recorded : Bytes → List Bytes → Bool × List Bytes
recorded q log = (true, log ++ (q ∷ []))

process_instance_packet-stored_example :
    process_instance_packet recorded (λ q log. false) 0 (112 ∷ []) (some packet_body) [] [] []
    ≡ some (
        stored recorded
          (λ q log. false)
          (97 ∷ [])
          ((98 ∷ []) ∷ [])
          ((49 ∷ [], (50 ∷ []) ∷ []) ∷ [])
          1
          (105 ∷ 95 ∷ 112 ∷ [])
          (record {
            actual_name = 105 ∷ [];
            alias_name = 105 ∷ 95 ∷ 112 ∷ [];
            scheduled_to_delete = false;
            reference_count = 0;
          }
            ∷ [])
          []
          [])
unfolding add_instance worker_unit.Receiver.InstanceData.drop_models
process_instance_packet-stored_example =
    process_instance_packet-stored recorded (λ q log. false) 0 (112 ∷ []) (97 ∷ []) ((98 ∷ []) ∷ [])
      ((49 ∷ [], (50 ∷ []) ∷ []) ∷ []) packet_body [] [] [] refl refl ((refl, refl), tt)
      (((refl, refl), tt), tt) ((((refl, refl), tt), (((refl, refl), tt), tt), refl), tt) refl

abbrev before_packet : Globals (List Bytes)
before_packet = record {
  worker_id = 119 ∷ [];
  await_stack = record {
    stack_lock = false;
    await_stack = none ∷ none ∷ none ∷ none ∷ none ∷ none ∷ [];
    index = 0;
    acked_packets = 0;
  };
  models = [];
  instances = [];
  files = λ name. none;
  database = [];
}

-- A data packet for an instance that is not known.
abbrev stray : ServerPacket
stray = record {
  head = 2;
  id = 120 ∷ [];
  body = user_data (record {
    table_id = 116 ∷ [];
    data_ = 97 ∷ [];
    instance_type = 105 ∷ [];
    priority = high_priority;
  });
  before = 0;
  prefix = 112 ∷ [];
}

abbrev left : Globals (List Bytes)
left = record before_packet { files = λ name. if equal name (116 ∷ []) then none else none }

stray_fails :
    receiver_proccess recorded (λ q log. false) (some stray) new_receiver before_packet
    ≡ done (
      job_failed,
      record { table_id = some (116 ∷ []); is_user_data = true; table_data = none },
      left,
    )
unfolding receiver_proccess
stray_fails = refl
