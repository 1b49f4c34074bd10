-- ===== src/Examples/Arrivals.antt =====
-- A packet with a table and the first stage of its processing, at concrete inputs.
use worker_unit.Base.{ℕ, ◌≡◌, refl, true, false, Bool, Option, none, some, List, [], ◌∷◌}
use worker_unit.Base.Text.{Bytes, equal, is_empty}
use worker_unit.Scheduler.Job.{high_priority}
use worker_unit.FileDatabase.{split_string_by_newline, adv_tokenizer, comma}
use worker_unit.Instances.{Instance, InstanceModel, incriment_refrence, get_instance_alias_name}
use worker_unit.Algorithm.Split.{TableData}
use worker_unit.DataProcessor.Processor.{new_data_processor, process_data_start}
use worker_unit.DataProcessor.Processor.Looked.{Looked, process_data_start-Looked}
use worker_unit.Receiver.UserData.{Body}
use worker_unit.Receiver.UserData.Parsed.{announced}
use worker_unit.Receiver.Stage.{ServerPacket, Globals, user_data, new_receiver, receiver_proccess}
use worker_unit.Receiver.Finish.Answers.{
  Arrives, known_as, receiver_proccess-Arrives, Refused, receiver_proccess-Refused,
}

-- "b,a" and "1,2"
abbrev header : Bytes
header = 98 ∷ 44 ∷ 97 ∷ []

abbrev row : Bytes
row = 49 ∷ 44 ∷ 50 ∷ []

abbrev body : Body
body = record {
  table_id = 116 ∷ [];
  data_ = 98 ∷ 44 ∷ 97 ∷ 10 ∷ 49 ∷ 44 ∷ 50 ∷ [];
  instance_type = 105 ∷ [];
  priority = high_priority;
}

abbrev packet : ServerPacket
packet = record { head = 2; id = 120 ∷ []; body = user_data body; before = 0; prefix = [] }

-- The instance "i" under its alias "i_p", with the columns "a" and "b".
abbrev model : InstanceModel
model = record {
  actual_name = 105 ∷ [];
  alias_name = 105 ∷ 95 ∷ 112 ∷ [];
  scheduled_to_delete = false;
  reference_count = 0;
}

abbrev instance_ : Instance
instance_ = record {
  instance_id = 105 ∷ 95 ∷ 112 ∷ [];
  linked_algorithm = 1;
  total_columns = 2;
  total_rows = 1;
}

abbrev globals : List InstanceModel → Globals ℕ
globals models = record {
  worker_id = 119 ∷ [];
  await_stack = record {
    stack_lock = false;
    await_stack = none ∷ none ∷ none ∷ none ∷ none ∷ none ∷ [];
    index = 0;
    acked_packets = 0;
  };
  models = models;
  instances = instance_ ∷ [];
  files = λ name. none;
  database = 0;
}

abbrev writes : Bytes → ℕ → Bool × ℕ
writes query s = (true, s)

abbrev finds : Bytes → ℕ → Bool
finds query s = false

abbrev names : Bytes → ℕ → Option (List Bytes)
names id columns = some ((97 ∷ []) ∷ (98 ∷ []) ∷ [])

abbrev values : Bytes → Bytes → ℕ → Option (List Bytes)
values id column rows = some (column ∷ [])

abbrev table : TableData
table = record {
  rows = 1;
  columns = 2;
  table_id = 116 ∷ [];
  priority = high_priority;
  instance_type = 105 ∷ 95 ∷ 112 ∷ [];
}

process_data_start-Looked_example :
    Looked names values (instance_ ∷ []) table (some body.data_) ((98 ∷ []) ∷ (97 ∷ []) ∷ []) (
      process_data_start names values (instance_ ∷ []) (some body.data_) (new_data_processor table))
unfolding adv_tokenizer worker_unit.FileDatabase.read_lines split_string_by_newline
    worker_unit.FileDatabase.add_head
process_data_start-Looked_example =
    process_data_start-Looked names values (instance_ ∷ []) table (some body.data_) header
      (row ∷ []) refl refl

known : is_empty (known_as writes finds body (globals (model ∷ []))) ≡ false
unfolding is_empty get_instance_alias_name incriment_refrence equal
known = refl

-- An instance whose alias happens to be the id of the table.
abbrev stray : InstanceModel
stray = record model { actual_name = 120 ∷ []; alias_name = 116 ∷ [] }

unknown : is_empty (known_as writes finds body (globals (stray ∷ []))) ≡ true
unfolding is_empty get_instance_alias_name incriment_refrence equal
unknown = refl

receiver_proccess-Arrives_example :
    Arrives writes finds names values header body
      (announced header 1 (known_as writes finds body (globals (model ∷ []))) body)
      (receiver_proccess writes finds (some packet) new_receiver (globals (model ∷ [])))
unfolding split_string_by_newline worker_unit.FileDatabase.add_head
receiver_proccess-Arrives_example =
    receiver_proccess-Arrives writes finds names values packet body (globals (model ∷ [])) header
      (row ∷ []) (refl, refl, refl) refl known

receiver_proccess-Refused_example :
    Refused writes finds body
      (globals (stray ∷ []))
      (receiver_proccess writes finds (some packet) new_receiver (globals (stray ∷ [])))
receiver_proccess-Refused_example =
    receiver_proccess-Refused writes finds packet body (globals (stray ∷ [])) (refl, refl, refl)
      unknown
