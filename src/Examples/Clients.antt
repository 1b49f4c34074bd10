-- ===== src/Examples/Clients.antt =====
-- The socket thread and its clients at concrete inputs.
use worker_unit.Base.{ℕ, ◌≤◌, ◌≡◌, refl, true, false, none, some, [], ◌∷◌, length, All, arith}
use worker_unit.Base.Text.{is_empty}
use worker_unit.Socket.{Socket, get_socket_status, set_flag}
use worker_unit.Sender.Package.{done}
use worker_unit.Sender.ForwardStack.{ForwardStack}
use worker_unit.Sender.ForwardStack.Fifo
use worker_unit.Sender.Sink.{Sending, pop_packet, handshake}
use worker_unit.Sender.Clients.{
  System, looping, chosen, read_status, start_client, Reach, here, later, read, take, start,
}
use worker_unit.Sender.Clients.Exclusion.{Reach-exclusive}
use worker_unit.Sender.Clients.Lost.{Lost, Reach-Lost, loses_flag}

abbrev statistics : ℕ
statistics = 0

abbrev empty_stack : ForwardStack
empty_stack = record {
  stack_lock = false;
  sender_stack = [];
  await_stack = record {
    stack_lock = false;
    await_stack = none ∷ none ∷ none ∷ none ∷ none ∷ none ∷ [];
    index = 0;
    acked_packets = 0;
  };
}

empty_stack-IsValid : Fifo.IsValid empty_stack
empty_stack-IsValid = record {
  unlocked = refl;
  await_valid = record {
    unlocked = refl;
    six = refl;
    bounded = omega arith;
    not_all_acked = omega arith;
  };
}

abbrev quiet : Socket
quiet = record {
  quick_send_mode = false;
  seize_mode = false;
  in_qs_mode = false;
  ws_lock = false;
  socket_should_stop = false;
}

-- The worker at its start, with 0 for the statistics.
abbrev begins : Sending statistics
begins = record {
  sink = record { fwd_stack = empty_stack; init_sender = false; handshake_sent = false };
  socket = quiet;
  worker_id = [];
}

abbrev asked : Sending statistics
asked = record begins { sink = record begins.sink { handshake_sent = true } }

abbrev system : System statistics ℕ
system = record {
  sending = begins;
  phase = looping;
  normal_clients = [];
  quick_clients = [];
  normal_container = none;
  quick_container = none;
  received = [];
}

handshake_first : pop_packet statistics none begins ≡ done (handshake statistics, asked)
unfolding pop_packet is_empty
handshake_first = refl

-- The handshake is on its way in normal mode.
abbrev shaking : System statistics ℕ
shaking = record system {
  sending = record asked { socket = record quiet { ws_lock = true } };
  normal_clients = handshake statistics ∷ [];
  normal_container = some (handshake statistics);
}

shakes : Reach statistics ℕ system shaking
unfolding read_status get_socket_status start_client set_flag
shakes =
    later
      (later (later here (read system refl))
        (take _ 1 none (handshake statistics) asked refl handshake_first))
      (start _ 1 (handshake statistics) refl)

Reach-exclusive_example :
    (length shaking.normal_clients ≤ 1)
    × (length shaking.quick_clients ≤ 1)
    × All (λ p. shaking.normal_container ≡ some p) shaking.normal_clients
    × All (λ p. shaking.quick_container ≡ some p) shaking.quick_clients
Reach-exclusive_example = Reach-exclusive statistics ℕ (refl, refl, refl) shakes

-- A flag without a thread.
abbrev stuck : System statistics ℕ
stuck = record system { sending = record asked { socket = record quiet { ws_lock = true } } }

looks : Reach statistics ℕ stuck (record stuck { phase = chosen 9 })
unfolding read_status get_socket_status
looks = later here (read stuck refl)

Reach-Lost_example : Lost statistics ℕ (record stuck { phase = chosen 9 })
Reach-Lost_example = Reach-Lost statistics ℕ (refl, refl, tt) looks

-- A worker with its id, an empty sink, and a client in normal mode.
abbrev sending_one : System statistics ℕ
sending_one = record shaking {
  sending = record shaking.sending { worker_id = 87 ∷ [] };
  phase = chosen 9;
}

worker_known : is_empty sending_one.sending.worker_id ≡ false
unfolding is_empty
worker_known = refl

loses_flag_example :
    (y : System statistics ℕ) × Reach statistics ℕ sending_one y × Lost statistics ℕ y
loses_flag_example =
    loses_flag statistics ℕ sending_one 9 (handshake statistics) 5 refl refl refl
      empty_stack-IsValid refl worker_known
