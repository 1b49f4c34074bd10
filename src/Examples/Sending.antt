-- ===== src/Examples/Sending.antt =====
-- The socket and the sender at concrete inputs.
use worker_unit.Base.{ℕ, ◌≡◌, refl, true, false, none, some, [], ◌∷◌, arith}
use worker_unit.Base.Text.{Bytes, is_empty}
use worker_unit.Socket.{Socket}
use worker_unit.Sender.Package.{ForwardStackPackage, fres_send, dat_recvd}
use worker_unit.Sender.AwaitStack.{AwaitStack, match_item}
use worker_unit.Sender.AwaitStack.Acks
use worker_unit.Sender.AwaitStack.Acks.{Pushed, push-Pushed, Matched, match_item-Matched}
use worker_unit.Sender.ForwardStack.{ForwardStack, pop_forward_stack}
use worker_unit.Sender.ForwardStack.Fifo
use worker_unit.Sender.ForwardStack.Fifo.{Popped, pop_forward_stack-Popped}
use worker_unit.Sender.Sink.{SenderSink, Sending, socket_round}
use worker_unit.Sender.Sink.Rounds.{Rounded, socket_round-Rounded}

abbrev socket : Socket
socket = record {
  quick_send_mode = false;
  seize_mode = true;
  in_qs_mode = false;
  ws_lock = true;
  socket_should_stop = false;
}

abbrev result : ForwardStackPackage
result = record { status_code = fres_send; priority = 1; table_id = 84 ∷ 49 ∷ []; body = 97 ∷ [] }

abbrev notice : ForwardStackPackage
notice = record { status_code = dat_recvd; priority = 3; table_id = 84 ∷ 50 ∷ []; body = [] }

-- One packet waits for its acknowledgement.
abbrev await_one : AwaitStack
await_one = record {
  stack_lock = false;
  await_stack =
      some (record { fwd_element = result; item_acked = false })
      ∷ none
      ∷ none
      ∷ none
      ∷ none
      ∷ none
      ∷ [];
  index = 1;
  acked_packets = 0;
}

await_one-IsValid : Acks.IsValid await_one
await_one-IsValid = record {
  unlocked = refl;
  six = refl;
  bounded = omega arith;
  not_all_acked = omega arith;
}

match_item-Matched_example :
    Matched 8 (84 ∷ 49 ∷ []) await_one (match_item 8 (84 ∷ 49 ∷ []) await_one)
match_item-Matched_example = match_item-Matched 8 (84 ∷ 49 ∷ []) await_one await_one-IsValid

abbrev stack : ForwardStack
stack = record { stack_lock = false; sender_stack = result ∷ notice ∷ []; await_stack = await_one }

stack-IsValid : Fifo.IsValid stack
stack-IsValid = record { unlocked = refl; await_valid = await_one-IsValid }

pop_forward_stack-Popped_example : Popped stack (pop_forward_stack stack)
pop_forward_stack-Popped_example = pop_forward_stack-Popped stack stack-IsValid

abbrev sink : SenderSink
sink = record { fwd_stack = stack; init_sender = true; handshake_sent = true }

abbrev statistics : ℕ
statistics = 0

abbrev worker : Bytes
worker = 87 ∷ 49 ∷ []

abbrev sending : Sending statistics
sending = record { sink = sink; socket = socket; worker_id = worker }

worker_known : is_empty worker ≡ false
unfolding is_empty
worker_known = refl

socket_round-Rounded_example : Rounded statistics sending (socket_round statistics none sending)
socket_round-Rounded_example =
    socket_round-Rounded statistics none sending stack-IsValid worker_known
