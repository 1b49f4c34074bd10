-- ===== src/Sender/Sink.antt =====
-- sender_proc/sender.cpp, and the loop of `socket_task` in socket/socket.cpp that drains it. The
-- statistics that each packet carries come from the statistics engine and are an argument here.
pub mod Packets
pub mod Rounds
use Prim.Native.Nat.{bit_or}
use worker_unit.Base.{
  ℕ, Bool, true, false, not, ◌&&◌, Option, none, some, List, [], ◌∷◌, ltb, ◌==◌, if◌then◌else◌,
}
use worker_unit.Base.Text.{Bytes, is_empty}
use worker_unit.Socket.{
  Socket, SocketStatus, soc_seize, soc_normal_mode, soc_quicksend_mode, set_flag, get_socket_status,
  has_bit,
}
use worker_unit.Sender.Package.{
  SenderDataType, recv_err, reset_timer, dat_err, dat_recvd, intr_send, fres_send, seize, dat_null,
  ForwardStackPackage, Outcome, done, blocked, undefined, ◌>>=◌,
}
use worker_unit.Sender.AwaitStack
use worker_unit.Sender.ForwardStack
use worker_unit.Sender.ForwardStack.{ForwardStack, pop_forward_stack}

pub record SenderSink : Type 0 where
  pub fwd_stack : ForwardStack
  pub init_sender : Bool
  pub handshake_sent : Bool

-- `enum compute_packet_status`
abbrev pub p_reset : ℕ
p_reset = 1

abbrev pub p_handshake : ℕ
p_handshake = 2

abbrev pub p_data_ack : ℕ
p_data_ack = 4

abbrev pub p_intr_res : ℕ
p_intr_res = 8

abbrev pub p_final_res : ℕ
p_final_res = 16

abbrev pub p_err : ℕ
p_err = 32

abbrev pub p_qsend : ℕ
p_qsend = 64

abbrev pub p_seize : ℕ
p_seize = 128

-- The fields of `packet["body"]` that are set.
pub record Body : Type 0 where
  pub id : Bytes
  pub content : Option Bytes
  pub priority : Option ℕ

pub record Packet (S : Type 0) : Type 0 where
  pub head : ℕ
  pub id : Bytes
  pub body : Option Body
  pub stats : Option S

unfoldable pub push_packet : ForwardStackPackage → SenderSink → Outcome SenderSink
push_packet p s = do
  f ← elim p.status_code [
    | seize ↦ ForwardStack.push_front p s.fwd_stack
    | _ ↦ ForwardStack.push p s.fwd_stack
  ]
  done (record s { fwd_stack = f })

-- The head, and the socket: a seize packet sets its flag.
unfoldable pub get_packet_head : SenderDataType → Socket → ℕ × Socket
get_packet_head recv_err s = (p_err, s)
get_packet_head dat_err s = (p_err, s)
get_packet_head dat_recvd s = (p_data_ack, s)
get_packet_head intr_send s = (p_intr_res, s)
get_packet_head fres_send s = (p_final_res, s)
get_packet_head seize s = (p_seize, set_flag soc_seize s)
get_packet_head reset_timer s = (p_reset, s)
get_packet_head dat_null s = (p_reset, s)

-- The second `switch` of `create_packet`: the body, and the socket.
unfoldable pub make_body : ForwardStackPackage → Socket → Option Body × Socket
make_body item s = elim item.status_code [
  | recv_err ↦ (some (record { id = item.table_id; content = some item.body; priority = none }), s)
  | dat_err ↦ (some (record { id = item.table_id; content = some item.body; priority = none }), s)
  | reset_timer ↦
      (some (record { id = item.table_id; content = none; priority = some item.priority }), s)
  | dat_recvd ↦
      (some (record { id = item.table_id; content = none; priority = some item.priority }), s)
  | intr_send ↦ (
    some (record { id = item.table_id; content = some item.body; priority = some item.priority }),
    s,
  )
  | fres_send ↦ (
    some (record { id = item.table_id; content = some item.body; priority = some item.priority }),
    s,
  )
  | seize ↦ (none, set_flag soc_normal_mode s)
  | dat_null ↦ (none, set_flag soc_normal_mode s)
]

module _ {S : Type 0} (stats : S) where
  unfoldable pub create_packet :
      Bytes → ForwardStackPackage → SenderSink → Socket → Packet S × Socket
  create_packet worker_id item sink soc =
      let status = get_socket_status soc in
      let (base, soc') = get_packet_head item.status_code soc in
      let head : ℕ =
        if has_bit status soc_seize
        then bit_or base p_seize
        else if ForwardStack.is_empty sink.fwd_stack == 0
        then bit_or base p_qsend
        else base in
      let (body, soc'') = make_body item soc' in
      (record { head = head; id = worker_id; body = body; stats = some stats }, soc'')

  -- The sink, the socket and the worker id of the configuration.
  pub record Sending : Type 0 where
    pub sink : SenderSink
    pub socket : Socket
    pub worker_id : Bytes

  abbrev pub sent : Sending → ForwardStackPackage × ForwardStack → Outcome (Packet S × Sending)
  sent s (item, f) =
      let sink : SenderSink = record s.sink { fwd_stack = f } in
      let r = create_packet s.worker_id item sink s.socket in
      done (r.0, record s { sink = sink; socket = r.1 })

  -- `create_packet(fwdStack.popForwardStack())`
  unfoldable pub send_next : Sending → Outcome (Packet S × Sending)
  send_next s = pop_forward_stack s.sink.fwd_stack >>= sent s

  abbrev pub handshake : Packet S
  handshake = record {
    head = p_handshake;
    id = b'W' ∷ b'0' ∷ b'0' ∷ b'0' ∷ [];
    body = none;
    stats = none;
  }

  -- The argument is the worker id that the receiver sets while the sender waits for one; with none
  -- the wait does not end.
  unfoldable pub pop_packet : Option Bytes → Sending → Outcome (Packet S × Sending)
  pop_packet assigned s =
      if is_empty s.worker_id
      then (if s.sink.handshake_sent
          then elim assigned [
            | none ↦ blocked
            | some id ↦
                send_next (record s { sink = record s.sink { init_sender = true }; worker_id = id })
          ]
          else done (handshake, record s { sink = record s.sink { handshake_sent = true } }))
      else send_next s

  -- What a round of `socket_task` does with the packet that it took from the sink.
  pub data Launch : Type 0 where
    normal quick dropped : Packet S → Launch

  -- The flags are those of the two modes' bits, and whether the sender is initialised.
  abbrev pub launch_in : Bool → Bool → Bool → Packet S → Sending → Launch × Sending
  launch_in in_normal in_quick initialised packet s =
      if not in_normal
      then (normal packet, record s { socket = set_flag soc_normal_mode s.socket })
      else if not in_quick && initialised
      then (quick packet, record s { socket = set_flag soc_quicksend_mode s.socket })
      else (dropped packet, s)

  abbrev pub launch : ℕ → Packet S → Sending → Launch × Sending
  launch status packet s =
      launch_in (has_bit status soc_normal_mode) (has_bit status soc_quicksend_mode)
        s.sink.init_sender packet s

  -- The status word is read before the packet is taken.
  unfoldable pub socket_round : Option Bytes → Sending → Outcome (Launch × Sending)
  socket_round assigned s = do
    let status = get_socket_status s.socket
    r ← pop_packet assigned s
    done (launch status r.0 r.1)
