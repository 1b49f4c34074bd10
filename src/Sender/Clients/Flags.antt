-- ===== src/Sender/Clients/Flags.antt =====
-- The flags of the modes while the socket thread takes a packet.
use worker_unit.Base.{
  ◌≡◌, refl, sym, subst, ◌∙◌, true, Option, none, some, Bool-cases, inl, inr, arith, if_true,
  if_false,
}
use worker_unit.Base.Text.{Bytes, is_empty}
use worker_unit.Socket.{Socket, set_flag}
use worker_unit.Sender.Package.{
  SenderDataType, recv_err, reset_timer, dat_err, dat_recvd, intr_send, fres_send, seize, dat_null,
  ForwardStackPackage, Outcome, done, blocked, undefined, ◌>>=◌,
}
use worker_unit.Sender.ForwardStack.{ForwardStack}
use worker_unit.Sender.Sink.{
  SenderSink, Packet, Sending, get_packet_head, make_body, create_packet, sent, send_next,
  pop_packet,
}

-- Making a packet may set the flag of normal mode, and leaves that of quick-send mode alone.
abbrev pub SocketKept : Socket → Socket → Type 0
SocketKept s s' = (s.ws_lock ≡ true → s'.ws_lock ≡ true) × (s'.in_qs_mode ≡ s.in_qs_mode)

head-SocketKept : (c : SenderDataType) (s : Socket) → SocketKept s (get_packet_head c s).1
unfolding get_packet_head set_flag
head-SocketKept seize s = (λ h. h, refl)
head-SocketKept recv_err s = (λ h. h, refl)
head-SocketKept reset_timer s = (λ h. h, refl)
head-SocketKept dat_err s = (λ h. h, refl)
head-SocketKept dat_recvd s = (λ h. h, refl)
head-SocketKept intr_send s = (λ h. h, refl)
head-SocketKept fres_send s = (λ h. h, refl)
head-SocketKept dat_null s = (λ h. h, refl)

body-SocketKept : (i : ForwardStackPackage) (s : Socket) → SocketKept s (make_body i s).1
unfolding make_body set_flag
body-SocketKept i s = ground arith

SocketKept-trans : (s t u : Socket) → SocketKept s t → SocketKept t u → SocketKept s u
SocketKept-trans s t u (h, e) (h', e') = (λ l. h' (h l), e' ∙ e)

module _ {S : Type 0} (stats : S) where
  packet-SocketKept :
      (w : Bytes) (i : ForwardStackPackage) (k : SenderSink) (s : Socket)
      → SocketKept s (create_packet stats w i k s).1
  unfolding create_packet
  packet-SocketKept w i k s =
      SocketKept-trans s (get_packet_head i.status_code s).1
        (make_body i (get_packet_head i.status_code s).1).1 (head-SocketKept i.status_code s)
        (body-SocketKept i (get_packet_head i.status_code s).1)

  abbrev pub TakenFrom : Sending stats → Outcome (Packet S × Sending stats) → Type 0
  TakenFrom s (done (p, s')) = SocketKept s.socket s'.socket
  TakenFrom s blocked = Unit
  TakenFrom s undefined = Unit

  sent-TakenFrom :
      (s : Sending stats) (r : Outcome (ForwardStackPackage × ForwardStack))
      → TakenFrom s (r >>= sent stats s)
  sent-TakenFrom s (done (i, f)) =
      packet-SocketKept s.worker_id i (record s.sink { fwd_stack = f }) s.socket
  sent-TakenFrom s blocked = tt
  sent-TakenFrom s undefined = tt

  -- The packet comes from the sink as it is, or after a worker id was set, or it is the handshake.
  pub pop_packet-TakenFrom :
      (assigned : Option Bytes) (s : Sending stats) → TakenFrom s (pop_packet stats assigned s)
  unfolding pop_packet send_next
  pop_packet-TakenFrom assigned s = elim (Bool-cases (is_empty s.worker_id)) [
    | inr e ↦ subst (TakenFrom s) (sym (if_false _ _ _ e)) (sent-TakenFrom s _)
    | inl e ↦ elim (Bool-cases s.sink.handshake_sent) [
      | inr h ↦ subst (TakenFrom s) (sym (if_true _ _ _ e ∙ if_false _ _ _ h)) (λ l. l, refl)
      | inl h ↦
          subst (TakenFrom s) (sym (if_true _ _ _ e ∙ if_true _ _ _ h)) (assigned_case assigned)
    ]
  ]
    where
      assigned_case :
          (a : Option Bytes)
          → TakenFrom s (elim a [
            | none ↦ blocked
            | some id ↦
                send_next stats
                  (record s { sink = record s.sink { init_sender = true }; worker_id = id })
          ])
      assigned_case none = tt
      assigned_case (some id) =
          sent-TakenFrom (record s { sink = record s.sink { init_sender = true }; worker_id = id })
            _
