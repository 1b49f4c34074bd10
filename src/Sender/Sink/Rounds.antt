-- ===== src/Sender/Sink/Rounds.antt =====
-- What a round of the socket thread does with the next packet.
use worker_unit.Base.{◌≡◌, refl, sym, ap, ◌∙◌, Bool, true, false, Option, [], ◌∷◌, inl, inr, ◌⊎◌}
use worker_unit.Base.Text.{Bytes, is_empty}
use worker_unit.Socket.{
  soc_normal_mode, soc_quicksend_mode, get_socket_status, has_bit, get_socket_status-has_bit,
}
use worker_unit.Sender.Package.{
  ForwardStackPackage, empty_package, Outcome, done, blocked, undefined, ◌>>=◌,
}
use worker_unit.Sender.ForwardStack.{ForwardStack}
use worker_unit.Sender.ForwardStack.Fifo.{IsValid, Tracked, Popped, pop_forward_stack-Popped}
use worker_unit.Sender.Sink.{
  SenderSink, Packet, create_packet, Sending, send_next, pop_packet, Launch, normal, quick, dropped,
  launch, launch_in, sent, socket_round,
}

taken :
    (g : ForwardStack) (item : ForwardStackPackage) (f : ForwardStack)
    → ((g.sender_stack ≡ []) × (item ≡ empty_package) × (f ≡ g))
      ⊎ ((g.sender_stack ≡ item ∷ f.sender_stack) × Tracked item g.await_stack f.await_stack)
    → ((g.sender_stack ≡ []) × (item ≡ empty_package) × (f.sender_stack ≡ []))
      ⊎ (g.sender_stack ≡ item ∷ f.sender_stack)
taken g item f (inl (e, p, q)) = inl (e, p, ap (λ h. h.sender_stack) q ∙ e)
taken g item f (inr (e, t)) = inr e

module _ {S : Type 0} (stats : S) where
  -- The packet that a round took, and where it went, by the flags on entry.
  abbrev pub Went : Sending stats → Launch stats → Packet S → Type 0
  Went s (normal p) q = (p ≡ q) × (s.socket.ws_lock ≡ false)
  Went s (quick p) q =
      (p ≡ q)
      × (s.socket.ws_lock ≡ true)
      × (s.socket.in_qs_mode ≡ false)
      × (s.sink.init_sender ≡ true)
  Went s (dropped p) q =
      (p ≡ q)
      × (s.socket.ws_lock ≡ true)
      × ((s.socket.in_qs_mode ≡ true) ⊎ (s.sink.init_sender ≡ false))

  abbrev pub Rounded : Sending stats → Outcome (Launch stats × Sending stats) → Type 0
  Rounded s blocked = ⊥
  Rounded s undefined = ⊥
  Rounded s (done (l, r)) =
      (item : ForwardStackPackage) × (f : ForwardStack) × (r.sink ≡ record s.sink { fwd_stack = f })
      × IsValid f
      × (((s.sink.fwd_stack.sender_stack ≡ []) × (item ≡ empty_package) × (f.sender_stack ≡ []))
          ⊎ (s.sink.fwd_stack.sender_stack ≡ item ∷ f.sender_stack))
      × Went s l (create_packet stats s.worker_id item (record s.sink { fwd_stack = f }) s.socket).0

  launch_in-Went :
      (s r : Sending stats) (p : Packet S) (n q i : Bool)
      → s.socket.ws_lock ≡ n
      → s.socket.in_qs_mode ≡ q
      → s.sink.init_sender ≡ i
      → let (l, r') = launch_in stats n q i p r in (r'.sink ≡ r.sink) × Went s l p
  launch_in-Went s r p false q i a b c = (refl, (refl, a))
  launch_in-Went s r p true true i a b c = (refl, (refl, a, inl b))
  launch_in-Went s r p true false true a b c = (refl, (refl, a, b, c))
  launch_in-Went s r p true false false a b c = (refl, (refl, a, inr c))

  launch-Went :
      (s r : Sending stats) (p : Packet S)
      → r.sink.init_sender ≡ s.sink.init_sender
      → let (l, r') = launch stats (get_socket_status s.socket) p r in
        (r'.sink ≡ r.sink) × Went s l p
  launch-Went s r p e =
      launch_in-Went s r p (has_bit (get_socket_status s.socket) soc_normal_mode)
        (has_bit (get_socket_status s.socket) soc_quicksend_mode) r.sink.init_sender
        (sym (get_socket_status-has_bit soc_normal_mode s.socket))
        (sym (get_socket_status-has_bit soc_quicksend_mode s.socket)) (sym e)

  round-Rounded :
      (s : Sending stats) (r : Outcome (ForwardStackPackage × ForwardStack))
      → Popped s.sink.fwd_stack r
      → Rounded s
          ((r >>= sent stats s) >>= λ x. done (launch stats (get_socket_status s.socket) x.0 x.1))
  round-Rounded s (done (item, f)) (v, x) =
      let sink : SenderSink = record s.sink { fwd_stack = f } in
      let (p, soc) = create_packet stats s.worker_id item sink s.socket in
      let went = launch-Went s (record s { sink = sink; socket = soc }) p refl in
      (item, f, went.0, v, taken s.sink.fwd_stack item f x, went.1)
  round-Rounded s blocked x = x
  round-Rounded s undefined x = x

  -- Once the worker has an id, a round takes the next packet from the sink, without blocking. It is
  -- sent in normal mode exactly if that is free on entry; in quick-send mode if that one is free and
  -- the sender is initialised; and otherwise it is lost: it is in no socket and no longer in the sink.
  pub socket_round-Rounded :
      (assigned : Option Bytes) (s : Sending stats)
      → IsValid s.sink.fwd_stack
      → is_empty s.worker_id ≡ false
      → Rounded s (socket_round stats assigned s)
  unfolding socket_round pop_packet send_next
  socket_round-Rounded assigned s v e =
      simp e (round-Rounded s _ (pop_forward_stack-Popped s.sink.fwd_stack v))
