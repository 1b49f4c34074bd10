-- ===== src/Sender/Clients/Exclusion.antt =====
-- The invariant of the socket thread and its client threads.
use worker_unit.Base.{
  ℕ, ◌≤◌, ◌≡◌, ap, sym, subst, ◌∙◌, Bool, true, false, Option, none, some, [], length, All,
  Bool-cases, inl, inr,
}
use worker_unit.Socket.{
  SocketStatus, soc_normal_mode, soc_quicksend_mode, set_flag, reset_flag, has_bit,
  get_socket_status-has_bit,
}
use worker_unit.Sender.Sink.{Packet, Sending, launch_in}
use worker_unit.Sender.Clients.{
  Phase, looping, chosen, ready, System, read_status, start_client, end_normal_client,
  end_quick_client, Step, read, take, start, end_normal, end_quick, other, Reach, here, later,
}
use worker_unit.Sender.Clients.Flags.{SocketKept, TakenFrom, pop_packet-TakenFrom}
use worker_unit.Sender.Clients.Modes.{
  ModeInv, ModeInv-see, ModeInv-forget, ModeInv-flag, ModeInv-end, ModeInv-start, ModeInv-begin,
}

module _ {S : Type 0} (stats : S) (R : Type 0) where
  -- What the socket thread knows of a mode's flag.
  abbrev pub seen : SocketStatus → Phase stats R → Option Bool
  seen m looping = none
  seen m (chosen status) = some (has_bit status m)
  seen m (ready status p) = some (has_bit status m)

  -- The invariant of both modes.
  abbrev pub Excludes : System stats R → Type 0
  Excludes x =
      ModeInv x.sending.socket.ws_lock x.normal_clients x.normal_container
        (seen soc_normal_mode x.phase)
      × ModeInv x.sending.socket.in_qs_mode x.quick_clients x.quick_container
          (seen soc_quicksend_mode x.phase)

  read_status-Excludes : (x : System stats R) → Excludes x → Excludes (read_status stats R x)
  unfolding read_status
  read_status-Excludes x (v, w) = (
    subst (λ b. ModeInv x.sending.socket.ws_lock x.normal_clients x.normal_container (some b))
        (sym (get_socket_status-has_bit soc_normal_mode x.sending.socket)) (ModeInv-see v),
    subst (λ b. ModeInv x.sending.socket.in_qs_mode x.quick_clients x.quick_container (some b))
        (sym (get_socket_status-has_bit soc_quicksend_mode x.sending.socket)) (ModeInv-see w),
  )

  take-Excludes :
      (x : System stats R) (status : ℕ) (p : Packet S) (s : Sending stats)
      → x.phase ≡ chosen status
      → SocketKept x.sending.socket s.socket
      → Excludes x
      → Excludes (record x { sending = s; phase = ready status p })
  take-Excludes x status p s e (h, k) (v, w) =
      let v' =
        subst
          (λ f.
            ModeInv x.sending.socket.ws_lock x.normal_clients x.normal_container
              (seen soc_normal_mode f))
          e v in
      let w' =
        subst
          (λ f.
            ModeInv x.sending.socket.in_qs_mode x.quick_clients x.quick_container
              (seen soc_quicksend_mode f))
          e w in
      (ModeInv-flag s.socket.ws_lock h v', ModeInv-flag s.socket.in_qs_mode (λ l. k ∙ l) w')

  start-Excludes :
      (x : System stats R) (p : Packet S) (n q : Bool)
      → ModeInv x.sending.socket.ws_lock x.normal_clients x.normal_container (some n)
      → ModeInv x.sending.socket.in_qs_mode x.quick_clients x.quick_container (some q)
      → Excludes
          (start_client stats R (launch_in stats n q x.sending.sink.init_sender p x.sending) x)
  unfolding start_client set_flag
  start-Excludes x p false q v w = (ModeInv-start p v, ModeInv-forget w)
  start-Excludes x p true true v w = (ModeInv-forget v, ModeInv-forget w)
  start-Excludes x p true false v w = elim (Bool-cases x.sending.sink.init_sender) [
    | inl i ↦ rw i (ModeInv-forget v, ModeInv-start p w)
    | inr i ↦ rw i (ModeInv-forget v, ModeInv-forget w)
  ]

  Step-Excludes : {x y : System stats R} → Step stats R x y → Excludes x → Excludes y
  unfolding end_normal_client end_quick_client reset_flag
  Step-Excludes (read x e) v = read_status-Excludes x v
  Step-Excludes (take x status assigned p s e h) v =
      take-Excludes x status p s e
        (subst (TakenFrom stats x.sending) h (pop_packet-TakenFrom stats assigned x.sending)) v
  Step-Excludes (start x status p e) (v, w) =
      start-Excludes x p (has_bit status soc_normal_mode) (has_bit status soc_quicksend_mode)
        (subst
          (λ f.
            ModeInv x.sending.socket.ws_lock x.normal_clients x.normal_container
              (seen soc_normal_mode f))
          e v)
        (subst
          (λ f.
            ModeInv x.sending.socket.in_qs_mode x.quick_clients x.quick_container
              (seen soc_quicksend_mode f))
          e w)
  Step-Excludes (end_normal x before after p reply e) (v, w) =
      (ModeInv-end before after p false e v, w)
  Step-Excludes (end_quick x before after p reply e) (v, w) =
      (v, ModeInv-end before after p false e w)
  Step-Excludes (other x s e) (v, w) = (
    ModeInv-flag s.socket.ws_lock (λ l. ap (λ k. k.ws_lock) e ∙ l) v,
    ModeInv-flag s.socket.in_qs_mode (λ l. ap (λ k. k.in_qs_mode) e ∙ l) w,
  )

  Reach-Excludes : {x y : System stats R} → Excludes x → Reach stats R x y → Excludes y
  Reach-Excludes v here = v
  Reach-Excludes v (later r s) = Step-Excludes s (Reach-Excludes v r)

  -- No client runs, and the loop is at its head.
  abbrev pub Begins : System stats R → Type 0
  Begins x = (x.phase ≡ looping) × (x.normal_clients ≡ []) × (x.quick_clients ≡ [])

  Begins-Excludes : (x : System stats R) → Begins x → Excludes x
  Begins-Excludes x (e, n, q) =
      subst
        (λ f.
          ModeInv x.sending.socket.ws_lock x.normal_clients x.normal_container
            (seen soc_normal_mode f)
          × ModeInv x.sending.socket.in_qs_mode x.quick_clients x.quick_container
              (seen soc_quicksend_mode f))
        (sym e) (ModeInv-begin _ _ _ n, ModeInv-begin _ _ _ q)

  -- However the threads are interleaved, at most two client threads run at a time, one in each
  -- mode, and the packet that each of them sends is the one in the container of its mode, which is
  -- not replaced as long as it runs.
  pub Reach-exclusive :
      {x y : System stats R}
      → Begins x
      → Reach stats R x y
      → (length y.normal_clients ≤ 1)
        × (length y.quick_clients ≤ 1)
        × All (λ p. y.normal_container ≡ some p) y.normal_clients
        × All (λ p. y.quick_container ≡ some p) y.quick_clients
  Reach-exclusive {x} b r =
      let (v, w) = Reach-Excludes (Begins-Excludes x b) r in (v.one, w.one, v.held, w.held)
