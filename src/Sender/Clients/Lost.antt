-- ===== src/Sender/Clients/Lost.antt =====
-- A flag of normal mode that no client thread holds.
use worker_unit.Base.{
  ℕ, ◌≡◌, refl, ap, sym, subst, ◌∙◌, Bool, true, false, Option, none, some, List, [], ◌∷◌, ◌++◌,
  Bool-cases, inl, inr, if_false,
}
use worker_unit.Base.Text.{Bytes, is_empty}
use worker_unit.Socket.{
  soc_normal_mode, soc_quicksend_mode, set_flag, reset_flag, has_bit, get_socket_status-has_bit,
}
use worker_unit.Sender.Package.{
  ForwardStackPackage, empty_package, Outcome, done, blocked, undefined, ◌>>=◌,
}
use worker_unit.Sender.ForwardStack.{ForwardStack}
use worker_unit.Sender.ForwardStack.Fifo.{IsValid, Popped, pop_forward_stack-Popped}
use worker_unit.Sender.Sink.{
  SenderSink, Packet, Sending, create_packet, get_packet_head, make_body, sent, send_next,
  pop_packet, launch_in,
}
use worker_unit.Sender.Clients.{
  chosen, ready, System, read_status, start_client, end_normal_client, end_quick_client, Step, read,
  take, start, end_normal, end_quick, other, Reach, here, later,
}
use worker_unit.Sender.Clients.Flags.{TakenFrom, pop_packet-TakenFrom}
use worker_unit.Sender.Clients.Exclusion.{seen}

abbrev pub Busy : Option Bool → Type 0
Busy none = Unit
Busy (some b) = b ≡ true

not_empty {ℓ} : {P : Type ℓ} (ps qs : List P) (p : P) → [] ≡ ps ++ (p ∷ qs) → ⊥
not_empty [] qs p e = cc
not_empty (t ∷ ps) qs p e = cc

module _ {S : Type 0} (stats : S) (R : Type 0) where
  -- The flag is set, no thread will reset it, and the socket thread does not take it for unset.
  abbrev pub Lost : System stats R → Type 0
  Lost x =
      (x.sending.socket.ws_lock ≡ true)
      × (x.normal_clients ≡ [])
      × Busy (seen stats R soc_normal_mode x.phase)

  start-Lost :
      (x : System stats R) (p : Packet S) (q : Bool)
      → x.sending.socket.ws_lock ≡ true
      → x.normal_clients ≡ []
      → Lost
          (start_client stats R (launch_in stats true q x.sending.sink.init_sender p x.sending) x)
  unfolding start_client set_flag
  start-Lost x p true l n = (l, n, tt)
  start-Lost x p false l n = elim (Bool-cases x.sending.sink.init_sender) [
    | inl i ↦ rw i (l, n, tt)
    | inr i ↦ rw i (l, n, tt)
  ]

  Step-Lost : {x y : System stats R} → Step stats R x y → Lost x → Lost y
  unfolding read_status end_normal_client end_quick_client reset_flag
  Step-Lost (read x e) (l, n, b) =
      (l, n, get_socket_status-has_bit soc_normal_mode x.sending.socket ∙ l)
  Step-Lost (take x status assigned p s e h) (l, n, b) = (
    (subst (TakenFrom stats x.sending) h (pop_packet-TakenFrom stats assigned x.sending)).0 l,
    n,
    subst (λ f. Busy (seen stats R soc_normal_mode f)) e b,
  )
  Step-Lost (start x status p e) (l, n, b) =
      let t = subst (λ f. Busy (seen stats R soc_normal_mode f)) e b in
      subst
        (λ c. Lost (
          start_client stats R
            (launch_in stats c (has_bit status soc_quicksend_mode) x.sending.sink.init_sender p
              x.sending)
            x))
        (sym t) (start-Lost x p (has_bit status soc_quicksend_mode) l n)
  Step-Lost (end_normal x before after p reply e) (l, n, b) =
      absurd (not_empty before after p (sym n ∙ e))
  Step-Lost (end_quick x before after p reply e) v = v
  Step-Lost (other x s e) (l, n, b) = (ap (λ k. k.ws_lock) e ∙ l, n, b)

  -- Once the flag of normal mode is set, no client thread holds it, and the status word that the
  -- socket thread has read in this cycle, if it has, contains the flag, all this stays so
  -- for good, however the threads are interleaved: no client thread runs in normal mode any more.
  pub Reach-Lost : {x y : System stats R} → Lost x → Reach stats R x y → Lost y
  Reach-Lost v here = v
  Reach-Lost v (later r s) = Step-Lost s (Reach-Lost v r)

  pops_empty :
      (g : ForwardStack) (r : Outcome (ForwardStackPackage × ForwardStack))
      → Popped g r
      → g.sender_stack ≡ []
      → (f : ForwardStack) × (r ≡ done (empty_package, f))
  pops_empty g (done (item, f)) (v, inl (a, b, c)) e = (f, ap (λ i. done (i, f)) b)
  pops_empty g (done (item, f)) (v, inr (a, t)) e = absurd (cc)
  pops_empty g blocked h e = absurd h
  pops_empty g undefined h e = absurd h

  -- The packet made of nothing sets the flag.
  empty-ws_lock :
      (w : Bytes) (k : SenderSink) (s : Sending stats)
      → (create_packet stats w empty_package k s.socket).1.ws_lock ≡ true
  unfolding create_packet empty_package set_flag get_packet_head make_body
  empty-ws_lock w k s = refl

  pop_packet-empty :
      (s : Sending stats)
      → IsValid s.sink.fwd_stack
      → s.sink.fwd_stack.sender_stack ≡ []
      → is_empty s.worker_id ≡ false
      → (q : Packet S) × (s' : Sending stats) × (pop_packet stats none s ≡ done (q, s'))
        × (s'.socket.ws_lock ≡ true)
  unfolding pop_packet send_next
  pop_packet-empty s v e w =
      let (f, r) = pops_empty s.sink.fwd_stack _ (pop_forward_stack-Popped s.sink.fwd_stack v) e in
      let k : SenderSink = record s.sink { fwd_stack = f } in
      let c = create_packet stats s.worker_id empty_package k s.socket in
      (
        c.0,
        record s { sink = k; socket = c.1 },
        if_false _ _ _ w ∙ ap (λ o. o >>= sent stats s) r,
        empty-ws_lock s.worker_id k s,
      )

  -- The flag is lost if the client thread in normal mode ends between the reading of the status word
  -- and the making of a packet out of an empty sink, by a worker that has its id.
  pub loses_flag :
      (x : System stats R) (status : ℕ) (p : Packet S) (reply : R)
      → x.phase ≡ chosen status
      → has_bit status soc_normal_mode ≡ true
      → x.normal_clients ≡ p ∷ []
      → IsValid x.sending.sink.fwd_stack
      → x.sending.sink.fwd_stack.sender_stack ≡ []
      → is_empty x.sending.worker_id ≡ false
      → (y : System stats R) × Reach stats R x y × Lost y
  unfolding end_normal_client
  loses_flag x status p reply e b n v s w =
      let x' = end_normal_client stats R reply [] x in
      let (q, s', t, l) = pop_packet-empty x'.sending v s w in
      (
        record x' { sending = s'; phase = ready status q },
        later (later here (end_normal x [] [] p reply n)) (take x' status none q s' e t),
        (l, refl, b),
      )
