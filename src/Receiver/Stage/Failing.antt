-- ===== src/Receiver/Stage/Failing.antt =====
-- What a packet leaves alone that makes its job fail.
use worker_unit.Base.{
  ◌≡◌, refl, sym, ◌∙◌, subst, Bool, Option, none, some, Bool-cases, inl, inr, if_true, if_false,
}
use worker_unit.Base.Text.{Bytes}
use worker_unit.Scheduler.Job.{job_failed}
use worker_unit.Sender.Package.{Outcome, done, blocked, undefined, ◌>>=◌}
use worker_unit.Sender.AwaitStack.{AwaitStack, Code, success, failure}
use worker_unit.Receiver.UserData.{p_error, Parsing}
use worker_unit.Receiver.InstanceData.{InstanceParsing}
use worker_unit.Receiver.Stage.{
  PacketBody, user_data, instance_data, corrupted, ServerPacket, Receiver, Globals, has_bit,
  Identified, acknowledged, acknowledge, user_parsed, instance_parsed, process_body,
  identify_packet_type, receiver_proccess, job_result,
}

module _ {ℓ} {S : Type ℓ} (write_value : Bytes → S → Bool × S) (reads : Bytes → S → Bool) where
  -- If the status is an error, the await stack and the worker's id are as before.
  abbrev pub Kept : Globals S → Outcome (Identified write_value reads) → Type 0
  Kept g (done (status, r, g')) =
      status ≡ p_error → (g'.await_stack ≡ g.await_stack) × (g'.worker_id ≡ g.worker_id)
  Kept g blocked = Unit
  Kept g undefined = Unit

  matched-Kept :
      (r : Receiver) (g : Globals S) (o : Outcome (Code × AwaitStack))
      → Kept g (o >>= (λ x. done (acknowledged write_value reads r g x)))
  matched-Kept r g (done (success, s)) = λ h. absurd (cc)
  matched-Kept r g (done (failure, s)) = λ h. absurd (cc)
  matched-Kept r g blocked = tt
  matched-Kept r g undefined = tt

  acknowledge-Kept :
      (p : ServerPacket) (r : Receiver) (g : Globals S)
      → Kept g (acknowledge write_value reads p r g)
  unfolding acknowledge
  acknowledge-Kept p r g = elim (Bool-cases (has_bit 4 p.head)) [
    | inl a ↦ subst (Kept g) (sym (if_true _ _ _ a)) (matched-Kept r g _)
    | inr a ↦ elim (Bool-cases (has_bit 8 p.head)) [
      | inl b ↦ subst (Kept g) (sym (if_false _ _ _ a ∙ if_true _ _ _ b)) (matched-Kept r g _)
      | inr b ↦ subst (Kept g) (sym (if_false _ _ _ a ∙ if_false _ _ _ b)) (λ h. (refl, refl))
    ]
  ]

  user-Kept :
      (id : Bytes) (g : Globals S) (x : Option Parsing)
      → Kept g (user_parsed write_value reads id g x)
  user-Kept id g none = tt
  user-Kept id g (some x) = λ h. (refl, refl)

  instance-Kept :
      (r : Receiver) (g : Globals S) (x : Option (InstanceParsing S))
      → Kept g (instance_parsed write_value reads r g x)
  instance-Kept r g none = tt
  instance-Kept r g (some x) = λ h. (refl, refl)

  body-Kept :
      (b : PacketBody) (p : ServerPacket) (r : Receiver) (g : Globals S)
      → Kept g (process_body write_value reads b p r g)
  unfolding process_body
  body-Kept (user_data b) p r g = user-Kept b.table_id g _
  body-Kept (instance_data b) p r g = instance-Kept r g _
  body-Kept corrupted p r g = acknowledge-Kept p r g

  identify_packet_type-Kept :
      (p : Option ServerPacket) (r : Receiver) (g : Globals S)
      → Kept g (identify_packet_type write_value reads p r g)
  unfolding identify_packet_type
  identify_packet_type-Kept none r g = λ h. (refl, refl)
  identify_packet_type-Kept (some p) r g = elim (Bool-cases (has_bit 1 p.head)) [
    | inl a ↦ subst (Kept g) (sym (if_true _ _ _ a)) (λ h. absurd (cc))
    | inr a ↦ elim (Bool-cases (has_bit 2 p.head)) [
      | inl b ↦ subst (Kept g) (sym (if_false _ _ _ a ∙ if_true _ _ _ b)) (body-Kept p.body p r g)
      | inr b ↦ subst (Kept g) (sym (if_false _ _ _ a ∙ if_false _ _ _ b)) (acknowledge-Kept p r g)
    ]
  ]

  failed-Kept :
      (g : Globals S) (o : Outcome (Identified write_value reads)) (r' : Receiver) (g' : Globals S)
      → Kept g o
      → (o >>= (λ x. done (job_result write_value reads x))) ≡ done (job_failed, r', g')
      → (g'.await_stack ≡ g.await_stack) × (g'.worker_id ≡ g.worker_id)
  failed-Kept g (done (p_error, r, h)) r' g' k e =
      let u : h ≡ g' = cc in
      subst (λ x. (x.await_stack ≡ g.await_stack) × (x.worker_id ≡ g.worker_id)) u (k refl)
  failed-Kept g (done (_, r, h)) r' g' k e = absurd (cc)
  failed-Kept g blocked r' g' k e = absurd (cc)
  failed-Kept g undefined r' g' k e = absurd (cc)

  -- A packet that makes the job of the receiver fail, whatever it holds, leaves the packets that await
  -- an acknowledgement and the worker's id alone.
  pub receiver_proccess_failing :
      (p : Option ServerPacket) (r : Receiver) (g : Globals S) (r' : Receiver) (g' : Globals S)
      → receiver_proccess write_value reads p r g ≡ done (job_failed, r', g')
      → (g'.await_stack ≡ g.await_stack) × (g'.worker_id ≡ g.worker_id)
  unfolding receiver_proccess
  receiver_proccess_failing p r g r' g' e =
      failed-Kept g (identify_packet_type write_value reads p r g) r' g'
        (identify_packet_type-Kept p r g) e
