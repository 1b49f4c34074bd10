-- ===== src/Sender/ForwardStack/Fifo.antt =====
-- The sender's stack is a queue: what is pushed is popped in order, and nothing blocks.
use worker_unit.Base.{
  suc, ◌<◌, ◌≡◌, refl, true, false, some, List, [], ◌∷◌, arith, Bool-cases, inl, inr, ◌⊎◌, set,
}
use worker_unit.Sender.Package.{
  ForwardStackPackage, empty_package, is_ackable, Outcome, done, blocked, undefined, ◌>>=◌,
}
use worker_unit.Sender.AwaitStack.{AwaitStack, Code, success, failure, is_free}
use worker_unit.Sender.AwaitStack.Acks
use worker_unit.Sender.AwaitStack.Acks.{Pushed, push-Pushed}
use worker_unit.Sender.ForwardStack.{ForwardStack, pop_forward_stack, pop_front, pop_nonempty}

pub record IsValid (s : ForwardStack) : Type 0 where
  pub unlocked : s.stack_lock ≡ false
  pub await_valid : Acks.IsValid s.await_stack

-- The await stack after a packet has been popped.
abbrev pub Tracked : ForwardStackPackage → AwaitStack → AwaitStack → Type 0
Tracked item a b =
    ((is_ackable item ≡ false) × (b ≡ a))
    ⊎ ((is_ackable item ≡ true)
        × (a.index < 6)
        × (b.index ≡ suc a.index)
        × (b.await_stack
            ≡ set a.await_stack a.index (some (record { fwd_element = item; item_acked = false }))))
    ⊎ ((is_ackable item ≡ true) × (a.index ≡ 6) × (b ≡ a))

abbrev pub Popped : ForwardStack → Outcome (ForwardStackPackage × ForwardStack) → Type 0
Popped s (done (p, r)) =
    IsValid r
    × (((s.sender_stack ≡ []) × (p ≡ empty_package) × (r ≡ s))
        ⊎ ((s.sender_stack ≡ p ∷ r.sender_stack) × Tracked p s.await_stack r.await_stack))
Popped s blocked = ⊥
Popped s undefined = ⊥

free_bound : (a : AwaitStack) → Acks.IsValid a → is_free a ≡ true
unfolding is_free
free_bound a v = ground (arith, v.bounded)

Pushed-case :
    (item : ForwardStackPackage) (rest : List ForwardStackPackage) (s : ForwardStack)
    (r : Outcome (Code × AwaitStack))
    → IsValid s
    → s.sender_stack ≡ item ∷ rest
    → is_ackable item ≡ true
    → Pushed item s.await_stack r
    → Popped s (
        r >>= λ x.
        done (item, record s { stack_lock = false; sender_stack = rest; await_stack = x.1 }))
Pushed-case item rest s (done (success, a)) v e k (lt, w, i, x) =
    (record { unlocked = refl; await_valid = w }, inr (e, inr (inl (k, lt, i, x))))
Pushed-case item rest s (done (failure, a)) v e k (i, x) =
    (record { unlocked = refl; await_valid = rw x v.await_valid }, inr (e, inr (inr (k, i, x))))
Pushed-case item rest s blocked v e k x = x
Pushed-case item rest s undefined v e k x = x

pop_front-Popped :
    (item : ForwardStackPackage) (rest : List ForwardStackPackage) (s : ForwardStack)
    → IsValid s
    → s.sender_stack ≡ item ∷ rest
    → Popped s (pop_front item rest (record s { stack_lock = true }))
unfolding pop_front
pop_front-Popped item rest s v e = elim (Bool-cases (is_ackable item)) [
  | inl k ↦
      rw (k, free_bound s.await_stack v.await_valid)
        (Pushed-case item rest s _ v e k (push-Pushed item s.await_stack v.await_valid))
  | inr k ↦ rw k (record { unlocked = refl; await_valid = v.await_valid }, inr (e, inl (k, refl)))
]

pop_nonempty-Popped :
    (items : List ForwardStackPackage) (s : ForwardStack)
    → IsValid s
    → s.sender_stack ≡ items
    → Popped s (pop_nonempty items s)
pop_nonempty-Popped [] s v e = (v, inl (e, refl, refl))
pop_nonempty-Popped (item ∷ rest) s v e = simp v.unlocked (pop_front-Popped item rest s v e)

-- `popForwardStack` on a valid stack never blocks. It gives the oldest packet and leaves the others
-- in order, or the empty package of an empty stack. A packet that needs an acknowledgement is
-- recorded in the await stack if that has fewer than six packets; with six it is sent all the same
-- and not recorded. Other packets leave the await stack as it was.
pub pop_forward_stack-Popped : (s : ForwardStack) → IsValid s → Popped s (pop_forward_stack s)
unfolding pop_forward_stack
pop_forward_stack-Popped s v = pop_nonempty-Popped s.sender_stack s v refl
