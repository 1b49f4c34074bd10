-- ===== src/Sender/AwaitStack.antt =====
-- The `AwaitStack` of sender_proc/forward_stack.cpp: packets that wait for the server's
-- acknowledgement.
pub mod Acks
use worker_unit.Base.{
  ℕ, zero, suc, ◌+◌, ◌≤◌, ◌≡◌, refl, Bool, true, false, not, ◌&&◌, ◌||◌, Option, none, some, List,
  [], ◌∷◌, arith, ltb, leb, ◌==◌, if◌then◌else◌, get_elem?, set,
}
use worker_unit.Base.Text.{Bytes, equal}
use worker_unit.Sender.Package.{
  ForwardStackPackage, is_intr, is_fres, Outcome, done, blocked, undefined, ◌>>=◌,
}

pub record AwaitStackPackage : Type 0 where
  pub fwd_element : ForwardStackPackage
  pub item_acked : Bool

-- `stack_lock` says that the semaphore is held. The array has six pointers, null at first: the
-- stack is part of a global object.
pub record AwaitStack : Type 0 where
  pub stack_lock : Bool
  pub await_stack : List (Option AwaitStackPackage)
  pub index : ℕ
  pub acked_packets : ℕ

abbrev pub total_diffred_packets : ℕ
total_diffred_packets = 6

unfoldable pub new_await_stack : AwaitStack
new_await_stack = record {
  stack_lock = false;
  await_stack = none ∷ none ∷ none ∷ none ∷ none ∷ none ∷ [];
  index = 0;
  acked_packets = 0;
}

-- 0 or -1
pub data Code : Type 0 where
  success failure : Code

abbrev pub wait_lock : AwaitStack → Outcome AwaitStack
wait_lock s = if s.stack_lock then blocked else done (record s { stack_lock = true })

abbrev pub post_lock : AwaitStack → AwaitStack
post_lock s = record s { stack_lock = false }

unfoldable pub push : ForwardStackPackage → AwaitStack → Outcome (Code × AwaitStack)
push item s = if leb total_diffred_packets s.index then done (failure, s) else do
  h ← wait_lock s
  done (
    success,
    post_lock (record h {
      await_stack =
          set h.await_stack h.index (some (record { fwd_element = item; item_acked = false }));
      index = h.index + 1;
    }),
  )

-- The loop of `purge`, which runs up to the index six; a deleted element is left in its place.
unfoldable pub purge_from : ℕ → ℕ → AwaitStack → Outcome AwaitStack
purge_from zero i s = done s
purge_from (suc n) i s = elim (get_elem? s.await_stack i) [
  | none ↦ undefined
  | some c ↦ elim c [
    | none ↦ undefined
    | some p ↦ purge_from n (i + 1) (record s {
      await_stack = set s.await_stack i (some (record p { item_acked = false }));
      acked_packets = 0;
      index = 0;
    })
  ]
]

unfoldable pub purge : AwaitStack → Outcome AwaitStack
unfolding purge_from
purge s = do h ← wait_lock s; r ← purge_from (total_diffred_packets + 1) 0 h; done (post_lock r)

-- The numbers of SP_INTR_ACK and SP_FRES_ACK.
abbrev pub sp_intr_ack : ℕ
sp_intr_ack = 4

abbrev pub sp_fres_ack : ℕ
sp_fres_ack = 8

-- What the loop of `matchItem` comes to: an entry to acknowledge, an unknown status, or neither.
pub data Search : Type 0 where
  found : ℕ → Search
  unknown_status : Search
  missing : Search

-- The `switch` on one entry with the right table id; `later` is the search behind it.
abbrev pub switch_status : ℕ → AwaitStackPackage → ℕ → Search → Search
switch_status status p i later =
    if status == sp_intr_ack
    then (if is_intr p.fwd_element.status_code && not p.item_acked then found i else later)
    else if status == sp_fres_ack
    then (if is_fres p.fwd_element.status_code && not p.item_acked then found i else later)
    else unknown_status

unfoldable pub search_from : ℕ → Bytes → ℕ → List (Option AwaitStackPackage) → Search
search_from status id i [] = missing
search_from status id i (none ∷ cs) = search_from status id (i + 1) cs
search_from status id i (some p ∷ cs) =
    let later = search_from status id (i + 1) cs in
    if equal p.fwd_element.table_id id then switch_status status p i later else later

abbrev pub ack_entry : ℕ → List (Option AwaitStackPackage) → List (Option AwaitStackPackage)
ack_entry i cs = elim (get_elem? cs i) [
  | none ↦ cs
  | some c ↦ elim c [ none ↦ cs | some p ↦ set cs i (some (record p { item_acked = true })) ]
]

-- The code at `ack_packet`, with the lock held: `purge` waits for the same lock.
unfoldable pub ack_packet : ℕ → AwaitStack → Outcome (Code × AwaitStack)
ack_packet i h =
    let acked : AwaitStack = record h {
      await_stack = ack_entry i h.await_stack;
      acked_packets = h.acked_packets + 1;
    } in
    if acked.acked_packets == total_diffred_packets
    then (do p ← purge acked; done (success, post_lock p))
    else done (success, post_lock acked)

abbrev pub after_search : Search → AwaitStack → Outcome (Code × AwaitStack)
after_search (found i) h = ack_packet i h
after_search unknown_status h = done (failure, post_lock h)
after_search missing h = done (failure, post_lock h)

unfoldable pub match_item : ℕ → Bytes → AwaitStack → Outcome (Code × AwaitStack)
match_item status id s = do h ← wait_lock s; after_search (search_from status id 0 h.await_stack) h

unfoldable pub is_free : AwaitStack → Bool
is_free s = leb s.index total_diffred_packets
