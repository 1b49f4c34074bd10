-- ===== src/Sender/AwaitStack/Acks.antt =====
-- What `push` and `matchItem` do to a valid await stack.
use worker_unit.Base.{
  ℕ, suc, ◌+◌, ◌≤◌, ◌<◌, ◌≡◌, refl, ap, ◌∙◌, Bool, true, false, not, ◌&&◌, ◌||◌, Option, none, some,
  List, [], ◌∷◌, arith, leb, leb→le, ◌==◌, get_elem?, set, length, All, length-set, Bool-cases, inl,
  inr,
}
use worker_unit.Base.Text.{Bytes, equal}
use worker_unit.Sender.Package.{
  ForwardStackPackage, is_intr, is_fres, Outcome, done, blocked, undefined,
}
use worker_unit.Sender.AwaitStack.{
  AwaitStack, AwaitStackPackage, Code, success, failure, push, match_item, search_from, Search,
  found, unknown_status, missing, switch_status, ack_packet, ack_entry, after_search, purge,
  sp_intr_ack, sp_fres_ack,
}

pub record IsValid (s : AwaitStack) : Type 0 where
  pub unlocked : s.stack_lock ≡ false
  pub six : length s.await_stack ≡ 6
  pub bounded : s.index ≤ 6
  pub not_all_acked : s.acked_packets ≤ 5

abbrev pub Pushed : ForwardStackPackage → AwaitStack → Outcome (Code × AwaitStack) → Type 0
Pushed item s (done (success, r)) =
    (s.index < 6)
    × IsValid r
    × (r.index ≡ suc s.index)
    × (r.await_stack
        ≡ set s.await_stack s.index (some (record { fwd_element = item; item_acked = false })))
Pushed item s (done (failure, r)) = (s.index ≡ 6) × (r ≡ s)
Pushed item s blocked = ⊥
Pushed item s undefined = ⊥

pushed-IsValid :
    (item : ForwardStackPackage) (s : AwaitStack)
    → IsValid s
    → s.index < 6
    → IsValid (record s {
      stack_lock = false;
      await_stack =
          set s.await_stack s.index (some (record { fwd_element = item; item_acked = false }));
      index = s.index + 1;
    })
pushed-IsValid item s v h = record {
  unlocked = refl;
  six = length-set s.await_stack s.index _ ∙ v.six;
  bounded = omega arith;
  not_all_acked = v.not_all_acked;
}

-- `push` on a valid await stack records the packet at the index, not yet acknowledged; with six
-- packets it fails and changes nothing.
pub push-Pushed :
    (item : ForwardStackPackage) (s : AwaitStack) → IsValid s → Pushed item s (push item s)
unfolding push
push-Pushed item s v = elim (Bool-cases (leb 6 s.index)) [
  | inl e ↦ rw e (omega (arith, v.bounded, leb→le 6 s.index e), refl)
  | inr e ↦
      simp (e, v.unlocked) (ground arith, pushed-IsValid item s v (ground arith), omega arith, refl)
]

-- An entry that an acknowledgement of this status and table id is for.
abbrev pub matches : ℕ → Bytes → Option AwaitStackPackage → Bool
matches status id none = false
matches status id (some p) =
    equal p.fwd_element.table_id id
    && not p.item_acked
    && ((status == sp_intr_ack && is_intr p.fwd_element.status_code)
        || (status == sp_fres_ack && is_fres p.fwd_element.status_code))

abbrev pub Searched : ℕ → Bytes → ℕ → List (Option AwaitStackPackage) → Search → Type 0
Searched status id i cs (found n) =
    (k : ℕ) × (p : AwaitStackPackage) × (n ≡ i + k)
    × (get_elem? cs k ≡ some (some p))
    × (matches status id (some p) ≡ true)
Searched status id i cs unknown_status = All (λ c. matches status id c ≡ false) cs
Searched status id i cs missing = All (λ c. matches status id c ≡ false) cs

never-matches :
    (status : ℕ) (id : Bytes) (cs : List (Option AwaitStackPackage))
    → (status == sp_intr_ack) ≡ false
    → (status == sp_fres_ack) ≡ false
    → All (λ c. matches status id c ≡ false) cs
never-matches status id [] a b = tt
never-matches status id (none ∷ cs) a b = (refl, never-matches status id cs a b)
never-matches status id (some p ∷ cs) a b = (ground arith, never-matches status id cs a b)

later-Searched :
    (status : ℕ) (id : Bytes) (i : ℕ) (c : Option AwaitStackPackage)
    (cs : List (Option AwaitStackPackage)) (r : Search)
    → matches status id c ≡ false
    → Searched status id (i + 1) cs r
    → Searched status id i (c ∷ cs) r
later-Searched status id i c cs (found n) m (k, p, e, g, h) = (suc k, p, omega arith, g, h)
later-Searched status id i c cs unknown_status m a = (m, a)
later-Searched status id i c cs missing m a = (m, a)

switch-Searched :
    (status : ℕ) (id : Bytes) (i : ℕ) (p : AwaitStackPackage) (cs : List (Option AwaitStackPackage))
    (r : Search)
    → equal p.fwd_element.table_id id ≡ true
    → Searched status id (i + 1) cs r
    → Searched status id i (some p ∷ cs) (switch_status status p i r)
switch-Searched status id i p cs r eq s = elim (Bool-cases (matches status id (some p))) [
  | inl e ↦ rw (taken status id i p r e) (0, p, omega arith, refl, e)
  | inr e ↦ elim (Bool-cases (status == sp_intr_ack || status == sp_fres_ack)) [
    | inl k ↦ rw (passed status id i p r eq e k) (later-Searched status id i (some p) cs r e s)
    | inr k ↦
        rw (refused status p i r k) (e, never-matches status id cs (ground arith) (ground arith))
  ]
]
  where
    taken :
        (status : ℕ) (id : Bytes) (i : ℕ) (p : AwaitStackPackage) (r : Search)
        → matches status id (some p) ≡ true
        → switch_status status p i r ≡ found i
    taken status id i p r e = ground arith

    passed :
        (status : ℕ) (id : Bytes) (i : ℕ) (p : AwaitStackPackage) (r : Search)
        → equal p.fwd_element.table_id id ≡ true
        → matches status id (some p) ≡ false
        → (status == sp_intr_ack || status == sp_fres_ack) ≡ true
        → switch_status status p i r ≡ r
    passed status id i p r q e k = ground arith

    refused :
        (status : ℕ) (p : AwaitStackPackage) (i : ℕ) (r : Search)
        → (status == sp_intr_ack || status == sp_fres_ack) ≡ false
        → switch_status status p i r ≡ unknown_status
    refused status p i r k = ground arith

search_from-Searched :
    (status : ℕ) (id : Bytes) (i : ℕ) (cs : List (Option AwaitStackPackage))
    → Searched status id i cs (search_from status id i cs)
unfolding search_from
search_from-Searched status id i [] = tt
search_from-Searched status id i (none ∷ cs) =
    later-Searched status id i none cs _ refl (search_from-Searched status id (i + 1) cs)
search_from-Searched status id i (some p ∷ cs) =
    elim (Bool-cases (equal p.fwd_element.table_id id)) [
      | inl e ↦
          rw e (switch-Searched status id i p cs _ e (search_from-Searched status id (i + 1) cs))
      | inr e ↦ rw e (
          later-Searched status id i (some p) cs _ (ground arith)
            (search_from-Searched status id (i + 1) cs))
    ]

-- An entry of the stack that the acknowledgement is for, and the array with it acknowledged.
abbrev pub Acked : ℕ → Bytes → AwaitStack → List (Option AwaitStackPackage) → Type 0
Acked status id s cs =
    (k : ℕ) × (p : AwaitStackPackage) × (get_elem? s.await_stack k ≡ some (some p))
    × (matches status id (some p) ≡ true)
    × (cs ≡ set s.await_stack k (some (record p { item_acked = true })))

abbrev pub Matched : ℕ → Bytes → AwaitStack → Outcome (Code × AwaitStack) → Type 0
Matched status id s (done (success, r)) =
    (s.acked_packets < 5)
    × (r.acked_packets ≡ suc s.acked_packets)
    × IsValid r
    × Acked status id s r.await_stack
Matched status id s (done (failure, r)) =
    (r ≡ s) × All (λ c. matches status id c ≡ false) s.await_stack
Matched status id s blocked =
    (s.acked_packets ≡ 5)
    × ((k : ℕ) × (p : AwaitStackPackage) × (get_elem? s.await_stack k ≡ some (some p))
        × (matches status id (some p) ≡ true))
Matched status id s undefined = ⊥

ack_entry-set :
    (cs : List (Option AwaitStackPackage)) (i : ℕ) (p : AwaitStackPackage)
    → get_elem? cs i ≡ some (some p)
    → ack_entry i cs ≡ set cs i (some (record p { item_acked = true }))
ack_entry-set cs i p e = rw (e, ack_entry)

purge-locked : (s : AwaitStack) → s.stack_lock ≡ true → purge s ≡ blocked
unfolding purge
purge-locked s e = simp e

abbrev held : AwaitStack → AwaitStack
held s = record s { stack_lock = true }

abbrev acked_stack : AwaitStack → ℕ → AwaitStack
acked_stack s i = record (held s) {
  await_stack = ack_entry i s.await_stack;
  acked_packets = s.acked_packets + 1;
}

same : (s : AwaitStack) → IsValid s → record s { stack_lock = false } ≡ s
same s v = ground arith

found-Matched :
    (status : ℕ) (id : Bytes) (s : AwaitStack) (i : ℕ) (p : AwaitStackPackage)
    → IsValid s
    → get_elem? s.await_stack i ≡ some (some p)
    → matches status id (some p) ≡ true
    → Matched status id s (ack_packet i (held s))
unfolding ack_packet
found-Matched status id s i p v g m = elim (Bool-cases (s.acked_packets + 1 == 6)) [
  | inl e ↦ rw (e, purge-locked (acked_stack s i) refl) (ground arith, (i, p, g, m))
  | inr e ↦ rw e (
    ground (arith, v.not_all_acked),
    ground arith,
    record {
      unlocked = refl;
      six = ap length (ack_entry-set s.await_stack i p g) ∙ length-set s.await_stack i _ ∙ v.six;
      bounded = v.bounded;
      not_all_acked = ground (arith, v.not_all_acked);
    },
    (i, p, g, m, ack_entry-set s.await_stack i p g),
  )
]

search-Matched :
    (status : ℕ) (id : Bytes) (s : AwaitStack) (r : Search)
    → IsValid s
    → Searched status id 0 s.await_stack r
    → Matched status id s (after_search r (held s))
search-Matched status id s (found n) v (k, p, e, g, m) =
    let e' : n ≡ k = omega arith in rw e' (found-Matched status id s k p v g m)
search-Matched status id s unknown_status v a = (same s v, a)
search-Matched status id s missing v a = (same s v, a)

-- `matchItem` on a valid await stack acknowledges one entry with the packet's table id, the right
-- kind of result and no acknowledgement yet, if there is one; with none it fails and changes
-- nothing. When it is the sixth acknowledgement the call never returns, since `purge` waits for the
-- lock that `matchItem` holds.
pub match_item-Matched :
    (status : ℕ) (id : Bytes) (s : AwaitStack)
    → IsValid s
    → Matched status id s (match_item status id s)
unfolding match_item
match_item-Matched status id s v =
    simp v.unlocked
      (search-Matched status id s _ v (search_from-Searched status id 0 s.await_stack))
