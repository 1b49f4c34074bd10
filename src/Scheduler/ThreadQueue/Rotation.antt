-- ===== src/Scheduler/ThreadQueue/Rotation.antt =====
-- `getNextTask` serves the occupied slots in turn.
use worker_unit.Base.{
  ℕ, zero, suc, ◌+◌, ◌-◌, ◌%◌, ◌<◌, ◌≡◌, refl, ◌⊎◌, inl, inr, true, false, List, arith, Bool-cases,
}
use worker_unit.Scheduler.ThreadQueue.{
  null, Slot, slot_at, ThreadQueue, scan, get_next_task, queue_size,
}

-- The occupied slots that come before slot `k` when the head stands at `h`.
abbrev pub distance : ℕ → ℕ → ℕ
distance h k = (k + 7 - h) % 4

abbrev pub Occupied : List Slot → ℕ → Type 0
Occupied ss k = (slot_at ss k).is_done ≡ false

scan_approaches :
    (n : ℕ) (ss : List Slot) (h k : ℕ)
    → h < 4
    → k < 4
    → Occupied ss k
    → distance h k < n
    → let (h', c) = scan n ss h in
      (h' < 4)
      × Occupied ss h'
      × (c ≡ (slot_at ss h').cell)
      × ((h' ≡ k) ⊎ (distance h' k < distance h k))
unfolding scan
scan_approaches zero ss h k hh hk o d = absurd (omega arith)
scan_approaches (suc n) ss h k hh hk o d = elim (Bool-cases (slot_at ss ((h + 1) % 4)).is_done) [
  | inl done ↦ ground (arith, scan_approaches n ss ((h + 1) % 4) k)
  | inr busy ↦ rw busy (ground arith)
]

pub scan-lt-four : (n : ℕ) (ss : List Slot) (h : ℕ) → h < 4 → (scan n ss h).0 < 4
unfolding scan
scan-lt-four zero ss h hh = hh
scan-lt-four (suc n) ss h hh = ground (arith, scan-lt-four n ss ((h + 1) % 4))

-- While slot `k` is occupied, a call of `getNextTask` returns the job of slot `k`, or that of an
-- occupied slot after which fewer occupied places are left before `k`: at most three, so `k` is
-- served by the fourth call at the latest, whatever the calls in between do to the other slots.
pub get_next_task_approaches :
    (q : ThreadQueue) (k : ℕ)
    → q.head < 4
    → k < 4
    → Occupied q.slots k
    → let (c, r) = get_next_task q in
      (r.slots ≡ q.slots)
      × (c ≡ (slot_at q.slots r.head).cell)
      × Occupied q.slots r.head
      × (distance q.head k < 4)
      × ((r.head ≡ k) ⊎ (distance r.head k < distance q.head k))
unfolding get_next_task
get_next_task_approaches q k hh hk o =
    let s = scan_approaches queue_size q.slots q.head k hh hk o (omega arith) in
    (refl, s.2, s.1, omega arith, s.3)

scan_idle :
    (n : ℕ) (ss : List Slot) (h : ℕ)
    → ((k : ℕ) → (slot_at ss k).is_done ≡ true)
    → (scan n ss h).1 ≡ null
unfolding scan
scan_idle zero ss h all = refl
scan_idle (suc n) ss h all = rw (all ((h + 1) % 4)) (scan_idle n ss ((h + 1) % 4) all)
