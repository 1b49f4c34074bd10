-- ===== src/Scheduler/ThreadQueue.antt =====
-- The `ThreadQueue` class of scheduler/sched.cpp: four slots served in turn by one task thread.
pub mod Slots
pub mod Taking
pub mod Single
pub mod Invariant
pub mod Rotation
pub mod Usable
use worker_unit.Base.{
  ℕ, zero, suc, ◌+◌, ◌-◌, ◌%◌, ◌<◌, ◌≡◌, refl, Bool, true, false, not, ◌&&◌, ◌||◌, Option, none,
  some, List, [], ◌∷◌, arith, ltb, ◌==◌, if◌then◌else◌, get_elem?, set,
}
use worker_unit.Scheduler.Job.{
  QueueJob, JobStatus, job_running, job_finalized, job_done, set_job_status, is_job_status_set,
}

-- A pointer of `jobQueue`: not yet written, null, or a job.
pub data Cell : Type 0 where
  unset null : Cell
  job : QueueJob → Cell

pub record Slot : Type 0 where
  pub is_done : Bool
  pub cell : Cell

pub record ThreadQueue : Type 0 where
  pub thread_id : ℕ
  pub head : ℕ
  pub slots : List Slot
  pub thread_should_stop : Bool
  pub total_jobs_in_queue : ℕ

abbrev pub queue_size : ℕ
queue_size = 4

-- 0 or -1
pub data Code : Type 0 where
  success failure : Code

abbrev pub fresh_slot : Slot
fresh_slot = record { is_done = true; cell = unset }

unfoldable pub new_thread_queue : ℕ → ThreadQueue
new_thread_queue id = record {
  thread_id = id;
  head = 0;
  slots = fresh_slot ∷ fresh_slot ∷ fresh_slot ∷ fresh_slot ∷ [];
  thread_should_stop = false;
  total_jobs_in_queue = 0;
}

-- The loop of `addNewTask`: the first free slot takes the job. The last argument is the loop's
-- result on the slots behind `s`.
abbrev pub fill_here : QueueJob → Slot → List Slot → Option (List Slot) → Option (List Slot)
fill_here j s ss behind = elim s.is_done [
  | true ↦ some (record { is_done = false; cell = job j } ∷ ss)
  | false ↦ elim behind [ none ↦ none | some rest ↦ some (s ∷ rest) ]
]

unfoldable pub fill_slot : QueueJob → List Slot → Option (List Slot)
fill_slot j [] = none
fill_slot j (s ∷ ss) = fill_here j s ss (fill_slot j ss)

abbrev pub after_fill : ThreadQueue → Option (List Slot) → Code × ThreadQueue
after_fill q none = (failure, q)
after_fill q (some ss) =
    (success, record q { slots = ss; total_jobs_in_queue = q.total_jobs_in_queue + 1 })

unfoldable pub add_new_task : Cell → ThreadQueue → Code × ThreadQueue
add_new_task (job j) q = after_fill q (fill_slot j q.slots)
add_new_task _ q = (failure, q)

-- A slot index beyond the array reads as a finished null slot; the head stays below four.
abbrev pub slot_at : List Slot → ℕ → Slot
slot_at ss i = elim (get_elem? ss i) [ none ↦ record { is_done = true; cell = null } | some s ↦ s ]

-- The loop of `getNextTask` with the rounds that are left.
unfoldable pub scan : ℕ → List Slot → ℕ → ℕ × Cell
scan zero ss head = (head, null)
scan (suc n) ss head =
    let next = (head + 1) % queue_size in
    let rest = scan n ss next in
    if (slot_at ss next).is_done then rest else (next, (slot_at ss next).cell)

unfoldable pub get_next_task : ThreadQueue → Cell × ThreadQueue
unfolding scan
get_next_task q = let (h, c) = scan queue_size q.slots q.head in (c, record q { head = h })

abbrev pub is_job : Cell → Bool
is_job (job j) = true
is_job _ = false

-- The access of `popJob` to the job of an occupied slot, through a pointer that is null or unwritten.
abbrev pub points_nowhere : Slot → Bool
points_nowhere s = not s.is_done && not (is_job s.cell)

-- The test of `popJob` on a slot: its job has not been started nor finalized.
abbrev pub can_pop : Slot → Bool
can_pop s = elim s.cell [
  | job j ↦
      not s.is_done
      && not (is_job_status_set job_running j)
      && not (is_job_status_set job_finalized j)
  | _ ↦ false
]

-- One round of its loop: the test on the slot, the slot, and the result on the slots behind it.
abbrev pub take_here :
    Bool → Slot → List Slot → Option (Cell × List Slot) → Option (Cell × List Slot)
take_here true s ss behind = some (s.cell, record { is_done = true; cell = null } ∷ ss)
take_here false s ss none = none
take_here false s ss (some (c, rest)) = some (c, s ∷ rest)

-- An undefined access gives `unset`.
unfoldable pub take_slot : List Slot → Option (Cell × List Slot)
unfolding is_job_status_set
take_slot [] = none
take_slot (s ∷ ss) =
    let behind = take_slot ss in
    if points_nowhere s then some (unset, s ∷ ss) else take_here (can_pop s) s ss behind

abbrev pub after_take : ThreadQueue → Option (Cell × List Slot) → Cell × ThreadQueue
after_take q none = (null, q)
after_take q (some (unset, ss)) = (unset, q)
after_take q (some (null, ss)) = (null, q)
after_take q (some (job j, ss)) =
    (job j, record q { slots = ss; total_jobs_in_queue = q.total_jobs_in_queue - 1 })

-- The job or null, or `unset` where the source has undefined behaviour.
unfoldable pub pop_job : ThreadQueue → Cell × ThreadQueue
pop_job q = after_take q (take_slot q.slots)

-- `setJobStatus` through a null or unwritten pointer is undefined (`none`).
abbrev pub mark_cell : Cell → Option Cell
mark_cell (job j) = some (job (set_job_status job_done j))
mark_cell _ = none

-- The head slot closed over the marked job.
abbrev pub close_slot : Option Cell → ThreadQueue → Option ThreadQueue
close_slot none q = none
close_slot (some c) q = some (record q {
  slots = set q.slots q.head (record { is_done = true; cell = c });
  total_jobs_in_queue = q.total_jobs_in_queue - 1;
})

unfoldable pub mark_task_as_complete : ThreadQueue → Option ThreadQueue
unfolding set_job_status
mark_task_as_complete q = close_slot (mark_cell (slot_at q.slots q.head).cell) q

-- One slot, put before the flushed slots behind it. `delete` on a pointer that was never written is
-- undefined (`none`).
abbrev pub flush_here : Bool → Cell → List Slot → Option (List Slot)
flush_here false c rest = some (record { is_done = false; cell = c } ∷ rest)
flush_here true unset rest = none
flush_here true null rest = some (record { is_done = true; cell = null } ∷ rest)
flush_here true (job j) rest = some (record { is_done = true; cell = null } ∷ rest)

unfoldable pub flush_slots : List Slot → Option (List Slot)
flush_slots [] = some []
flush_slots (s ∷ ss) = elim (flush_slots ss) [
  | none ↦ none
  | some rest ↦ flush_here s.is_done s.cell rest
]

unfoldable pub flush_finished_jobs : ThreadQueue → Option ThreadQueue
unfolding flush_slots
flush_finished_jobs q = elim (flush_slots q.slots) [
  | none ↦ none
  | some ss ↦ some (record q { slots = ss })
]

-- One job's share of the waiting time: its slice, or 999 where the slice is zero.
abbrev pub wait_share : Slot → ℕ
wait_share s = elim s.cell [
  | job j ↦ if s.is_done then 0 else if j.cpu_slice_ms == 0 then 999 else j.cpu_slice_ms
  | _ ↦ 0
]

unfoldable pub sum_wait : List Slot → ℕ
sum_wait [] = 0
sum_wait (s ∷ ss) = wait_share s + sum_wait ss

unfoldable pub get_total_wait_time : ThreadQueue → ℕ
unfolding sum_wait
get_total_wait_time q = if q.total_jobs_in_queue == 0 then 0 else sum_wait q.slots
