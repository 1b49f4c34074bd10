-- ===== src/Scheduler/ThreadQueue/Usable.antt =====
-- Thread queues on which no operation is undefined: each pointer has been written, and no job has a
-- slice.
use mathlib.Core.List.{Perm}
use worker_unit.Base.{
  suc, ◌≡◌, refl, sym, ap, ◌∙◌, Bool, true, false, ◌&&◌, Option, none, some, List, [], ◌∷◌, arith,
  length, ◌==◌, Bool-cases, inl, inr,
}
use worker_unit.Scheduler.Job.{QueueJob}
use worker_unit.Scheduler.ThreadQueue.{
  Cell, unset, null, job, Slot, ThreadQueue, Code, success, failure, fill_here, fill_slot,
  take_here, take_slot, can_pop, points_nowhere, after_fill, after_take, add_new_task, pop_job,
  flush_here, flush_slots, flush_finished_jobs,
}
use worker_unit.Scheduler.ThreadQueue.Slots.{
  pending, all_hold, jobs, all_unsliced, FilledUnsliced, fill_slot-unsliced,
}
use worker_unit.Scheduler.ThreadQueue.Taking.{TakenUnsliced, take_slot-unsliced}
use worker_unit.Scheduler.ThreadQueue.Invariant.{
  IsValid, queued, Added, add_new_task-Added, Popped, pop_job-Popped,
}

abbrev pub is_written : Cell → Bool
is_written unset = false
is_written _ = true

abbrev pub all_written : List Slot → Bool
all_written [] = true
all_written (s ∷ ss) = is_written s.cell && all_written ss

abbrev pub AllWritten : Option (List Slot) → Type 0
AllWritten none = Unit
AllWritten (some rs) = all_written rs ≡ true

fill_written-step :
    (j : QueueJob) (s : Slot) (ss : List Slot) (r : Option (List Slot))
    → all_written (s ∷ ss) ≡ true
    → AllWritten r
    → AllWritten (fill_here j s ss r)
fill_written-step j s ss none h f = ground arith
fill_written-step j s ss (some rs) h f = ground arith

fill_slot-written :
    (j : QueueJob) (ss : List Slot) → all_written ss ≡ true → AllWritten (fill_slot j ss)
unfolding fill_slot
fill_slot-written j [] h = tt
fill_slot-written j (s ∷ ss) h =
    fill_written-step j s ss (fill_slot j ss) h (fill_slot-written j ss (ground arith))

abbrev pub TakenWritten : Option (Cell × List Slot) → Type 0
TakenWritten none = Unit
TakenWritten (some (c, rs)) = all_written rs ≡ true

take_written-step :
    (b : Bool) (s : Slot) (ss : List Slot) (r : Option (Cell × List Slot))
    → all_written (s ∷ ss) ≡ true
    → TakenWritten r
    → TakenWritten (take_here b s ss r)
take_written-step true s ss r h t = ground arith
take_written-step false s ss none h t = tt
take_written-step false s ss (some (c, rs)) h t = ground arith

take_slot-written : (ss : List Slot) → all_written ss ≡ true → TakenWritten (take_slot ss)
unfolding take_slot
take_slot-written [] h = tt
take_slot-written (s ∷ ss) h = elim (Bool-cases (points_nowhere s)) [
  | inl e ↦ rw e h
  | inr e ↦
      rw e
        (take_written-step (can_pop s) s ss (take_slot ss) h (take_slot-written ss (ground arith)))
]

-- Flushing only clears pointers of free slots.
abbrev pub Flushed : List Slot → Option (List Slot) → Type 0
Flushed ss none = ⊥
Flushed ss (some rs) =
    (length rs ≡ length ss)
    × (pending rs ≡ pending ss)
    × (all_hold rs ≡ all_hold ss)
    × (all_unsliced rs ≡ all_unsliced ss)
    × (all_written rs ≡ true)
    × (jobs rs ≡ jobs ss)

flush_step :
    (d : Bool) (c : Cell) (ss rs : List Slot)
    → is_written c && all_written ss ≡ true
    → Flushed ss (some rs)
    → Flushed (record { is_done = d; cell = c } ∷ ss) (flush_here d c rs)
flush_step d unset ss rs h f = cc
flush_step true null ss rs h (l, p, a, u, w, j) = (ap suc l, p, a, u, w, j)
flush_step true (job i) ss rs h (l, p, a, u, w, j) = (ap suc l, p, a, u, w, j)
flush_step false null ss rs h (l, p, a, u, w, j) = (ap suc l, ap suc p, refl, u, w, j)
flush_step false (job i) ss rs h (l, p, a, u, w, j) =
    (ap suc l, ap suc p, a, ap (λ b. (i.cpu_slice_ms == 0) && b) u, w, ap (λ t. i ∷ t) j)

flush_slots-Flushed : (ss : List Slot) → all_written ss ≡ true → Flushed ss (flush_slots ss)
unfolding flush_slots
flush_slots-Flushed [] h = (refl, refl, refl, refl, refl, refl)
flush_slots-Flushed (s ∷ ss) h = step (flush_slots ss) (flush_slots-Flushed ss (ground arith))
  where
    step :
        (r : Option (List Slot))
        → Flushed ss r
        → Flushed (s ∷ ss) (elim r [ none ↦ none | some rest ↦ flush_here s.is_done s.cell rest ])
    step none f = f
    step (some rs) f = flush_step s.is_done s.cell ss rs h f

pub record Usable (q : ThreadQueue) : Type 0 where
  pub valid : IsValid q
  pub unsliced : all_unsliced q.slots ≡ true
  pub written : all_written q.slots ≡ true

-- What adding, taking and flushing do to a usable queue and its jobs.
abbrev pub AddedUsable : QueueJob → ThreadQueue → Code × ThreadQueue → Type 0
AddedUsable j q (success, r) =
    Usable r × (r.total_jobs_in_queue ≡ suc q.total_jobs_in_queue) × Perm (queued r) (j ∷ queued q)
AddedUsable j q (failure, r) = (q.total_jobs_in_queue ≡ 4) × (r ≡ q)

pub add_new_task-Usable :
    (j : QueueJob) (q : ThreadQueue)
    → (j.cpu_slice_ms == 0) ≡ true
    → Usable q
    → AddedUsable j q (add_new_task (job j) q)
unfolding add_new_task
add_new_task-Usable j q e u =
    step (fill_slot j q.slots) (add_new_task-Added j q u.valid)
      (fill_slot-unsliced j q.slots e u.unsliced) (fill_slot-written j q.slots u.written)
  where
    step :
        (r : Option (List Slot))
        → Added j q (after_fill q r)
        → FilledUnsliced r
        → AllWritten r
        → AddedUsable j q (after_fill q r)
    step none a f w = a
    step (some rs) (x, n, v, p) f w = (record { valid = v; unsliced = f; written = w }, n, p)

abbrev pub PoppedUsable : ThreadQueue → Cell × ThreadQueue → Type 0
PoppedUsable q (null, r) = r ≡ q
PoppedUsable q (unset, r) = ⊥
PoppedUsable q (job j, r) =
    Usable r × ((j.cpu_slice_ms == 0) ≡ true) × Perm (queued q) (j ∷ queued r)

pub pop_job-Usable : (q : ThreadQueue) → Usable q → PoppedUsable q (pop_job q)
unfolding pop_job
pop_job-Usable q u =
    step (take_slot q.slots) (pop_job-Popped q u.valid) (take_slot-unsliced q.slots u.unsliced)
      (take_slot-written q.slots u.written)
  where
    step :
        (r : Option (Cell × List Slot))
        → Popped q (after_take q r)
        → TakenUnsliced r
        → TakenWritten r
        → PoppedUsable q (after_take q r)
    step none p t w = p.0
    step (some (null, rs)) p t w = p.0
    step (some (unset, rs)) p t w = p
    step (some (job j, rs)) (n, v, x, y, p, o) t w =
        (record { valid = v; unsliced = t.0; written = w }, t.1 j refl, p)

abbrev pub FlushedUsable : ThreadQueue → Option ThreadQueue → Type 0
FlushedUsable q none = ⊥
FlushedUsable q (some r) =
    Usable r × (queued r ≡ queued q) × (r.total_jobs_in_queue ≡ q.total_jobs_in_queue)

pub flush_finished_jobs-Usable :
    (q : ThreadQueue) → Usable q → FlushedUsable q (flush_finished_jobs q)
unfolding flush_finished_jobs
flush_finished_jobs-Usable q u = step (flush_slots q.slots) (flush_slots-Flushed q.slots u.written)
  where
    step :
        (r : Option (List Slot))
        → Flushed q.slots r
        → FlushedUsable q (elim r [ none ↦ none | some ss ↦ some (record q { slots = ss }) ])
    step none f = f
    step (some ss) (l, p, a, n, w, j) = (
      record {
        valid = record {
          four = l ∙ u.valid.four;
          head_in = u.valid.head_in;
          counted = u.valid.counted ∙ sym p;
          holds = a ∙ u.valid.holds;
        };
        unsliced = n ∙ u.unsliced;
        written = w;
      },
      j,
      refl,
    )
