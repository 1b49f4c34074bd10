-- ===== src/Scheduler/Worker/Finish.antt =====
-- The turn in which a task thread ends a job.
use worker_unit.Base.{
  ℕ, zero, suc, ◌-◌, ◌<◌, ◌≡◌, refl, sym, subst, ap, ◌∙◌, true, false, some, List, [], ◌∷◌, arith,
  if_true, if◌then◌else◌, length, length-set, set,
}
use worker_unit.Scheduler.Job.{QueueJob, job_done, set_job_status}
use worker_unit.Scheduler.ThreadQueue.{
  Slot, Cell, job, ThreadQueue, slot_at, close_slot, mark_cell, mark_task_as_complete,
}
use worker_unit.Scheduler.ThreadQueue.Slots.{pending, all_hold}
use worker_unit.Scheduler.ThreadQueue.Invariant.{IsValid}
use worker_unit.Scheduler.Registry.{ProcessManager, registered, erase_entry, unregister_process}
use worker_unit.Scheduler.Worker.{
  fail_proc, end_proc, Turn, idle, running, undefined, turned, store_job, finish_job, mark_finished,
  after_mark, last_call,
}

set-set : (ss : List Slot) (i : ℕ) (a b : Slot) → set (set ss i a) i b ≡ set ss i b
set-set [] i a b = refl
set-set (s ∷ ss) zero a b = refl
set-set (s ∷ ss) (suc i) a b = ap (λ t. s ∷ t) (set-set ss i a b)

slot_at-set : (ss : List Slot) (i : ℕ) (a : Slot) → i < length ss → slot_at (set ss i a) i ≡ a
slot_at-set [] i a h = absurd (omega arith)
slot_at-set (s ∷ ss) zero a h = refl
slot_at-set (s ∷ ss) (suc i) a h = slot_at-set ss i a (omega arith)

-- Closing an occupied slot takes one from the number of occupied slots.
pending-set :
    (ss : List Slot) (i : ℕ) (c : Cell)
    → (slot_at ss i).is_done ≡ false
    → pending ss ≡ suc (pending (set ss i (record { is_done = true; cell = c })))
pending-set [] i c h = absurd (cc)
pending-set (s ∷ ss) zero c h = simp h refl
pending-set (s ∷ ss) (suc i) c h = ground (arith, pending-set ss i c h)

all_hold-set :
    (ss : List Slot) (i : ℕ) (c : Cell)
    → all_hold ss ≡ true
    → all_hold (set ss i (record { is_done = true; cell = c })) ≡ true
all_hold-set [] i c h = h
all_hold-set (s ∷ ss) zero c h = ground arith
all_hold-set (s ∷ ss) (suc i) c h = ground (arith, all_hold-set ss i c)

-- The queue with its head slot closed over the ended job.
abbrev pub closed : QueueJob → ThreadQueue → ThreadQueue
closed j q = record q {
  slots = set q.slots q.head (record { is_done = true; cell = job (set_job_status job_done j) });
  total_jobs_in_queue = q.total_jobs_in_queue - 1;
}

pub mark-store_job :
    (j : QueueJob) (q : ThreadQueue)
    → q.head < length q.slots
    → mark_task_as_complete (store_job j q) ≡ some (closed j q)
unfolding mark_task_as_complete
mark-store_job j q h =
    ap (λ s. close_slot (mark_cell s.cell) (store_job j q))
      (slot_at-set q.slots q.head (record { is_done = false; cell = job j }) h)
    ∙ ap (λ ss. some (record q { slots = ss; total_jobs_in_queue = q.total_jobs_in_queue - 1 }))
        (set-set q.slots q.head (record { is_done = false; cell = job j })
          (record { is_done = true; cell = job (set_job_status job_done j) }))

closed-IsValid :
    (j : QueueJob) (q : ThreadQueue)
    → IsValid q
    → (slot_at q.slots q.head).is_done ≡ false
    → IsValid (closed j q) × (q.total_jobs_in_queue ≡ suc (closed j q).total_jobs_in_queue)
closed-IsValid j q v h =
    let c = job (set_job_status job_done j) in
    let p = pending-set q.slots q.head c h in
    let e = v.counted in
    (
      record {
        four = length-set q.slots q.head _ ∙ v.four;
        head_in = v.head_in;
        counted = omega arith;
        holds = all_hold-set q.slots q.head c v.holds;
      },
      omega arith,
    )

-- What becomes of the queue, the registry and the job.
abbrev pub Finished : QueueJob → ThreadQueue → ProcessManager → Turn → Type 0
Finished j q m (idle r) = ⊥
Finished j q m running = ⊥
Finished j q m undefined = ⊥
Finished j q m (turned r m' calls freed_write) =
    IsValid r
    × (q.total_jobs_in_queue ≡ suc r.total_jobs_in_queue)
    × (calls ≡ (if j.job_error_handle then fail_proc else end_proc) ∷ [])
    × (m'.pid_vector ≡ erase_entry j.process_table.address m.pid_vector)
    × (freed_write ≡ true)

unregistered :
    (j : QueueJob) (m : ProcessManager)
    → registered j.process_table.address m.pid_vector ≡ true
    → unregister_process j.process_table m ≡ (
      record j.process_table { freed = true },
      record m { pid_vector = erase_entry j.process_table.address m.pid_vector },
    )
unfolding unregister_process
unregistered j m h = if_true _ _ _ h

-- When a job that is done comes up in a valid queue, exactly one of its functions is called: the one
-- for failures if its error handle is set, and its end function otherwise. The job leaves the queue,
-- which stays valid, and the registry, if it was registered; and then its process table is written
-- although it has been deleted.
pub finish_job-Finished :
    (j : QueueJob) (q : ThreadQueue) (m : ProcessManager)
    → IsValid q
    → (slot_at q.slots q.head).is_done ≡ false
    → registered j.process_table.address m.pid_vector ≡ true
    → Finished j q m (finish_job j q m)
unfolding finish_job
finish_job-Finished j q m v h e =
    let f = v.four in
    let i = v.head_in in
    let freed : QueueJob = record j { process_table = record j.process_table { freed = true } } in
    let (w, p) = closed-IsValid freed q v h in
    subst (Finished j q m)
      (sym (
        ap (mark_finished j q) (unregistered j m e)
        ∙ ap (after_mark (last_call j) _ true) (mark-store_job freed q (omega arith))))
      (w, p, refl, refl, refl)
