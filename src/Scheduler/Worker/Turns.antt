-- ===== src/Scheduler/Worker/Turns.antt =====
-- The inner loop of a task thread: how a job's results decide when it is left.
use worker_unit.Base.{
  ◌≡◌, ◌≢◌, refl, ◌∙◌, Bool, true, false, Option, none, some, List, [], ◌∷◌, arith, All,
}
use worker_unit.Scheduler.Job.{
  JobStatus, job_running, job_pending, job_failed, job_done, job_waiting, job_finalized, QueueJob,
  set_job_status, is_job_status_set,
}
use worker_unit.Scheduler.Worker.{start_proc, JobTimer, Round, Leave, after_start, run_rounds, tick}

-- Only `start_proc` was called.
abbrev pub OnlyStarts : Option Leave → Type 0
OnlyStarts none = Unit
OnlyStarts (some l) = All (λ c. c ≡ start_proc) l.calls

after_start-OnlyStarts :
    (t : JobTimer) (j : QueueJob) (unused : List Round) (again : Option Leave)
    → t.job_should_pause ≡ false
    → OnlyStarts again
    → OnlyStarts (after_start t j unused again)
unfolding after_start
after_start-OnlyStarts t j unused none p h = ground arith
after_start-OnlyStarts t j unused (some l) p h = ground arith

pub tick-keeps :
    (expired : Bool) (t : JobTimer)
    → t.job_should_pause ≡ false
    → (tick expired t).job_should_pause ≡ false
unfolding tick
tick-keeps expired t p = ground arith

-- One entry of the loop while the timer does not ask for a pause.
pub run_rounds-cons :
    (t : JobTimer) (j : QueueJob) (r : Round) (rs : List Round)
    → t.job_should_pause ≡ false
    → run_rounds t j (r ∷ rs)
      ≡ after_start
          (tick r.expired t)
          (set_job_status r.result j)
          rs
          (run_rounds (tick r.expired t) (set_job_status r.result j) rs)
unfolding run_rounds
run_rounds-cons t j r rs p = simp p

-- Whatever the time slice, whenever the timer runs out and whatever the job returns, the loop calls
-- nothing but `start_proc`, as long as no pause was asked for on entry: a running job is never paused.
pub run_rounds-OnlyStarts :
    (t : JobTimer) (j : QueueJob) (rs : List Round)
    → t.job_should_pause ≡ false
    → OnlyStarts (run_rounds t j rs)
run_rounds-OnlyStarts t j [] p = unfold run_rounds in simp p tt
run_rounds-OnlyStarts t j (r ∷ rs) p = rw (run_rounds-cons t j r rs p) (
    after_start-OnlyStarts (tick r.expired t) (set_job_status r.result j) rs _
      (tick-keeps r.expired t p)
      (run_rounds-OnlyStarts (tick r.expired t) (set_job_status r.result j) rs
        (tick-keeps r.expired t p)))

abbrev pub HasResult : JobStatus → Round → Type 0
HasResult s r = r.result ≡ s

-- Whether a status of the job is set, after a call returned `result`.
pub pending-stays :
    (j : QueueJob) (result : JobStatus)
    → is_job_status_set job_pending j ≡ true
    → is_job_status_set job_pending (set_job_status result j) ≡ true
unfolding is_job_status_set set_job_status
pending-stays j job_running h = h
pending-stays j job_pending h = refl
pending-stays j job_waiting h = h
pending-stays j job_failed h = h
pending-stays j job_finalized h = h
pending-stays j job_done h = h

pub done-stays_off :
    (j : QueueJob) (result : JobStatus)
    → result ≢ job_done
    → is_job_status_set job_done j ≡ false
    → is_job_status_set job_done (set_job_status result j) ≡ false
unfolding is_job_status_set set_job_status
done-stays_off j job_running n h = h
done-stays_off j job_pending n h = h
done-stays_off j job_waiting n h = h
done-stays_off j job_failed n h = h
done-stays_off j job_finalized n h = h
done-stays_off j job_done n h = absurd (n refl)

pub after_start-again :
    (t : JobTimer) (j : QueueJob) (unused : List Round) (again : Option Leave)
    → t.job_should_pause ≡ false
    → is_job_status_set job_pending j ≡ true
    → is_job_status_set job_done j ≡ false
    → after_start t j unused again
      ≡ (elim again [ none ↦ none | some l ↦ some (record l { calls = start_proc ∷ l.calls }) ])
unfolding after_start is_job_status_set
after_start-again t j unused none p q d = ground arith
after_start-again t j unused (some l) p q d = ground arith

-- A job that has returned `JOB_PENDING` once, and has not returned `JOB_DONE`, never leaves the
-- loop before it returns `JOB_DONE`: `JOB_FAILED` does not end it, nor does the timer.
pub run_rounds_sticky :
    (t : JobTimer) (j : QueueJob) (rs : List Round)
    → t.job_should_pause ≡ false
    → is_job_status_set job_pending j ≡ true
    → is_job_status_set job_done j ≡ false
    → All (λ r. r.result ≢ job_done) rs
    → run_rounds t j rs ≡ none
run_rounds_sticky t j [] p q d a = unfold run_rounds in simp p
run_rounds_sticky t j (r ∷ rs) p q d a =
    let j' = set_job_status r.result j in
    let q' = pending-stays j r.result q in
    let d' = done-stays_off j r.result a.0 d in
    let p' = tick-keeps r.expired t p in
    run_rounds-cons t j r rs p
    ∙ after_start-again (tick r.expired t) j' rs _ p' q' d'
    ∙ rw (run_rounds_sticky (tick r.expired t) j' rs p' q' d' a.1)
