-- ===== src/Scheduler/Worker/Outcome.antt =====
-- How a job that is done leaves the loop.
use worker_unit.Base.{
  ℕ, zero, suc, ◌≡◌, refl, ap, ◌∙◌, true, false, ◌||◌, Option, some, List, [], ◌∷◌, ◌++◌, arith,
  All, length,
}
use worker_unit.Scheduler.Job.{
  job_pending, job_failed, job_done, QueueJob, set_job_status, is_job_status_set,
}
use worker_unit.Scheduler.Worker.{
  Call, start_proc, JobTimer, Round, Leave, after_start, run_rounds, tick,
}
use worker_unit.Scheduler.Worker.Turns.{
  tick-keeps, run_rounds-cons, after_start-again, done-stays_off,
}

-- `n` calls of `start_proc`.
abbrev pub starts : ℕ → List Call
starts zero = []
starts (suc n) = start_proc ∷ starts n

after_start-done :
    (t : JobTimer) (j : QueueJob) (unused : List Round) (again : Option Leave)
    → let j' = set_job_status job_done j in
      after_start t j' unused again
      ≡ some (record {
        left = record j' {
          job_error_handle = is_job_status_set job_failed j || j.job_error_handle;
        };
        calls = start_proc ∷ [];
        unused = unused;
      })
unfolding after_start set_job_status is_job_status_set
after_start-done t j unused again = ground arith

pend-keeps :
    (j : QueueJob)
    → (is_job_status_set job_failed (set_job_status job_pending j)
        || (set_job_status job_pending j).job_error_handle)
      ≡ (is_job_status_set job_failed j || j.job_error_handle)
unfolding set_job_status is_job_status_set
pend-keeps j = refl

done-set :
    (j : QueueJob)
    → is_job_status_set job_done (record (set_job_status job_done j) {
      job_error_handle = is_job_status_set job_failed j || j.job_error_handle;
    })
      ≡ true
unfolding set_job_status is_job_status_set
done-set j = refl

-- A job that returns `JOB_PENDING` for the calls `rs` and then `JOB_DONE` leaves the loop there,
-- after one `start_proc` for each, marked as done; its error handle is set exactly if it was set
-- before or the job had failed in an earlier turn. The later results are not asked for.
pub run_rounds_done :
    (t : JobTimer) (j : QueueJob) (rs : List Round) (r : Round) (more : List Round)
    → t.job_should_pause ≡ false
    → is_job_status_set job_done j ≡ false
    → All (λ x. x.result ≡ job_pending) rs
    → r.result ≡ job_done
    → (l : Leave) × (run_rounds t j (rs ++ (r ∷ more)) ≡ some l)
      × (l.calls ≡ starts (suc (length rs)))
      × (l.unused ≡ more)
      × (is_job_status_set job_done l.left ≡ true)
      × (l.left.job_error_handle ≡ (is_job_status_set job_failed j || j.job_error_handle))
run_rounds_done t j [] r more p d a e = (
  record {
    left = record (set_job_status job_done j) {
      job_error_handle = is_job_status_set job_failed j || j.job_error_handle;
    };
    calls = start_proc ∷ [];
    unused = more;
  },
  run_rounds-cons t j r more p ∙ rw e (after_start-done (tick r.expired t) j more _),
  refl,
  refl,
  done-set j,
  refl,
)
run_rounds_done t j (x ∷ rs) r more p d a e =
    let j' = set_job_status job_pending j in
    let p' = tick-keeps x.expired t p in
    let d' = done-stays_off j job_pending (λ h. cc) d in
    let (l, run, calls, unused, fin, err) =
      run_rounds_done (tick x.expired t) j' rs r more p' d' a.1 e in
    (
      record l { calls = start_proc ∷ l.calls },
      run_rounds-cons t j x (rs ++ (r ∷ more)) p
          ∙ rw a.0 (
              after_start-again (tick x.expired t) j' (rs ++ (r ∷ more)) _ p'
                (unfold set_job_status is_job_status_set in refl) d'
              ∙ rw run),
      ap (◌∷◌ start_proc) calls,
      unused,
      fin,
      (err ∙ pend-keeps j),
    )
