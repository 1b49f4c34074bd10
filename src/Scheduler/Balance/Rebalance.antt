-- ===== src/Scheduler/Balance/Rebalance.antt =====
-- Rebalancing all queues: no job is lost or doubled, and usable queues stay so.
use mathlib.Core.List.{Perm}
use mathlib.Core.List.Perm
use worker_unit.Base.{
  ℕ, zero, suc, ◌+◌, ◌-◌, ◌≡◌, refl, ◌∙◌, Bool, true, false, Option, none, some, List, arith,
  length, ◌==◌, ltb, get_elem?, set, length-set, All, All-set, All-get_elem?, Bool-cases,
  Option-cases, inl, inr,
}
use worker_unit.Scheduler.Job.{QueueJob}
use worker_unit.Scheduler.ThreadQueue.{
  Cell, unset, null, job, ThreadQueue, Code, success, failure, add_new_task, pop_job,
  get_total_wait_time,
}
use worker_unit.Scheduler.ThreadQueue.Usable.{
  Usable, AddedUsable, add_new_task-Usable, PoppedUsable, pop_job-Usable,
}
use worker_unit.Scheduler.Balance.{
  popped, move_jobs, Rebalanced, stop, undefined, next, rebalance_round, rebalance_rounds,
  rebalance_thread_queues, get_empty_thread_queue, get_busiest_thread_queue, get_total_empty_slots,
}
use worker_unit.Scheduler.Balance.Moves.{both, shorter, full, shift-perm}
use worker_unit.Scheduler.Balance.Shares.{all_jobs, all_jobs-set_both}

abbrev pub MovedUsable :
    ThreadQueue → ThreadQueue → Option (Bool × ThreadQueue × ThreadQueue) → Type 0
MovedUsable idle busy none = ⊥
MovedUsable idle busy (some (ended, idle', busy')) =
    Usable idle' × Usable busy' × Perm (both idle' busy') (both idle busy)

-- A job that was popped goes to the other queue.
after_pop :
    (idle busy busy' : ThreadQueue) (j : QueueJob) (c : Code × ThreadQueue)
    (rest : Option (Bool × ThreadQueue × ThreadQueue))
    → Usable idle
    → Usable busy
    → ltb (get_total_wait_time idle) (get_total_wait_time busy) ≡ true
    → PoppedUsable busy (job j, busy')
    → AddedUsable j idle c
    → (Usable c.1 → MovedUsable c.1 busy' rest)
    → MovedUsable idle busy (elim c.0 [ success ↦ rest | failure ↦ some (true, c.1, busy') ])
after_pop idle busy busy' j (failure, r) rest u v e p (f, x) go =
    let s = shorter u.valid v.valid u.unsliced v.unsliced e in
    absurd (omega (arith, full busy v.valid))
after_pop idle busy busy' j (success, r) none u v e (w, k, p) (x, n, a) go = go x
after_pop idle busy busy' j (success, r) (some rest) u v e (w, k, p) (x, n, a) go =
    let (y, z, m) = go x in (y, z, Perm.trans m (shift-perm a p))

move_jobs-Usable :
    (fuel : ℕ) (idle busy : ThreadQueue)
    → Usable idle
    → Usable busy
    → MovedUsable idle busy (move_jobs fuel idle busy)
unfolding move_jobs add_new_task
move_jobs-Usable zero idle busy u v = (u, v, Perm.refl _)
move_jobs-Usable (suc fuel) idle busy u v =
    elim (Bool-cases (ltb (get_total_wait_time idle) (get_total_wait_time busy))) [
      | inr e ↦ rw e (u, v, Perm.refl _)
      | inl e ↦ rw e (round (pop_job busy) (pop_job-Usable busy v) e (move_jobs-Usable fuel))
    ]
  where
    round :
        (r : Cell × ThreadQueue)
        → PoppedUsable busy r
        → ltb (get_total_wait_time idle) (get_total_wait_time busy) ≡ true
        → ((p q : ThreadQueue) → Usable p → Usable q → MovedUsable p q (move_jobs fuel p q))
        → MovedUsable idle busy (
            popped r.0 (elim (add_new_task r.0 idle).0 [
              | success ↦ move_jobs fuel (add_new_task r.0 idle).1 r.1
              | failure ↦ some (true, (add_new_task r.0 idle).1, r.1)
            ]))
    round (null, q) p e go = rw p (u, v, Perm.refl _)
    round (unset, q) p e go = absurd p
    round (job j, q) p e go =
        after_pop idle busy q j (add_new_task (job j) idle) _ u v e p
          (add_new_task-Usable j idle p.1 u) (λ w. go _ q w p.0)

-- Queues with the jobs that they had before.
abbrev pub Kept : List ThreadQueue → List ThreadQueue → Type 0
Kept qs rs = All Usable rs × (length rs ≡ length qs) × Perm (all_jobs rs) (all_jobs qs)

Kept-refl : (qs : List ThreadQueue) → All Usable qs → Kept qs qs
Kept-refl qs a = (a, refl, Perm.refl _)

abbrev pub KeptIf : List ThreadQueue → Rebalanced → Type 0
KeptIf qs stop = Unit
KeptIf qs undefined = ⊥
KeptIf qs (next rs) = Kept qs rs

-- The queues are defined and kept.
abbrev pub KeptBy : List ThreadQueue → Option (List ThreadQueue) → Type 0
KeptBy qs none = ⊥
KeptBy qs (some rs) = Kept qs rs

moved-Kept :
    (qs : List ThreadQueue) (i k : ℕ) (idle busy : ThreadQueue)
    (r : Option (Bool × ThreadQueue × ThreadQueue))
    → All Usable qs
    → (k == i) ≡ false
    → get_elem? qs i ≡ some idle
    → get_elem? qs k ≡ some busy
    → MovedUsable idle busy r
    → KeptIf qs
        (elim r [ none ↦ undefined | some (_, idle', busy') ↦ next (set (set qs i idle') k busy') ])
moved-Kept qs i k idle busy none a n e f m = m
moved-Kept qs i k idle busy (some (ended, x, y)) a n e f (u, v, p) = (
  All-set Usable (set qs i x) k v (All-set Usable qs i u a),
  length-set (set qs i x) k y ∙ length-set qs i x,
  all_jobs-set_both qs i k x y (λ d. ground arith) e f p,
)

rebalance_round-Kept : (qs : List ThreadQueue) → All Usable qs → KeptIf qs (rebalance_round qs)
unfolding rebalance_round
rebalance_round-Kept qs a = elim (Option-cases (get_empty_thread_queue qs)) [
  | inl e ↦ rw (rebalance_round, e) tt
  | inr (i, e) ↦ elim (Option-cases (get_busiest_thread_queue qs)) [
    | inl f ↦ rw (rebalance_round, e, f) tt
    | inr (k, f) ↦ elim (Bool-cases (k == i)) [
      | inl n ↦ rw (rebalance_round, e, f, n) tt
      | inr n ↦ elim (Option-cases (get_elem? qs i)) [
        | inl g ↦ rw (rebalance_round, e, f, n, g) tt
        | inr (idle, g) ↦ elim (Option-cases (get_elem? qs k)) [
          | inl h ↦ rw (rebalance_round, e, f, n, g, h) tt
          | inr (busy, h) ↦
              rw (rebalance_round, e, f, n, g, h)
                (moved-Kept qs i k idle busy (move_jobs (busy.total_jobs_in_queue + 1) idle busy) a
                  n g h
                  (move_jobs-Usable (busy.total_jobs_in_queue + 1) idle busy
                    (All-get_elem? Usable qs i g a) (All-get_elem? Usable qs k h a)))
        ]
      ]
    ]
  ]
]

KeptBy-trans :
    (qs rs : List ThreadQueue) (o : Option (List ThreadQueue))
    → Kept qs rs
    → KeptBy rs o
    → KeptBy qs o
KeptBy-trans qs rs none k m = m
KeptBy-trans qs rs (some ts) (u, l, p) (v, m, q) = (v, m ∙ l, Perm.trans q p)

rebalance_rounds-Kept :
    (n : ℕ) (qs : List ThreadQueue) → All Usable qs → KeptBy qs (rebalance_rounds n qs)
unfolding rebalance_rounds
rebalance_rounds-Kept zero qs a = Kept-refl qs a
rebalance_rounds-Kept (suc n) qs a =
    step (rebalance_round qs) (rebalance_round-Kept qs a) (rebalance_rounds-Kept n)
  where
    step :
        (o : Rebalanced)
        → KeptIf qs o
        → ((rs : List ThreadQueue) → All Usable rs → KeptBy rs (rebalance_rounds n rs))
        → KeptBy qs (elim o [ stop ↦ some qs | undefined ↦ none | next rs ↦ rebalance_rounds n rs ])
    step stop k go = Kept-refl qs a
    step undefined k go = k
    step (next rs) k go = KeptBy-trans qs rs (rebalance_rounds n rs) k (go rs k.0)

-- `rebalance_thread_queues` keeps usable queues usable, and together they hold the jobs that they
-- held before, no one lost or doubled.
pub rebalance_thread_queues-Kept :
    (qs : List ThreadQueue) → All Usable qs → KeptBy qs (rebalance_thread_queues qs)
unfolding rebalance_thread_queues
rebalance_thread_queues-Kept qs a = elim (Bool-cases (get_total_empty_slots qs == 0)) [
  | inl e ↦ rw e (Kept-refl qs a)
  | inr e ↦ rw e (rebalance_rounds-Kept (length qs - 1) qs a)
]
