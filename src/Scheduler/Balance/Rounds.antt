-- ===== src/Scheduler/Balance/Rounds.antt =====
-- A round of the scheduler thread from the task pool to the thread queues.
use mathlib.Core.List.{Perm}
use mathlib.Core.List.Perm
use worker_unit.Base.{
  suc, ◌≡◌, refl, sym, ap, ◌∙◌, subst, true, Option, none, some, List, [], ◌∷◌, ◌++◌, map, arith,
  length, ◌==◌, All, inl, inr,
}
use worker_unit.Scheduler.ThreadQueue.{ThreadQueue, flush_finished_jobs}
use worker_unit.Scheduler.ThreadQueue.Invariant.{queued}
use worker_unit.Scheduler.ThreadQueue.Usable.{Usable, FlushedUsable, flush_finished_jobs-Usable}
use worker_unit.Scheduler.TaskPool.{TaskData}
use worker_unit.Scheduler.Balance.{
  hand_out, flush_all, sched_round, get_total_empty_slots, rebalance_thread_queues,
}
use worker_unit.Scheduler.Balance.Shares.{all_jobs}
use worker_unit.Scheduler.Balance.HandOut.{Typed, job_of, IsFull, Handed, hand_out-Handed}
use worker_unit.Scheduler.Balance.Rebalance.{KeptBy, rebalance_thread_queues-Kept}

abbrev pub FlushedAll : List ThreadQueue → Option (List ThreadQueue) → Type 0
FlushedAll qs none = ⊥
FlushedAll qs (some rs) =
    All Usable rs
    × (length rs ≡ length qs)
    × (all_jobs rs ≡ all_jobs qs)
    × (get_total_empty_slots rs ≡ get_total_empty_slots qs)

flush_all-Flushed : (qs : List ThreadQueue) → All Usable qs → FlushedAll qs (flush_all qs)
unfolding flush_all get_total_empty_slots
flush_all-Flushed [] u = (tt, refl, refl, refl)
flush_all-Flushed (q ∷ qs) (u, us) =
    step (flush_finished_jobs q) (flush_all qs) (flush_finished_jobs-Usable q u)
      (flush_all-Flushed qs us)
  where
    step :
        (o : Option ThreadQueue) (r : Option (List ThreadQueue))
        → FlushedUsable q o
        → FlushedAll qs r
        → FlushedAll
            (q ∷ qs)
            (elim o [ none ↦ none | some p ↦ elim r [ none ↦ none | some rs ↦ some (p ∷ rs) ] ])
    step none r f g = f
    step (some p) none f g = g
    step (some p) (some rs) (v, j, t) (vs, l, js, e) =
        ((v, vs), ap suc l, ap (λ x. x ++ all_jobs rs) j ∙ ap (λ x. queued q ++ x) js, omega arith)

no_slot_left : (qs : List ThreadQueue) → All IsFull qs → get_total_empty_slots qs ≡ 0
unfolding get_total_empty_slots
no_slot_left [] a = refl
no_slot_left (q ∷ qs) (a, as') = omega (arith, no_slot_left qs as')

rebalance-full : (qs : List ThreadQueue) → All IsFull qs → rebalance_thread_queues qs ≡ some qs
unfolding rebalance_thread_queues
rebalance-full qs a =
    let e : (get_total_empty_slots qs == 0) ≡ true = ground (arith, no_slot_left qs a) in rw e refl

some-injective : {a b : List ThreadQueue} → some a ≡ some b → a ≡ b
some-injective e = cc

Handed-Kept :
    (pool : List TaskData) (qs rs ss : List ThreadQueue) (o : Option (List ThreadQueue))
    (pool' : List TaskData)
    → length rs ≡ length qs
    → all_jobs rs ≡ all_jobs qs
    → Handed pool rs (some (pool', ss))
    → KeptBy ss o
    → (All IsFull ss → o ≡ some ss)
    → Handed pool qs (elim o [ none ↦ none | some ts ↦ some (pool', ts) ])
Handed-Kept pool qs rs ss none pool' l j h k f = k
Handed-Kept pool qs rs ss (some ts) pool' l j (u, m, (taken, e, p), o) (v, k, r) f = (
  v,
  k ∙ m ∙ l,
  (taken, e, Perm.trans r (subst (λ x. Perm (all_jobs ss) (map job_of taken ++ x)) j p)),
  elim o [ inl x ↦ inl x | inr a ↦ inr (subst (All IsFull) (sym (some-injective (f a))) a) ],
)

-- A round of the scheduler thread on usable queues and a pool of tasks with a process type never
-- fails. It makes jobs of tasks from the front of the pool, and no others; every job that was queued
-- before and every new one is queued afterwards exactly once, by whichever thread; and no task keeps
-- waiting while a queue has a free slot.
pub sched_round-Handed :
    (pool : List TaskData) (qs : List ThreadQueue)
    → All Typed pool
    → All Usable qs
    → Handed pool qs (sched_round pool qs)
unfolding sched_round
sched_round-Handed pool qs h u = step (flush_all qs) (flush_all-Flushed qs u)
  where
    rebalanced :
        (rs : List ThreadQueue) (o : Option (List TaskData × List ThreadQueue))
        → length rs ≡ length qs
        → all_jobs rs ≡ all_jobs qs
        → Handed pool rs o
        → Handed pool qs (elim o [
          | none ↦ none
          | some (pool', ss) ↦ elim (rebalance_thread_queues ss) [
            | none ↦ none
            | some ts ↦ some (pool', ts)
          ]
        ])
    rebalanced rs none l j a = a
    rebalanced rs (some (pool', ss)) l j a =
        Handed-Kept pool qs rs ss (rebalance_thread_queues ss) pool' l j a
          (rebalance_thread_queues-Kept ss a.0) (rebalance-full ss)

    step :
        (r : Option (List ThreadQueue))
        → FlushedAll qs r
        → Handed pool qs (elim r [
          | none ↦ none
          | some rs ↦ elim (hand_out (get_total_empty_slots qs) pool rs) [
            | none ↦ none
            | some (pool', ss) ↦ elim (rebalance_thread_queues ss) [
              | none ↦ none
              | some ts ↦ some (pool', ts)
            ]
          ]
        ])
    step none f = f
    step (some rs) (v, l, j, e) =
        rebalanced rs (hand_out (get_total_empty_slots qs) pool rs) l j
          (hand_out-Handed (get_total_empty_slots qs) pool rs h v (omega arith))
