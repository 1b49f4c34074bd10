-- ===== src/Scheduler/Balance/Shares.antt =====
-- The jobs of all queues together, when one or two of the queues change.
use mathlib.Core.List.{Perm, perm_append_comm, append_assoc}
use mathlib.Core.List.Perm
use worker_unit.Base.Perms.{swap_front}
use worker_unit.Base.{
  ℕ, zero, suc, ◌≡◌, ◌≢◌, refl, sym, ap, subst, some, List, [], ◌∷◌, ◌++◌, get_elem?, set,
}
use worker_unit.Scheduler.Job.{QueueJob}
use worker_unit.Scheduler.ThreadQueue.{ThreadQueue}
use worker_unit.Scheduler.ThreadQueue.Invariant.{queued}
use worker_unit.Scheduler.Balance.Moves.{both}

abbrev pub all_jobs : List ThreadQueue → List QueueJob
all_jobs [] = []
all_jobs (q ∷ qs) = queued q ++ all_jobs qs

-- Those of the queues but the one at the index.
abbrev pub others : ℕ → List ThreadQueue → List QueueJob
others i [] = []
others zero (q ∷ qs) = all_jobs qs
others (suc i) (q ∷ qs) = queued q ++ others i qs

pub all_jobs-others :
    (qs : List ThreadQueue) (i : ℕ) {q : ThreadQueue}
    → get_elem? qs i ≡ some q
    → Perm (all_jobs qs) (queued q ++ others i qs)
all_jobs-others [] i e = absurd (cc)
all_jobs-others (p ∷ qs) zero {q} e =
    let d : p ≡ q = cc in
    subst (λ x. Perm (all_jobs (p ∷ qs)) (queued x ++ all_jobs qs)) d (Perm.refl _)
all_jobs-others (p ∷ qs) (suc i) {q} e =
    Perm.trans (Perm.append_left (queued p) (all_jobs-others qs i e))
      (swap_front (queued p) (queued q) _)

pub all_jobs-set :
    (qs : List ThreadQueue) (i : ℕ) {q : ThreadQueue} (r : ThreadQueue)
    → get_elem? qs i ≡ some q
    → Perm (all_jobs (set qs i r)) (queued r ++ others i qs)
all_jobs-set [] i r e = absurd (cc)
all_jobs-set (p ∷ qs) zero r e = Perm.refl _
all_jobs-set (p ∷ qs) (suc i) r e =
    Perm.trans (Perm.append_left (queued p) (all_jobs-set qs i r e))
      (swap_front (queued p) (queued r) _)

-- A queue that gets one job more.
pub all_jobs-set_cons :
    (qs : List ThreadQueue) (i : ℕ) (q r : ThreadQueue) (j : QueueJob)
    → get_elem? qs i ≡ some q
    → Perm (queued r) (j ∷ queued q)
    → Perm (all_jobs (set qs i r)) (j ∷ all_jobs qs)
all_jobs-set_cons qs i q r j e p = Perm.trans (all_jobs-set qs i r e) (
    Perm.trans (Perm.append_right (others i qs) p)
      (Perm.cons j (Perm.symm (all_jobs-others qs i e))))

-- In front of the same jobs.
regroup :
    (a b a' b' rest : List QueueJob) {xs ys : List QueueJob}
    → Perm (a' ++ b') (a ++ b)
    → Perm xs (b' ++ rest)
    → Perm ys (b ++ rest)
    → Perm (a' ++ xs) (a ++ ys)
regroup a b a' b' rest {xs} {ys} p x y = Perm.trans (Perm.append_left a' x) (
    Perm.trans
      (subst (λ l. Perm l (a ++ (b ++ rest))) (append_assoc a' b' rest)
        (subst (λ l. Perm ((a' ++ b') ++ rest) l) (append_assoc a b rest)
          (Perm.append_right rest p)))
      (Perm.append_left a (Perm.symm y)))

-- Two queues that have their jobs between them as before.
pub all_jobs-set_both :
    (qs : List ThreadQueue) (i k : ℕ) {a b : ThreadQueue} (a' b' : ThreadQueue)
    → i ≢ k
    → get_elem? qs i ≡ some a
    → get_elem? qs k ≡ some b
    → Perm (both a' b') (both a b)
    → Perm (all_jobs (set (set qs i a') k b')) (all_jobs qs)
all_jobs-set_both [] i k a' b' n e f p = absurd (cc)
all_jobs-set_both (q ∷ qs) zero zero a' b' n e f p = absurd (n refl)
all_jobs-set_both (q ∷ qs) zero (suc k) {a} {b} a' b' n e f p =
    let d : q ≡ a = cc in
    subst (λ x. Perm (queued a' ++ all_jobs (set qs k b')) (queued x ++ all_jobs qs)) (sym d)
      (regroup (queued a) (queued b) (queued a') (queued b') _ p (all_jobs-set qs k b' f)
        (all_jobs-others qs k f))
all_jobs-set_both (q ∷ qs) (suc i) zero {a} {b} a' b' n e f p =
    let d : q ≡ b = cc in
    subst (λ x. Perm (queued b' ++ all_jobs (set qs i a')) (queued x ++ all_jobs qs)) (sym d)
      (regroup (queued b) (queued a) (queued b') (queued a') _
        (Perm.trans (perm_append_comm (queued b') (queued a'))
          (Perm.trans p (perm_append_comm (queued a) (queued b))))
        (all_jobs-set qs i a' e) (all_jobs-others qs i e))
all_jobs-set_both (q ∷ qs) (suc i) (suc k) a' b' n e f p =
    Perm.append_left (queued q) (all_jobs-set_both qs i k a' b' (λ x. n (ap suc x)) e f p)
