-- ===== src/Scheduler/Balance/Choice.antt =====
-- Which queue the scheduler chooses.
use worker_unit.Base.{
  ℕ, suc, ◌+◌, ◌≤◌, ◌<◌, ◌≡◌, ◌⊎◌, refl, Bool, true, false, Option, none, some, List, [], ◌∷◌,
  arith, inl, inr, if◌then◌else◌, get_elem?, All, ap, ◌++◌, length,
}
use worker_unit.Scheduler.ThreadQueue.{ThreadQueue, get_total_wait_time}
use worker_unit.Scheduler.Balance.{
  quickest_from, get_quickest_queue, is_quicker, int_max, busiest_from, get_busiest_thread_queue,
  is_busier,
}

-- A queue with four jobs, or one whose waiting time is at least `w`.
abbrev pub NotBelow : ℕ → ThreadQueue → Type 0
NotBelow w q = (4 ≤ q.total_jobs_in_queue) ⊎ (w ≤ get_total_wait_time q)

NotBelow-mono :
    {v w : ℕ} (qs : List ThreadQueue) → v ≤ w → All (NotBelow w) qs → All (NotBelow v) qs
NotBelow-mono [] h a = tt
NotBelow-mono (q ∷ qs) h a = (ground arith, NotBelow-mono qs h a.1)

abbrev pub Found : ℕ → Option ℕ → ℕ → List ThreadQueue → Option ℕ × ℕ → Type 0
Found i best lowest qs (best', lowest') =
    (lowest' ≤ lowest)
    × All (NotBelow lowest') qs
    × (((best' ≡ best) × (lowest' ≡ lowest))
        ⊎ ((k : ℕ) × (q : ThreadQueue) × (get_elem? qs k ≡ some q)
            × (best' ≡ some (i + k))
            × (lowest' ≡ get_total_wait_time q)
            × (q.total_jobs_in_queue < 4)
            × (lowest' < lowest)))

quickest-step :
    (i : ℕ) (best : Option ℕ) (lowest : ℕ) (q : ThreadQueue) (qs : List ThreadQueue) (b : Bool)
    (r : Option ℕ × ℕ)
    → is_quicker q lowest ≡ b
    → Found (i + 1) (if b then some i else best) (if b then get_total_wait_time q else lowest) qs r
    → Found i best lowest (q ∷ qs) r
quickest-step i best lowest q qs true r e (le, all, inl (x, y)) = (
  ground arith,
  (inr (omega arith), all),
  inr (0, q, refl, ground arith, y, ground arith, ground arith),
)
quickest-step i best lowest q qs true r e (le, all, inr (k, p, g, x, y, t, l)) =
    (ground arith, (inr (omega arith), all), inr (suc k, p, g, ground arith, y, t, ground arith))
quickest-step i best lowest q qs false r e (le, all, inl (x, y)) =
    (le, (ground arith, all), inl (x, y))
quickest-step i best lowest q qs false r e (le, all, inr (k, p, g, x, y, t, l)) =
    (le, (ground arith, all), inr (suc k, p, g, ground arith, y, t, l))

quickest_from-Found :
    (i : ℕ) (best : Option ℕ) (lowest : ℕ) (qs : List ThreadQueue)
    → Found i best lowest qs (quickest_from i best lowest qs)
unfolding quickest_from
quickest_from-Found i best lowest [] = (omega arith, tt, inl (refl, refl))
quickest_from-Found i best lowest (q ∷ qs) =
    quickest-step i best lowest q qs (is_quicker q lowest) _ refl (
      quickest_from-Found (i + 1) (if is_quicker q lowest then some i else best)
        (if is_quicker q lowest then get_total_wait_time q else lowest) qs)

abbrev pub Quickest : List ThreadQueue → Option ℕ → Type 0
Quickest qs none = All (NotBelow int_max) qs
Quickest qs (some k) =
    (q : ThreadQueue) × (get_elem? qs k ≡ some q)
    × (q.total_jobs_in_queue < 4)
    × All (NotBelow (get_total_wait_time q)) qs

Quickest-of-Found :
    (qs : List ThreadQueue) (r : Option ℕ × ℕ) → Found 0 none int_max qs r → Quickest qs r.0
Quickest-of-Found qs (none, w) (le, all, inl (x, y)) = rw (← y) all
Quickest-of-Found qs (none, w) (le, all, inr (k, q, g, x, y, t, l)) = cc
Quickest-of-Found qs (some n, w) (le, all, inl (x, y)) = cc
Quickest-of-Found qs (some n, w) (le, all, inr (k, q, g, x, y, t, l)) =
    let e : n ≡ k = ground arith in (q, rw e g, t, rw (← y) all)

-- `get_quickest_queue` names a queue with a free slot whose waiting time is least among the queues
-- with a free slot; it gives -1 only if every queue has four jobs or waits for INT_MAX or more.
pub get_quickest_queue-Quickest : (qs : List ThreadQueue) → Quickest qs (get_quickest_queue qs)
unfolding get_quickest_queue
get_quickest_queue-Quickest qs = Quickest-of-Found qs _ (quickest_from-Found 0 none int_max qs)

abbrev pub Busiest : ℕ → Option ℕ → List ThreadQueue → Option ℕ → Type 0
Busiest i best qs none = All (λ q. is_busier q ≡ false) qs × (best ≡ none)
Busiest i best qs (some n) =
    (All (λ q. is_busier q ≡ false) qs × (best ≡ some n))
    ⊎ ((before after : List ThreadQueue) × (q : ThreadQueue) × (qs ≡ before ++ (q ∷ after))
        × (n ≡ i + length before)
        × (is_busier q ≡ true)
        × All (λ q. is_busier q ≡ false) after)

Busiest-step :
    (i : ℕ) (best : Option ℕ) (q : ThreadQueue) (qs : List ThreadQueue) (b : Bool) (r : Option ℕ)
    → is_busier q ≡ b
    → Busiest (i + 1) (if b then some i else best) qs r
    → Busiest i best (q ∷ qs) r
Busiest-step i best q qs true none e (a, x) = cc
Busiest-step i best q qs true (some n) e (inl (a, x)) = inr ([], qs, q, refl, ground arith, e, a)
Busiest-step i best q qs false none e (a, x) = ((e, a), x)
Busiest-step i best q qs false (some n) e (inl (a, x)) = inl ((e, a), x)
Busiest-step i best q qs true (some n) e (inr (pre, post, p, x, y, z, a)) =
    inr (q ∷ pre, post, p, ap (◌∷◌ q) x, omega arith, z, a)
Busiest-step i best q qs false (some n) e (inr (pre, post, p, x, y, z, a)) =
    inr (q ∷ pre, post, p, ap (◌∷◌ q) x, omega arith, z, a)

busiest_from-Busiest :
    (i : ℕ) (best : Option ℕ) (qs : List ThreadQueue) → Busiest i best qs (busiest_from i best qs)
unfolding busiest_from
busiest_from-Busiest i none [] = (tt, refl)
busiest_from-Busiest i (some n) [] = inl (tt, refl)
busiest_from-Busiest i best (q ∷ qs) =
    Busiest-step i best q qs (is_busier q) _ refl
      (busiest_from-Busiest (i + 1) (if is_busier q then some i else best) qs)

-- `get_busiest_thread_queue` names the last queue of the list that has two jobs or more and a
-- waiting time, however long the others wait; it gives -1 only if there is no such queue.
pub get_busiest_thread_queue-Busiest :
    (qs : List ThreadQueue) → Busiest 0 none qs (get_busiest_thread_queue qs)
unfolding get_busiest_thread_queue
get_busiest_thread_queue-Busiest qs = busiest_from-Busiest 0 none qs
