-- ===== src/Scheduler/ThreadQueue/Single.antt =====
-- A single job that goes from one queue to the other.
use worker_unit.Base.{
  ℕ, zero, suc, ◌+◌, ◌-◌, ◌<◌, ◌≡◌, inl, inr, refl, sym, ap, ◌∙◌, subst, Bool, true, false, ◌||◌,
  none, some, List, [], ◌∷◌, ◌++◌, arith, length, All, if_false,
}
use worker_unit.Scheduler.Job.{QueueJob, is_job_status_set, job_running, job_finalized}
use worker_unit.Scheduler.ThreadQueue.{
  Cell, unset, null, job, Slot, ThreadQueue, success, fill_slot, add_new_task, slot_at,
  get_next_task, points_nowhere, can_pop, take_here, take_slot, after_take, after_fill, pop_job,
  mark_cell, close_slot, mark_task_as_complete,
}
use worker_unit.Scheduler.ThreadQueue.Slots.{pending}
use worker_unit.Scheduler.ThreadQueue.Taking.{Stays}
use worker_unit.Scheduler.ThreadQueue.Invariant.{IsValid}
use worker_unit.Scheduler.ThreadQueue.Rotation.{get_next_task_approaches}

abbrev pub occupied : QueueJob → Slot
occupied j = record { is_done = false; cell = job j }

abbrev pub free_slot : Slot
free_slot = record { is_done = true; cell = null }

-- A job that is not marked as running yet.
abbrev pub Unmarked : QueueJob → Type 0
Unmarked j = (is_job_status_set job_running j ≡ false) × (is_job_status_set job_finalized j ≡ false)

true-false : true ≡ false → ⊥
true-false h = cc

job-inj : {i j : QueueJob} → job i ≡ job j → i ≡ j
job-inj e = cc

Stays-tests :
    (d : Bool) (c : Cell)
    → Stays (record { is_done = d; cell = c })
    → (points_nowhere (record { is_done = d; cell = c }) ≡ false)
      × (can_pop (record { is_done = d; cell = c }) ≡ false)
Stays-tests true unset h = (refl, refl)
Stays-tests true null h = (refl, refl)
Stays-tests true (job j) h = (refl, refl)
Stays-tests false unset (inl e) = cc
Stays-tests false null (inl e) = cc
Stays-tests false (job j) (inl e) = cc
Stays-tests false unset (inr (i, e, b)) = cc
Stays-tests false null (inr (i, e, b)) = cc
Stays-tests false (job j) (inr (i, e, b)) =
    let m =
      subst (λ k. (is_job_status_set job_running k || is_job_status_set job_finalized k) ≡ true)
        (job-inj (sym e)) b in
    (refl, ground arith)

take_slot-first :
    (j : QueueJob) (xs ys : List Slot)
    → Unmarked j
    → All Stays xs
    → take_slot (xs ++ (occupied j ∷ ys)) ≡ some (job j, xs ++ (free_slot ∷ ys))
unfolding take_slot
take_slot-first j [] ys (n, f) a = rw (n, f) refl
take_slot-first j (x ∷ xs) ys u (a, b) =
    let (p, c) = Stays-tests x.is_done x.cell a in
    if_false _ _ _ p
    ∙ ap (λ v. take_here v x (xs ++ (occupied j ∷ ys)) (take_slot (xs ++ (occupied j ∷ ys)))) c
    ∙ ap (take_here false x (xs ++ (occupied j ∷ ys))) (take_slot-first j xs ys u b)

slot_at-between : (xs ys : List Slot) (s : Slot) → slot_at (xs ++ (s ∷ ys)) (length xs) ≡ s
slot_at-between [] ys s = refl
slot_at-between (x ∷ xs) ys s = slot_at-between xs ys s

all_free : (ss : List Slot) (k : ℕ) → pending ss ≡ 0 → (slot_at ss k).is_done ≡ true
all_free [] k h = refl
all_free (s ∷ ss) zero h = ground arith
all_free (s ∷ ss) (suc k) h = all_free ss k (ground arith)

pub no_more : (s : Slot) (ss : List Slot) → pending (s ∷ ss) ≡ 0 → pending ss ≡ 0
no_more s ss h = ground arith

-- The queue with one job in its first slot.
abbrev pub with_first : QueueJob → List Slot → ThreadQueue → ThreadQueue
with_first j ss q = record q {
  slots = occupied j ∷ ss;
  total_jobs_in_queue = q.total_jobs_in_queue + 1;
}

fill_first :
    (j : QueueJob) (s : Slot) (ss : List Slot)
    → s.is_done ≡ true
    → fill_slot j (s ∷ ss) ≡ some (occupied j ∷ ss)
unfolding fill_slot
fill_first j s ss d = rw d refl

pub add_to_empty :
    (j : QueueJob) (q : ThreadQueue) (s : Slot) (ss : List Slot)
    → q.slots ≡ s ∷ ss
    → pending q.slots ≡ 0
    → add_new_task (job j) q ≡ (success, with_first j ss q)
unfolding add_new_task fill_slot
add_to_empty j q s ss e p =
    let d = subst (λ l. (slot_at l 0).is_done ≡ true) e (all_free q.slots 0 p) in
    ap (λ l. after_fill q (fill_slot j l)) e ∙ ap (after_fill q) (fill_first j s ss d)

only_first :
    (j : QueueJob) (ss : List Slot) (k : ℕ)
    → pending ss ≡ 0
    → (slot_at (occupied j ∷ ss) k).is_done ≡ false
    → (slot_at (occupied j ∷ ss) k).cell ≡ job j
only_first j ss zero p o = refl
only_first j ss (suc k) p o = absurd (true-false (sym (all_free ss k p) ∙ o))

-- The thread of a queue whose only job is in the first slot gets it.
pub gets_first :
    (j : QueueJob) (q : ThreadQueue) (ss : List Slot)
    → q.head < 4
    → q.slots ≡ occupied j ∷ ss
    → pending ss ≡ 0
    → (get_next_task q).0 ≡ job j
gets_first j q ss h e p =
    let (s, c, o, d, a) =
      get_next_task_approaches q 0 h (omega arith)
        (subst (λ l. (slot_at l 0).is_done ≡ false) (sym e) refl) in
    let k = (get_next_task q).1.head in
    c
    ∙ ap (λ l. (slot_at l k).cell) e
    ∙ only_first j ss k p (subst (λ l. (slot_at l k).is_done ≡ false) e o)

-- The queue without the job that was popped from between the slots.
abbrev pub without : List Slot → List Slot → ThreadQueue → ThreadQueue
without xs ys q = record q {
  slots = xs ++ (free_slot ∷ ys);
  total_jobs_in_queue = q.total_jobs_in_queue - 1;
}

pub pop_between :
    (j : QueueJob) (xs ys : List Slot) (q : ThreadQueue)
    → q.slots ≡ xs ++ (occupied j ∷ ys)
    → Unmarked j
    → All Stays xs
    → pop_job q ≡ (job j, without xs ys q)
unfolding pop_job
pop_between j xs ys q e u a =
    ap (λ l. after_take q (take_slot l)) e ∙ ap (after_take q) (take_slot-first j xs ys u a)

pub head-free :
    (xs ys : List Slot) (q : ThreadQueue)
    → q.head ≡ length xs
    → slot_at (without xs ys q).slots q.head ≡ free_slot
head-free xs ys q h = ap (slot_at (xs ++ (free_slot ∷ ys))) h ∙ slot_at-between xs ys free_slot

pub mark_nothing :
    (xs ys : List Slot) (q : ThreadQueue)
    → q.head ≡ length xs
    → mark_task_as_complete (without xs ys q) ≡ none
unfolding mark_task_as_complete
mark_nothing xs ys q h =
    ap (λ c. close_slot (mark_cell c) (without xs ys q)) (ap (λ t. t.cell) (head-free xs ys q h))

pub split_slots :
    (ss : List Slot) → length ss ≡ 4 → (s : Slot) × (rest : List Slot) × (ss ≡ s ∷ rest)
split_slots [] h = absurd (omega arith)
split_slots (s ∷ ss) h = (s, ss, refl)

length-between : (xs ys : List Slot) (s : Slot) → length xs < length (xs ++ (s ∷ ys))
length-between [] ys s = omega arith
length-between (x ∷ xs) ys s = omega (arith, length-between xs ys s)

-- The thread holds the job of the slot at which the head stands.
pub fetches :
    (j : QueueJob) (xs ys : List Slot) (q : ThreadQueue)
    → IsValid q
    → (get_next_task q).1.head ≡ length xs
    → q.slots ≡ xs ++ (occupied j ∷ ys)
    → (get_next_task q).0 ≡ job j
fetches j xs ys q v h e =
    let at : slot_at q.slots (length xs) ≡ occupied j =
      ap (λ l. slot_at l (length xs)) e ∙ slot_at-between xs ys (occupied j) in
    let n : length xs < 4 = omega (arith, length-between xs ys (occupied j), ap length e, v.four) in
    let (s, c, o, d, a) =
      get_next_task_approaches q (length xs) v.head_in n (ap (λ t. t.is_done) at) in
    c ∙ ap (λ k. (slot_at q.slots k).cell) h ∙ ap (λ t. t.cell) at
