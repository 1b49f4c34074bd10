-- ===== src/Scheduler/ThreadQueue/Taking.antt =====
-- Which slot `popJob` takes a job from.
use mathlib.Core.List.{Perm}
use mathlib.Core.List.Perm
use worker_unit.Base.{
  All, ◌⊎◌, inl, inr, Bool-cases, if_false, suc, ◌≡◌, ◌∙◌, ◌==◌, refl, Bool, true, false, ◌||◌,
  Option, none, some, List, [], ◌∷◌, ◌++◌, ap, sym, subst, arith, length,
}
use worker_unit.Scheduler.Job.{QueueJob, job_running, job_finalized, is_job_status_set}
use worker_unit.Scheduler.ThreadQueue.{
  Cell, unset, null, job, Slot, take_slot, take_here, can_pop, points_nowhere,
}
use worker_unit.Scheduler.ThreadQueue.Slots.{
  pending, all_hold, slot_jobs, jobs, insert_behind, all_unsliced,
}

-- A slot that is free, or whose job has been started or finalized.
abbrev pub Stays : Slot → Type 0
Stays s =
    (s.is_done ≡ true)
    ⊎ ((j : QueueJob) × (s.cell ≡ job j)
        × ((is_job_status_set job_running j || is_job_status_set job_finalized j) ≡ true))

-- The job was in the first slot that does not stay as it is; that slot is now free, with a null
-- pointer.
abbrev pub First : QueueJob → List Slot → List Slot → Type 0
First j ss rs =
    (xs : List Slot) × (ys : List Slot) × (ss
      ≡ xs ++ (record { is_done = false; cell = job j } ∷ ys))
    × (rs ≡ xs ++ (record { is_done = true; cell = null } ∷ ys))
    × All Stays xs

abbrev pub Taken : List Slot → Option (Cell × List Slot) → Type 0
Taken ss none = All Stays ss
Taken ss (some (c, rs)) =
    (length rs ≡ length ss)
    × (pending ss ≡ suc (pending rs))
    × (all_hold ss ≡ true → all_hold rs ≡ true)
    × ((j : QueueJob) × (c ≡ job j)
        × (is_job_status_set job_running j ≡ false)
        × (is_job_status_set job_finalized j ≡ false)
        × Perm (jobs ss) (j ∷ jobs rs)
        × First j ss rs)

can_pop-job :
    (is_done : Bool) (c : Cell)
    → can_pop (record { is_done = is_done; cell = c }) ≡ true
    → (is_done ≡ false)
      × ((j : QueueJob) × (c ≡ job j)
          × (is_job_status_set job_running j ≡ false)
          × (is_job_status_set job_finalized j ≡ false))
can_pop-job is_done unset h = cc
can_pop-job is_done null h = cc
can_pop-job is_done (job j) h = (ground arith, (j, refl, ground arith, ground arith))

jobs-cons :
    (s : Slot) (ss : List Slot) (j : QueueJob)
    → s.is_done ≡ false
    → s.cell ≡ job j
    → jobs (s ∷ ss) ≡ j ∷ jobs ss
jobs-cons s ss j e f = rw (e, f) refl

passed_slot :
    (d : Bool) (c : Cell)
    → points_nowhere (record { is_done = d; cell = c }) ≡ false
    → can_pop (record { is_done = d; cell = c }) ≡ false
    → Stays (record { is_done = d; cell = c })
passed_slot true c p e = inl refl
passed_slot false unset p e = cc
passed_slot false null p e = cc
passed_slot false (job j) p e = inr (j, refl, ground arith)

slot_of :
    (d : Bool) (c : Cell) (j : QueueJob)
    → d ≡ false
    → c ≡ job j
    → ◌≡◌ {A = Slot} (record { is_done = d; cell = c }) (record { is_done = false; cell = job j })
slot_of d c j e f = cc

take_step :
    (b : Bool) (s : Slot) (ss : List Slot) (r : Option (Cell × List Slot))
    → points_nowhere s ≡ false
    → can_pop s ≡ b
    → Taken ss r
    → Taken (s ∷ ss) (take_here b s ss r)
take_step true s ss r p e t =
    let (d, (j, c, n, f)) = can_pop-job s.is_done s.cell e in
    (
      refl,
      ground arith,
      λ h. ground arith,
      (
        j,
        c,
        n,
        f,
        subst (λ l. Perm l (j ∷ jobs ss)) (sym (jobs-cons s ss j d c)) (Perm.refl _),
        ([], ss, ap (λ x. x ∷ ss) (slot_of s.is_done s.cell j d c), refl, tt),
      ),
    )
take_step false s ss none p e t = (passed_slot s.is_done s.cell p e, t)
take_step false s ss (some (c, rs)) p e (l, q, h, (j, eq, n, f, m, (xs, ys, x, y, a))) = (
  omega arith,
  ground arith,
  λ k. ground arith,
  (
    j,
    eq,
    n,
    f,
    insert_behind (slot_jobs s) j m,
    (s ∷ xs, ys, ap (λ z. s ∷ z) x, ap (λ z. s ∷ z) y, (passed_slot s.is_done s.cell p e, a)),
  ),
)

holds-points : (s : Slot) (ss : List Slot) → all_hold (s ∷ ss) ≡ true → points_nowhere s ≡ false
holds-points s ss h = ground arith

pub take_slot-Taken : (ss : List Slot) → all_hold ss ≡ true → Taken ss (take_slot ss)
unfolding take_slot
take_slot-Taken [] h = tt
take_slot-Taken (s ∷ ss) h =
    let p = holds-points s ss h in
    subst (Taken (s ∷ ss)) (sym (if_false _ _ _ p))
      (take_step (can_pop s) s ss (take_slot ss) p refl (take_slot-Taken ss (ground arith)))

abbrev pub TakenUnsliced : Option (Cell × List Slot) → Type 0
TakenUnsliced none = Unit
TakenUnsliced (some (c, rs)) =
    (all_unsliced rs ≡ true) × ((j : QueueJob) → c ≡ job j → (j.cpu_slice_ms == 0) ≡ true)

job-inj : {i j : QueueJob} → job i ≡ job j → i ≡ j
job-inj e = cc

take_unsliced-step :
    (b : Bool) (s : Slot) (ss : List Slot) (r : Option (Cell × List Slot))
    → can_pop s ≡ b
    → all_unsliced (s ∷ ss) ≡ true
    → TakenUnsliced r
    → TakenUnsliced (take_here b s ss r)
take_unsliced-step true s ss r e h t =
    let (d, (i, c, n, f)) = can_pop-job s.is_done s.cell e in
    (ground arith, λ j x. rw (job-inj (sym x ∙ c)) (ground arith))
take_unsliced-step false s ss none e h t = tt
take_unsliced-step false s ss (some (c, rs)) e h t = (ground arith, t.1)

pub take_slot-unsliced : (ss : List Slot) → all_unsliced ss ≡ true → TakenUnsliced (take_slot ss)
unfolding take_slot
take_slot-unsliced [] h = tt
take_slot-unsliced (s ∷ ss) h = elim (Bool-cases (points_nowhere s)) [
  | inl e ↦ rw e (h, λ j x. cc)
  | inr e ↦ rw e (
      take_unsliced-step (can_pop s) s ss (take_slot ss) refl h
        (take_slot-unsliced ss (ground arith)))
]
