-- ===== src/Scheduler/ThreadQueue/Slots.antt =====
-- What filling, taking and flushing do to the four slots of a thread queue.
use mathlib.Core.List.{Perm, perm_middle}
use mathlib.Core.List.Perm
use worker_unit.Base.{
  ℕ, suc, ◌≡◌, ◌≤◌, ◌*◌, ◌==◌, refl, Bool, true, false, ◌&&◌, ◌||◌, Option, none, some, List, [],
  ◌∷◌, ◌++◌, ap, arith, length,
}
use worker_unit.Scheduler.Job.{QueueJob}
use worker_unit.Scheduler.ThreadQueue.{
  Cell, unset, null, job, Slot, fill_slot, fill_here, sum_wait, is_job,
}

-- The occupied slots.
abbrev pub pending : List Slot → ℕ
pending [] = 0
pending (s ∷ ss) = elim s.is_done [ true ↦ pending ss | false ↦ suc (pending ss) ]

-- Every occupied slot points to a job.
abbrev pub all_hold : List Slot → Bool
all_hold [] = true
all_hold (s ∷ ss) = (s.is_done || is_job s.cell) && all_hold ss

abbrev pub slot_jobs : Slot → List QueueJob
slot_jobs s = elim s.is_done [ true ↦ [] | false ↦ elim s.cell [ job j ↦ j ∷ [] | _ ↦ [] ] ]

-- The jobs of the occupied slots, in slot order.
abbrev pub jobs : List Slot → List QueueJob
jobs [] = []
jobs (s ∷ ss) = slot_jobs s ++ jobs ss

pub pending-le-length : (ss : List Slot) → pending ss ≤ length ss
pending-le-length [] = omega arith
pending-le-length (s ∷ ss) = ground (arith, pending-le-length ss)

abbrev pub Filled : QueueJob → List Slot → Option (List Slot) → Type 0
Filled j ss none = pending ss ≡ length ss
Filled j ss (some rs) =
    (length rs ≡ length ss)
    × (pending rs ≡ suc (pending ss))
    × (all_hold ss ≡ true → all_hold rs ≡ true)
    × Perm (jobs rs) (j ∷ jobs ss)

pub insert_behind {ℓ} :
    {A : Type ℓ} (zs : List A) (a : A) {xs ys : List A}
    → Perm xs (a ∷ ys)
    → Perm (zs ++ xs) (a ∷ (zs ++ ys))
insert_behind zs a {xs} {ys} p = Perm.trans (Perm.append (Perm.refl zs) p) (perm_middle zs ys)

-- One slot of the loop, by its contents and the result on the slots behind it.
fill_step :
    (j : QueueJob) (is_done : Bool) (c : Cell) (ss : List Slot) (r : Option (List Slot))
    → Filled j ss r
    → Filled j
        (record { is_done = is_done; cell = c } ∷ ss)
        (fill_here j (record { is_done = is_done; cell = c }) ss r)
fill_step j true c ss r f = (refl, refl, λ h. h, Perm.refl _)
fill_step j false c ss none f = ap suc f
fill_step j false (job i) ss (some rs) f =
    (omega arith, omega arith, f.2, insert_behind (i ∷ []) j f.3)
fill_step j false unset ss (some rs) f = (omega arith, omega arith, λ h. cc, f.3)
fill_step j false null ss (some rs) f = (omega arith, omega arith, λ h. cc, f.3)

pub fill_slot-Filled : (j : QueueJob) (ss : List Slot) → Filled j ss (fill_slot j ss)
unfolding fill_slot
fill_slot-Filled j [] = refl
fill_slot-Filled j (s ∷ ss) =
    fill_step j s.is_done s.cell ss (fill_slot j ss) (fill_slot-Filled j ss)

-- The jobs of the occupied slots have no time slice.
abbrev pub no_slice : Slot → Bool
no_slice s = s.is_done || (elim s.cell [ job j ↦ j.cpu_slice_ms == 0 | _ ↦ true ])

abbrev pub all_unsliced : List Slot → Bool
all_unsliced [] = true
all_unsliced (s ∷ ss) = no_slice s && all_unsliced ss

-- Without slices the waiting time counts the jobs.
pub sum_wait-unsliced :
    (ss : List Slot) → all_unsliced ss ≡ true → all_hold ss ≡ true → sum_wait ss ≡ 999 * pending ss
unfolding sum_wait
sum_wait-unsliced [] h k = refl
sum_wait-unsliced (s ∷ ss) h k = ground (arith, sum_wait-unsliced ss)

abbrev pub FilledUnsliced : Option (List Slot) → Type 0
FilledUnsliced none = Unit
FilledUnsliced (some rs) = all_unsliced rs ≡ true

fill_unsliced-step :
    (j : QueueJob) (s : Slot) (ss : List Slot) (r : Option (List Slot))
    → (j.cpu_slice_ms == 0) ≡ true
    → all_unsliced (s ∷ ss) ≡ true
    → FilledUnsliced r
    → FilledUnsliced (fill_here j s ss r)
fill_unsliced-step j s ss none e h f = ground arith
fill_unsliced-step j s ss (some rs) e h f = ground arith

pub fill_slot-unsliced :
    (j : QueueJob) (ss : List Slot)
    → (j.cpu_slice_ms == 0) ≡ true
    → all_unsliced ss ≡ true
    → FilledUnsliced (fill_slot j ss)
unfolding fill_slot
fill_slot-unsliced j [] e h = tt
fill_slot-unsliced j (s ∷ ss) e h =
    fill_unsliced-step j s ss (fill_slot j ss) e h (fill_slot-unsliced j ss e (ground arith))
