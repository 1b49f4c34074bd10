-- ===== src/Scheduler/TaskPool/Oldest.antt =====
-- Which task the scheduler gets from the pool.
use mathlib.Core.List.{append_assoc, append-nil}
use worker_unit.Base.{
  ℕ, ◌≤◌, ◌<◌, ◌≡◌, refl, sym, ap, ◌∙◌, false, Option, none, some, List, [], ◌∷◌, ◌++◌, arith, ltb,
  ◌==◌, ==_iff, if_true, if_false, All, Bool-cases, inl, inr,
}
use worker_unit.Scheduler.TaskPool.{TaskData, push_task, get_scheduled_task}
use worker_unit.Scheduler.TaskPool.Order.{
  number, IsSorted, push_task-IsSorted, waiting, waiting-none, waiting-push_task,
}

-- The pool after tasks were pushed one after the other.
unfoldable pub push_all : List TaskData → List TaskData → List TaskData
unfolding push_task
push_all [] pool = pool
push_all (t ∷ ts) pool = push_all ts (push_task t pool)

push_all-IsSorted : (ts pool : List TaskData) → IsSorted pool → IsSorted (push_all ts pool)
unfolding push_all
push_all-IsSorted [] pool h = h
push_all-IsSorted (t ∷ ts) pool h =
    push_all-IsSorted ts (push_task t pool) (push_task-IsSorted t pool h)

waiting-push_all :
    (n : ℕ) (ts pool : List TaskData)
    → IsSorted pool
    → waiting n (push_all ts pool) ≡ waiting n pool ++ waiting n ts
unfolding push_all
waiting-push_all n [] pool h = sym (append-nil (waiting n pool))
waiting-push_all n (t ∷ ts) pool h = elim (Bool-cases (number t == n)) [
  | inl e ↦
      let w = waiting-push_task n t pool h ∙ if_true _ _ _ e in
      waiting-push_all n ts (push_task t pool) (push_task-IsSorted t pool h)
      ∙ ap (λ l. l ++ waiting n ts) w
      ∙ append_assoc (waiting n pool) (t.proc_table ∷ []) (waiting n ts)
      ∙ ap (λ l. waiting n pool ++ l) (sym (if_true _ _ _ e))
  | inr e ↦
      let w = waiting-push_task n t pool h ∙ if_false _ _ _ e in
      waiting-push_all n ts (push_task t pool) (push_task-IsSorted t pool h)
      ∙ ap (λ l. l ++ waiting n ts) w
      ∙ ap (λ l. waiting n pool ++ l) (sym (if_false _ _ _ e))
]

waiting_self : (t : TaskData) (ts : List TaskData) → waiting (number t) (t ∷ ts) ≡ [] → ⊥
waiting_self t ts h = ground arith

waiting_tail :
    (n : ℕ) (t : TaskData) (ts : List TaskData) → waiting n (t ∷ ts) ≡ [] → waiting n ts ≡ []
waiting_tail n t ts h = ground arith

-- Where no table waits with a greater priority number, no task has one.
none_greater :
    (m : ℕ) (ts : List TaskData)
    → ((n : ℕ) → m < n → waiting n ts ≡ [])
    → All (λ u. number u ≤ m) ts
none_greater m [] h = tt
none_greater m (t ∷ ts) h = (
  elim (Bool-cases (ltb m (number t))) [
    | inl e ↦ absurd (waiting_self t ts (h (number t) (ground arith)))
    | inr e ↦ ground arith
  ],
  none_greater m ts (λ n l. waiting_tail n t ts (h n l)),
)

-- What the scheduler gets after the tasks `ts` were pushed: a task with the greatest priority
-- number, of these the first pushed, while the others still wait in the order of their pushes.
abbrev pub Oldest : List TaskData → Option (TaskData × List TaskData) → Type 0
Oldest ts none = ts ≡ []
Oldest ts (some (t, rest)) =
    All (λ u. number u ≤ number t) ts
    × (waiting (number t) ts ≡ t.proc_table ∷ waiting (number t) rest)
    × ((n : ℕ) → (number t == n) ≡ false → waiting n ts ≡ waiting n rest)
    × IsSorted rest

oldest :
    (ts pool : List TaskData)
    → IsSorted pool
    → ((n : ℕ) → waiting n pool ≡ waiting n ts)
    → Oldest ts (get_scheduled_task pool)
unfolding get_scheduled_task
oldest [] [] h w = refl
oldest (t ∷ ts) [] h w = absurd (waiting_self t ts (sym (w (number t))))
oldest ts (t ∷ rest) h w = (
  none_greater (number t) ts
      (λ n l. sym (w n) ∙ waiting-none n (number t) (t ∷ rest) (omega arith, h.0) l),
  sym (w (number t)) ∙ if_true _ _ _ ((==_iff (number t) (number t)).1 refl),
  λ n e. sym (w n) ∙ if_false _ _ _ e,
  h.1,
)

-- After any tasks were pushed into the empty pool, the scheduler gets nothing exactly if there were
-- none. Otherwise it gets a task with the greatest priority number of all, that is a least urgent
-- one, and of these the first that was pushed; the others go on waiting, those of each priority in
-- the order of their pushes.
pub get_scheduled_task-Oldest :
    (ts : List TaskData) → Oldest ts (get_scheduled_task (push_all ts []))
get_scheduled_task-Oldest ts =
    oldest ts (push_all ts []) (push_all-IsSorted ts [] tt) (λ n. waiting-push_all n ts [] tt)
