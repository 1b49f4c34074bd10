-- ===== src/Scheduler/Registry.antt =====
-- scheduler/process_manager.cpp: the table of registered processes.
use worker_unit.Base.{
  ℕ, ◌+◌, ◌<◌, ◌≡◌, Bool, true, false, not, ◌||◌, List, [], ◌∷◌, ◌++◌, arith, ◌==◌, if◌then◌else◌,
  All,
}
use worker_unit.Scheduler.Job.{ProcessTable, no_status, non_preemtable}

-- An entry of `pidVector`: the pointer and the pid behind it.
pub record Entry : Type 0 where
  pub address : ℕ
  pub pid : ℕ

-- `heap_top` is the least address that no table has had yet.
pub record ProcessManager : Type 0 where
  pub pid_vector : List Entry
  pub heap_top : ℕ

unfoldable pub pid_taken : ℕ → List Entry → Bool
pid_taken pid [] = false
pid_taken pid (e ∷ es) = pid == e.pid || pid_taken pid es

-- The loop `while(exitLoop.isFlagSet())`, over the numbers that `distr(gen)` would give. `pid` is
-- the variable's value on entry, which nothing has initialised.
unfoldable pub choose_pid : Bool → ℕ → List ℕ → List Entry → ℕ
choose_pid false pid draws es = pid
choose_pid true pid [] es = pid
choose_pid true pid (d ∷ draws) es = choose_pid (not (pid_taken d es)) d draws es

-- `initFlag(false)` comes before the loop. The fields that `scheduleTask` sets next are zero here.
unfoldable pub register_process : ℕ → List ℕ → ProcessManager → ProcessTable × ProcessManager
unfolding choose_pid pid_taken
register_process uninitialised draws m =
    let pid = choose_pid false uninitialised draws m.pid_vector in
    (
      record {
        address = m.heap_top;
        pid = pid;
        process_type = 0;
        job_status = no_status;
        priority = non_preemtable;
        freed = false;
      },
      record {
        pid_vector = m.pid_vector ++ (record { address = m.heap_top; pid = pid } ∷ []);
        heap_top = m.heap_top + 1;
      },
    )

unfoldable pub erase_entry : ℕ → List Entry → List Entry
erase_entry a [] = []
erase_entry a (e ∷ es) = if a == e.address then es else e ∷ erase_entry a es

unfoldable pub registered : ℕ → List Entry → Bool
registered a [] = false
registered a (e ∷ es) = a == e.address || registered a es

-- The table is deleted where it is found.
unfoldable pub unregister_process : ProcessTable → ProcessManager → ProcessTable × ProcessManager
unfolding erase_entry registered
unregister_process t m =
    if registered t.address m.pid_vector
    then (record t { freed = true }, record m { pid_vector = erase_entry t.address m.pid_vector })
    else (t, m)

-- Every registered table lies below the top of the heap.
abbrev pub Below : ProcessManager → Type 0
Below m = All (λ e. e.address < m.heap_top) m.pid_vector

erase_entry-last :
    (a : ℕ) (es : List Entry) (pid : ℕ)
    → All (λ e. e.address < a) es
    → (registered a (es ++ (record { address = a; pid = pid } ∷ [])) ≡ true)
      × (erase_entry a (es ++ (record { address = a; pid = pid } ∷ [])) ≡ es)
unfolding erase_entry registered
erase_entry-last a [] pid h = ground arith
erase_entry-last a (e ∷ es) pid h = ground (arith, erase_entry-last a es pid h.1)

-- A table that is registered and then unregistered is deleted, every other registered process stays
-- in its place, and the pid it was given is whatever the uninitialised variable held, whichever
-- numbers the generator would have drawn.
pub unregister-register :
    (garbage : ℕ) (draws : List ℕ) (m : ProcessManager)
    → Below m
    → let (t, m') = register_process garbage draws m in
      let (t', m'') = unregister_process t m' in
      (t.pid ≡ garbage) × (t.freed ≡ false) × (t'.freed ≡ true) × (m''.pid_vector ≡ m.pid_vector)
unfolding register_process unregister_process
unregister-register garbage draws m h =
    ground (arith, erase_entry-last m.heap_top m.pid_vector garbage h)
