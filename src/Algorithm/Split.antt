-- ===== src/Algorithm/Split.antt =====
-- algorithm/algorithm_scheduler.cpp: a table cut into one part for each thread, and their results
-- gathered.
use worker_unit.Base.{
  ℕ, zero, suc, ◌+◌, ◌-◌, ◌*◌, ◌/◌, Bool, true, false, Option, none, some, List, [], ◌∷◌, ◌++◌, ltb,
  ◌==◌, if◌then◌else◌, length, map,
}
use worker_unit.Base.Text.{Bytes, equal, is_empty}
use worker_unit.Scheduler.Job.{TaskPriority}
use worker_unit.Instances.{Instance, get_instance_from_id}
pub mod Ranges
pub mod Gather

-- `struct TableData` with its `TableMetadata`, as far as the later stages read it.
pub record TableData : Type 0 where
  pub rows : ℕ
  pub columns : ℕ
  pub table_id : Bytes
  pub priority : TaskPriority
  pub instance_type : Bytes

-- TOT_ALGO
abbrev pub total_algorithms : ℕ
total_algorithms = 2

-- A call of `avial_algo[algoIndex]`, and the job that is scheduled for it.
pub record AlgorithmCall : Type 0 where
  pub algo_index : ℕ
  pub table_id : Bytes
  pub instance_id : Bytes
  pub start : ℕ
  pub end : ℕ
  pub columns : ℕ
  pub priority : TaskPriority

-- The loop from `i`, with the number of its rounds that are left, and the last call.
unfoldable pub ranges_from : ℕ → ℕ → ℕ → ℕ → ℕ → List (ℕ × ℕ)
ranges_from zero i start size rows = (start, rows) ∷ []
ranges_from (suc n) i start size rows =
    (start, size * i) ∷ ranges_from n (i + 1) (size * i + 1) size rows

unfoldable pub split_ranges : ℕ → ℕ → List (ℕ × ℕ)
unfolding ranges_from
split_ranges threads rows = ranges_from (threads - 1) 1 1 (rows / threads) rows

unfoldable pub call_for : ℕ → TableData → ℕ × ℕ → AlgorithmCall
call_for algo t (start, end) = record {
  algo_index = algo;
  table_id = t.table_id;
  instance_id = t.instance_type;
  start = start;
  end = end;
  columns = t.columns;
  priority = t.priority;
}

-- An entry of `algorithmResultMap`.
pub record AlgorithmPackage (R : Type 0) : Type 0 where
  pub table_data : TableData
  pub result_vectors : List R

-- `map::insert` keeps the entry of a key that is there.
unfoldable pub insert :
    {R : Type 0}
    → Bytes
    → AlgorithmPackage R
    → List (Bytes × AlgorithmPackage R)
    → List (Bytes × AlgorithmPackage R)
unfolding equal
insert k v [] = (k, v) ∷ []
insert k v (e ∷ m) = let rest = insert k v m in if equal k e.0 then e ∷ m else e ∷ rest

-- `none` is a division by zero threads, or an index past the table of algorithms.
unfoldable pub sched_algo :
    {R : Type 0}
    → ℕ
    → List Instance
    → TableData
    → List (Bytes × AlgorithmPackage R)
    → Option (List AlgorithmCall × List (Bytes × AlgorithmPackage R))
unfolding split_ranges call_for insert
sched_algo threads instances t m =
    let algo = (get_instance_from_id t.instance_type instances).linked_algorithm in
    if threads == 0
    then none
    else if ltb algo total_algorithms
    then some (
      map (call_for algo t) (split_ranges threads t.rows),
      insert t.table_id (record { table_data = t; result_vectors = [] }) m,
    )
    else none

-- What `update_algo_result` sets off: the job that merges the results, at the priority
-- NON_PREEMTABLE, the release of the instance, and the deletion of the table with its file.
pub data Effect (R : Type 0) : Type 0 where
  schedule_finalize : List R → Bytes → TaskPriority → Effect R
  dereference : Bytes → Effect R
  dealloc_table_dat : Bytes → Effect R

unfoldable pub find :
    {R : Type 0} → Bytes → List (Bytes × AlgorithmPackage R) → Option (AlgorithmPackage R)
unfolding equal
find k [] = none
find k (e ∷ m) = if equal k e.0 then some e.1 else find k m

unfoldable pub erase :
    {R : Type 0} → Bytes → List (Bytes × AlgorithmPackage R) → List (Bytes × AlgorithmPackage R)
unfolding equal
erase k [] = []
erase k (e ∷ m) = let rest = erase k m in if equal k e.0 then m else e ∷ rest

unfoldable pub replace :
    {R : Type 0}
    → Bytes
    → AlgorithmPackage R
    → List (Bytes × AlgorithmPackage R)
    → List (Bytes × AlgorithmPackage R)
unfolding equal
replace k v [] = []
replace k v (e ∷ m) = let rest = replace k v m in if equal k e.0 then (e.0, v) ∷ m else e ∷ rest

unfoldable pub with_result : {R : Type 0} → R → AlgorithmPackage R → AlgorithmPackage R
with_result r p = record p { result_vectors = p.result_vectors ++ (r ∷ []) }

-- The package found, with the new result in it. The code is EXIT_FAILURE or 0.
unfoldable pub update_package :
    {R : Type 0}
    → ℕ
    → Bytes
    → Option (AlgorithmPackage R)
    → List (Bytes × AlgorithmPackage R)
    → Bool × List (Bytes × AlgorithmPackage R) × List (Effect R)
unfolding erase replace
update_package threads k none m = (false, m, [])
update_package threads k (some p) m =
    let t = p.table_data in
    if length p.result_vectors == threads
    then (
      true,
      erase k m,
      schedule_finalize p.result_vectors t.table_id t.priority
          ∷ dereference t.table_id
          ∷ dealloc_table_dat t.table_id
          ∷ [],
    )
    else (true, replace k p m, [])

unfoldable pub push_result :
    {R : Type 0} → R → Option (AlgorithmPackage R) → Option (AlgorithmPackage R)
unfolding with_result
push_result r none = none
push_result r (some p) = some (with_result r p)

unfoldable pub update_algo_result :
    {R : Type 0}
    → ℕ
    → Bytes
    → R
    → List (Bytes × AlgorithmPackage R)
    → Bool × List (Bytes × AlgorithmPackage R) × List (Effect R)
unfolding update_package push_result find is_empty
update_algo_result threads k r m =
    if is_empty k then (false, m, []) else update_package threads k (push_result r (find k m)) m

-- The jobs of one table report one after the other.
unfoldable pub update_all :
    {R : Type 0}
    → ℕ
    → Bytes
    → List R
    → List (Bytes × AlgorithmPackage R)
    → List (Bytes × AlgorithmPackage R) × List (Effect R)
unfolding update_algo_result
update_all threads k [] m = (m, [])
update_all threads k (r ∷ rs) m =
    let (code, m', effects) = update_algo_result threads k r m in
    let (m'', later) = update_all threads k rs m' in (m'', effects ++ later)
