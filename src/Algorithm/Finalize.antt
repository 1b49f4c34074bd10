-- ===== src/Algorithm/Finalize.antt =====
-- algorithm/ce_finalize.cpp: the results of a table's parts merged into one.
use worker_unit.Base.{
  ℕ, zero, suc, ◌+◌, ◌-◌, ◌/◌, ◌%◌, Bool, true, false, not, Option, none, some, List, [], ◌∷◌, ◌++◌,
  ltb, if◌then◌else◌,
}
use worker_unit.Base.Text.{Bytes, equal}
use worker_unit.Base.Int.{ℤ, pos, negsuc, ◌+ℤ◌}
use worker_unit.Scheduler.Job.{TaskPriority, priority_number, JobStatus, job_done}
use worker_unit.Sender.Package.{ForwardStackPackage, fres_send}
use worker_unit.FileDatabase.{append_values}
use worker_unit.Algorithm.Elimination.{CeResultExportObject, star, question}
pub mod Merge

pub record CeFinalize : Type 0 where
  pub total_positves : ℤ
  pub total_negatives : ℤ
  pub result_vectors : List CeResultExportObject
  pub s : List Bytes
  pub g : List Bytes
  pub table_id : Bytes
  pub task_priority : TaskPriority

unfoldable pub new_ce_finalize : List CeResultExportObject → Bytes → TaskPriority → CeFinalize
new_ce_finalize results id priority = record {
  total_positves = pos 0;
  total_negatives = pos 0;
  result_vectors = results;
  s = [];
  g = [];
  table_id = id;
  task_priority = priority;
}

-- The inner loop for one of the two hypotheses. All results of a table have one entry for each column.
unfoldable pub merge : List Bytes → List Bytes → List Bytes
unfolding equal
merge (r ∷ rs) (s ∷ ss) = (if not (equal r s) then question else s) ∷ merge rs ss
merge [] ss = ss
merge rs [] = []

unfoldable pub add_totals : CeResultExportObject → CeFinalize → CeFinalize
add_totals r f = record f {
  total_positves = f.total_positves +ℤ r.total_positives;
  total_negatives = f.total_negatives +ℤ r.total_negatives;
}

-- Whether `start` is set next; `none` is `s[0]` of an empty vector.
unfoldable pub starts : List Bytes → Option Bool
unfolding equal
starts [] = none
starts (s ∷ ss) = some (not (equal s star))

unfoldable pub aggregate_one : Bool → CeResultExportObject → CeFinalize → CeFinalize
unfolding merge add_totals
aggregate_one false r f = record (add_totals r f) { s = r.s; g = r.g }
aggregate_one true r f = record (add_totals r f) { s = merge r.s f.s; g = merge r.g f.g }

unfoldable pub start_after : Bool → CeResultExportObject → Option Bool
unfolding starts
start_after true r = some true
start_after false r = starts r.s

unfoldable pub continue_with : Option Bool → (Bool → Option CeFinalize) → Option CeFinalize
continue_with none k = none
continue_with (some b) k = k b

unfoldable pub aggregate_from : Bool → List CeResultExportObject → CeFinalize → Option CeFinalize
unfolding aggregate_one start_after continue_with
aggregate_from start [] f = some f
aggregate_from start (r ∷ rs) f =
    continue_with (start_after start r)
      (λ start'. aggregate_from start' rs (aggregate_one start r f))

unfoldable pub aggrigate_results : CeFinalize → Option CeFinalize
unfolding aggregate_from
aggrigate_results f = aggregate_from false f.result_vectors f

-- Decimal digits; a number has at most one more than itself.
unfoldable pub digits : ℕ → ℕ → Bytes
digits zero n = []
digits (suc k) n =
    let high = digits k (n / 10) in if ltb n 10 then (48 + n) ∷ [] else high ++ ((48 + n % 10) ∷ [])

-- `std::to_string`
unfoldable pub to_string : ℤ → Bytes
unfolding digits
to_string (pos n) = digits (suc n) n
to_string (negsuc n) = 45 ∷ digits (suc (suc n)) (suc n)

-- `none` is the access before an empty vector's start.
unfoldable pub join_columns : List Bytes → Option Bytes
unfolding append_values
join_columns [] = none
join_columns (s ∷ ss) = some (append_values s ss)

unfoldable pub result_text : Option Bytes → Option Bytes → ℤ → ℤ → Option Bytes
unfolding to_string
result_text (some s) (some g) p n = some (s ++ (58 ∷ g ++ (58 ∷ to_string p ++ (58 ∷ to_string n))))
result_text _ _ p n = none

unfoldable pub get_final_result : CeFinalize → Option Bytes
unfolding join_columns result_text
get_final_result f =
    result_text (join_columns f.s) (join_columns f.g) f.total_positves f.total_negatives

-- The test on a null argument has no effect.
unfoldable pub ce_finalize_start_process : CeFinalize → Option (JobStatus × CeFinalize)
unfolding aggrigate_results
ce_finalize_start_process f = elim (aggrigate_results f) [
  | none ↦ none
  | some f' ↦ some (job_done, f')
]

-- The packet that the sender gets.
unfoldable pub ce_finalize_end_process : CeFinalize → Option ForwardStackPackage
unfolding get_final_result
ce_finalize_end_process f = elim (get_final_result f) [
  | none ↦ none
  | some text ↦ some (record {
    status_code = fres_send;
    priority = priority_number f.task_priority;
    table_id = f.table_id;
    body = text;
  })
]
