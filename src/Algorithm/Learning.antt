-- ===== src/Algorithm/Learning.antt =====
-- algorithm/: the jobs of a table's parts, from their construction to the results they export.
use worker_unit.Base.{ℕ, suc, ◌-◌, Bool, Option, none, some, List, [], ◌∷◌}
use worker_unit.Base.Text.{Bytes}
use worker_unit.Algorithm.Elimination.{
  CandidateElimination, CeResultExportObject, new_candidate_elimination, run_job,
  candidate_elimination_end,
}
pub mod Order
pub mod Parts
pub mod Whole

unfoldable pub cons_result :
    Option CeResultExportObject
    → Option (List CeResultExportObject)
    → Option (List CeResultExportObject)
cons_result none rs = none
cons_result (some r) none = none
cons_result (some r) (some rs) = some (r ∷ rs)

module _ (iequals : Bytes → Bytes → Bool) where
  -- A job runs until it is done and exports its result.
  unfoldable pub export_part : CandidateElimination → Option CeResultExportObject
  unfolding run_job candidate_elimination_end
  export_part ce = elim (run_job iequals (suc (suc (suc ce.end - ce.start))) ce) [
    | none ↦ none
    | some ce' ↦ some (candidate_elimination_end ce')
  ]

  unfoldable pub export_made : Option CandidateElimination → Option CeResultExportObject
  unfolding export_part
  export_made none = none
  export_made (some ce) = export_part ce

  module _ (column_names : Bytes → ℕ → Option (List Bytes))
      (column_values : Bytes → Bytes → ℕ → Option (List Bytes)) where
    -- The results of the parts in the order in which their jobs end. Each job reads the table's file.
    unfoldable pub export_parts :
        Option Bytes → Bytes → ℕ → List (ℕ × ℕ) → Option (List CeResultExportObject)
    unfolding new_candidate_elimination export_made cons_result
    export_parts disk instance_id columns [] = some []
    export_parts disk instance_id columns (r ∷ rs) =
        cons_result
          (export_made
            (new_candidate_elimination column_names column_values disk instance_id r.0 r.1 columns))
          (export_parts disk instance_id columns rs)
