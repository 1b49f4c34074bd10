-- ===== src/Examples/Learning.antt =====
-- The candidate elimination at concrete inputs.
use worker_unit.Base.{◌≡◌, refl, true, false, some, [], ◌∷◌, arith}
use worker_unit.Base.Text.{equal, equal-refl}
use worker_unit.Base.Int.{pos, negsuc}
use worker_unit.Scheduler.Job.{high_priority}
use worker_unit.FileDatabase.{FileDataBaseAccess, read_file, adv_tokenizer, add_head}
use worker_unit.Algorithm.Elimination.{
  CandidateElimination, CeResultExportObject, star, is_positive, is_confirmed, yes,
}
use worker_unit.Algorithm.Elimination.Rows.{fields, tokens, Reads}
use worker_unit.Algorithm.Elimination.Counts.{Counted, Fresh, run_job-Counted}
use worker_unit.Algorithm.Elimination.Cover.{Starless}
use worker_unit.Algorithm.Elimination.Result.{Covered, run_job-Covered}
use worker_unit.Algorithm.Split.{TableData, AlgorithmPackage, find, update_all, erase}
use worker_unit.Algorithm.Split.Gather.{finishing, update_all-gathers}
use worker_unit.Base.Text.{is_empty}

-- The lines `a,t`, `x,yes`, `x,no` and `y,yes`.
abbrev table : FileDataBaseAccess
table = record {
  access_mode = read_file;
  read_write_data = [];
  read_data =
      (97 ∷ 44 ∷ 116 ∷ [])
      ∷ (120 ∷ 44 ∷ 121 ∷ 101 ∷ 115 ∷ [])
      ∷ (120 ∷ 44 ∷ 110 ∷ 111 ∷ [])
      ∷ (121 ∷ 44 ∷ 121 ∷ 101 ∷ 115 ∷ [])
      ∷ [];
  data_modified = false;
  file_deleted = false;
}

-- A job for the three data rows.
abbrev start_job : CandidateElimination
start_job = record {
  columns = 1;
  target_col = 1;
  total_positives = 0;
  total_negatives = 0;
  s = star ∷ [];
  g = star ∷ [];
  confirm_value = yes;
  start = 1;
  end = 3;
  start_set = false;
  file_data_base_access = table;
}

start_job-Reads : Reads start_job
start_job-Reads = (refl, refl, omega arith)

start_job-Fresh : Fresh equal start_job
start_job-Fresh = (refl, refl, refl, refl, omega arith)

run_job-Counted_example : Counted equal start_job
run_job-Counted_example = run_job-Counted equal start_job start_job-Reads start_job-Fresh

row_Starless : Starless (fields 3 table)
unfolding fields tokens adv_tokenizer add_head equal
row_Starless = (refl, (refl, tt))

row_positive : is_positive equal (fields 3 table) start_job ≡ true
unfolding fields tokens adv_tokenizer add_head equal is_positive is_confirmed
row_positive = refl

run_job-Covered_example : Covered equal equal-refl start_job 3
run_job-Covered_example =
    run_job-Covered equal equal-refl start_job 3 start_job-Reads start_job-Fresh (refl, refl)
      (omega arith) (omega arith) row_Starless row_positive

abbrev part : CeResultExportObject
part = record {
  total_columns = 1;
  total_positives = pos 2;
  total_negatives = pos 1;
  s = (120 ∷ []) ∷ [];
  g = (120 ∷ []) ∷ [];
}

-- The result of a part without a positive example.
abbrev empty_part : CeResultExportObject
empty_part = record {
  total_columns = 1;
  total_positives = negsuc 0;
  total_negatives = pos 0;
  s = star ∷ [];
  g = star ∷ [];
}

abbrev data_ : TableData
data_ = record {
  rows = 3;
  columns = 2;
  table_id = 84 ∷ [];
  priority = high_priority;
  instance_type = [];
}

abbrev one_result : AlgorithmPackage CeResultExportObject
one_result = record { table_data = data_; result_vectors = part ∷ [] }

one_result_found : find (84 ∷ []) ((84 ∷ [], one_result) ∷ []) ≡ some one_result
unfolding find equal
one_result_found = refl

id_given : is_empty (84 ∷ []) ≡ false
unfolding is_empty
id_given = refl

update_all-gathers_example :
    update_all 3 (84 ∷ []) (empty_part ∷ part ∷ []) ((84 ∷ [], one_result) ∷ []) ≡ (
      erase (84 ∷ []) ((84 ∷ [], one_result) ∷ []),
      finishing data_ (part ∷ empty_part ∷ part ∷ []),
    )
update_all-gathers_example =
    update_all-gathers 3 (84 ∷ []) one_result empty_part (part ∷ []) ((84 ∷ [], one_result) ∷ [])
      id_given one_result_found refl
