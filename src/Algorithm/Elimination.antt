-- ===== src/Algorithm/Elimination.antt =====
-- algorithm/candidate_elemination.cpp: the hypothesis that the rows of one part of a table give.
use worker_unit.Base.{
  ℕ, zero, suc, ◌+◌, ◌-◌, Bool, true, false, not, ◌&&◌, Option, none, some, List, [], ◌∷◌, leb,
  ◌==◌, if◌then◌else◌, length, get_elem?,
}
use worker_unit.Base.Text.{Bytes, equal, is_empty}
use worker_unit.Base.Int.{ℤ, pos, negsuc}
use worker_unit.FileDatabase.{FileDataBaseAccess, get_row_value_list, open_file, read_file}
use worker_unit.Scheduler.Job.{JobStatus, job_done, job_pending}
pub mod Rows
pub mod Counts
pub mod Cover
pub mod Result

abbrev pub star : Bytes
star = 42 ∷ []

abbrev pub question : Bytes
question = 63 ∷ []

abbrev pub yes : Bytes
yes = 121 ∷ 101 ∷ 115 ∷ []

-- `start` is the next row to read and `end` the last one; both are within a table, so not negative.
pub record CandidateElimination : Type 0 where
  pub columns : ℕ
  pub target_col : ℕ
  pub total_positives : ℕ
  pub total_negatives : ℕ
  pub s : List Bytes
  pub g : List Bytes
  pub confirm_value : Bytes
  pub start : ℕ
  pub end : ℕ
  pub start_set : Bool
  pub file_data_base_access : FileDataBaseAccess

-- `struct CeResultExportObject`
pub record CeResultExportObject : Type 0 where
  pub total_columns : ℕ
  pub total_positives : ℤ
  pub total_negatives : ℤ
  pub s : List Bytes
  pub g : List Bytes

unfoldable pub stars : ℕ → List Bytes
stars zero = []
stars (suc n) = star ∷ stars n

unfoldable pub confirmed : Option Bytes → Option Bytes
unfolding is_empty
confirmed none = none
confirmed (some v) = some (if is_empty v then yes else v)

-- `getColumnValues(...)[0]`
unfoldable pub first_value : Option (List Bytes) → Option Bytes
first_value none = none
first_value (some vs) = get_elem? vs 0

-- The two queries of sqlite_database_access.cpp, with `none` for a null result.
module _ (column_names : Bytes → ℕ → Option (List Bytes))
    (column_values : Bytes → Bytes → ℕ → Option (List Bytes)) where
  -- `none` is an access to an array past its end or through a null pointer.
  unfoldable pub get_confirm_value : Bytes → ℕ → Option Bytes
  unfolding first_value confirmed
  get_confirm_value instance_id columns = elim (column_names instance_id columns) [
    | none ↦ some yes
    | some names ↦ elim (get_elem? names (columns - 1)) [
      | none ↦ none
      | some name ↦ confirmed (first_value (column_values instance_id name 2))
    ]
  ]

  -- A table has at least one column, so `columns - 1` is not negative.
  unfoldable pub new_candidate_elimination :
      Option Bytes → Bytes → ℕ → ℕ → ℕ → Option CandidateElimination
  unfolding get_confirm_value stars open_file
  new_candidate_elimination disk instance_id start end columns =
      elim (get_confirm_value instance_id columns) [
        | none ↦ none
        | some confirm ↦ some (record {
          columns = columns - 1;
          target_col = columns - 1;
          total_positives = 0;
          total_negatives = 0;
          s = stars (columns - 1);
          g = stars (columns - 1);
          confirm_value = confirm;
          start = start;
          end = end;
          start_set = false;
          file_data_base_access = open_file read_file disk;
        })
      ]

unfoldable pub pending : Option CandidateElimination → Option (JobStatus × CandidateElimination)
pending none = none
pending (some ce) = some (job_pending, ce)

unfoldable pub started : Option CandidateElimination → Option (JobStatus × CandidateElimination)
started none = none
started (some ce) = some (job_pending, record ce { start_set = true })

unfoldable pub again :
    Option (JobStatus × CandidateElimination)
    → (CandidateElimination → Option CandidateElimination)
    → Option CandidateElimination
again none f = none
again (some (job_done, ce)) f = some ce
again (some (_, ce)) f = f ce

-- `boost::iequals`
module _ (iequals : Bytes → Bytes → Bool) where
  -- The loop over the columns for a positive example. `s` and `g` have one entry for each column, and
  -- the row has one more field.
  unfoldable pub positive_columns : List Bytes → List Bytes → List Bytes → List Bytes × List Bytes
  unfolding equal
  positive_columns (s ∷ ss) (g ∷ gs) (v ∷ vs) =
      let (ss', gs') = positive_columns ss gs vs in
      if equal s star
      then (v ∷ ss', g ∷ gs')
      else if not (iequals s v)
      then (question ∷ ss', question ∷ gs')
      else (s ∷ ss', g ∷ gs')
  positive_columns _ _ _ = ([], [])

  unfoldable pub negative_columns : List Bytes → List Bytes → List Bytes → List Bytes
  negative_columns (s ∷ ss) (g ∷ gs) (v ∷ vs) =
      (if not (iequals s v) && not (iequals g question) then s else question)
      ∷ negative_columns ss gs vs
  negative_columns _ _ _ = []

  unfoldable pub compare_with : Bytes → List Bytes → CandidateElimination → CandidateElimination
  unfolding positive_columns negative_columns
  compare_with target vs ce =
      if iequals target ce.confirm_value
      then (let (s', g') = positive_columns ce.s ce.g vs in
          record ce { total_positives = ce.total_positives + 1; s = s'; g = g' })
      else record ce { total_negatives = ce.total_negatives + 1; g = negative_columns ce.s ce.g vs }

  -- `none` is `valueList[targetCol]` past the end.
  unfoldable pub compare_at :
      Option Bytes → List Bytes → CandidateElimination → Option CandidateElimination
  compare_at none vs ce = none
  compare_at (some target) vs ce = some (compare_with target vs ce)

  unfoldable pub compare : List Bytes → CandidateElimination → Option CandidateElimination
  unfolding compare_at
  compare vs ce = compare_at (get_elem? vs ce.target_col) vs ce

  unfoldable pub is_confirmed : Bytes → Option Bytes → Bool
  is_confirmed confirm none = false
  is_confirmed confirm (some target) = iequals target confirm

  unfoldable pub is_positive : List Bytes → CandidateElimination → Bool
  unfolding is_confirmed
  is_positive vs ce =
      length vs == ce.columns + 1 && is_confirmed ce.confirm_value (get_elem? vs ce.target_col)

  unfoldable pub first_positive :
      Option (List Bytes) → Option (List Bytes) → CandidateElimination → Option (List Bytes)
  unfolding is_positive
  first_positive none rest ce = none
  first_positive (some vs) rest ce = if is_positive vs ce then some vs else rest

  -- The while loop with its remaining number of rows; the empty list says that there is none.
  unfoldable pub find_positive : ℕ → ℕ → CandidateElimination → Option (List Bytes)
  unfolding first_positive
  find_positive zero row ce = some []
  find_positive (suc n) row ce =
      first_positive (get_row_value_list (pos row) ce.file_data_base_access)
        (find_positive n (row + 1) ce) ce

  unfoldable pub get_first_postive : CandidateElimination → Option (List Bytes)
  unfolding find_positive
  get_first_postive ce = find_positive (suc ce.end - ce.start) ce.start ce

  -- The result of `getNextRow`, with `none` for -1.
  unfoldable pub get_next_row : CandidateElimination → Option ℕ × CandidateElimination
  get_next_row ce =
      if leb ce.start ce.end
      then (some ce.start, record ce { start = ce.start + 1 })
      else (none, ce)

  unfoldable pub start_with :
      Option (List Bytes) → CandidateElimination → Option (JobStatus × CandidateElimination)
  unfolding compare started
  start_with none ce = none
  start_with (some []) ce = some (job_done, ce)
  start_with (some (v ∷ vs)) ce = started (compare (v ∷ vs) ce)

  unfoldable pub use_row :
      Option (List Bytes) → CandidateElimination → Option (JobStatus × CandidateElimination)
  unfolding compare pending
  use_row none ce = none
  use_row (some vs) ce =
      if length vs == ce.columns + 1 then pending (compare vs ce) else some (job_pending, ce)

  unfoldable pub next_row :
      Option ℕ × CandidateElimination → Option (JobStatus × CandidateElimination)
  unfolding use_row
  next_row (none, ce) = some (job_done, ce)
  next_row (some row, ce) = use_row (get_row_value_list (pos row) ce.file_data_base_access) ce

  unfoldable pub candidate_elimination_start :
      CandidateElimination → Option (JobStatus × CandidateElimination)
  unfolding start_with get_first_postive next_row get_next_row
  candidate_elimination_start ce =
      if not ce.start_set then start_with (get_first_postive ce) ce else next_row (get_next_row ce)

  -- The thread's calls until the job is done; `none` also stands for more calls than given.
  unfoldable pub run_job : ℕ → CandidateElimination → Option CandidateElimination
  unfolding again candidate_elimination_start
  run_job zero ce = none
  run_job (suc n) ce = again (candidate_elimination_start ce) (run_job n)

-- `getTotalPositives() - 1`
unfoldable pub minus_one : ℕ → ℤ
minus_one zero = negsuc 0
minus_one (suc n) = pos n

-- The result object of `candidate_elimination_end`.
unfoldable pub candidate_elimination_end : CandidateElimination → CeResultExportObject
unfolding minus_one
candidate_elimination_end ce = record {
  total_columns = ce.columns;
  total_positives = minus_one ce.total_positives;
  total_negatives = pos ce.total_negatives;
  s = ce.s;
  g = ce.g;
}
