-- ===== src/DataProcessor/Stages.antt =====
-- data_processor/data_tracker.cpp: the validation jobs of a table, and the step that follows the
-- last of them.
use worker_unit.Base.{
  ℕ, zero, suc, ◌+◌, ◌*◌, ◌/◌, Bool, true, false, Option, none, some, List, [], ◌∷◌, leb, ◌==◌,
  if◌then◌else◌,
}
pub mod Order

-- The loop of `schedule_validate_phase` from `i`, with the rounds that are left: the rows with which
-- the jobs are made.
unfoldable pub validate_ranges_from : ℕ → ℕ → ℕ → ℕ → ℕ → ℕ → List (ℕ × ℕ)
validate_ranges_from zero i start end multiplier rows = []
validate_ranges_from (suc n) i start end multiplier rows =
    let next = end + multiplier * i in
    (start, end)
    ∷ validate_ranges_from n (i + 1) (end + 1) (if leb (next + 1) rows then next + 1 else next)
        multiplier rows

unfoldable pub validate_ranges : ℕ → ℕ → List (ℕ × ℕ)
unfolding validate_ranges_from
validate_ranges threads rows =
    validate_ranges_from threads 1 1 (rows / threads) (rows / threads) rows

-- `cleanStageMap`, from the addresses of tables.
abbrev pub CleanStageMap : Type 0
CleanStageMap = List (ℕ × ℕ)

unfoldable pub count_of : ℕ → CleanStageMap → Option ℕ
count_of k [] = none
count_of k (e ∷ m) = if k == e.0 then some e.1 else count_of k m

-- `cleanStageMap[tableData] = n`
unfoldable pub set_count : ℕ → ℕ → CleanStageMap → CleanStageMap
set_count k n [] = (k, n) ∷ []
set_count k n (e ∷ m) = let rest = set_count k n m in if k == e.0 then (k, n) ∷ m else e ∷ rest

-- The jobs come first, then the entry. `none` is a division by zero threads.
unfoldable pub schedule_validate_phase :
    ℕ → ℕ → ℕ → CleanStageMap → Option (List (ℕ × ℕ) × CleanStageMap)
unfolding validate_ranges set_count
schedule_validate_phase threads k rows m =
    if threads == 0 then none else some (validate_ranges threads rows, set_count k 0 m)

-- Whether the code is 0, the map, and whether the table was sent back and given to the algorithm.
unfoldable pub bump : ℕ → ℕ → Option ℕ → CleanStageMap → Bool × CleanStageMap × Bool
unfolding set_count
bump threads k none m = (false, m, false)
bump threads k (some n) m = (true, set_count k (n + 1) m, leb threads (n + 1))

-- `none` is a null pointer.
unfoldable pub update_clean_stages : ℕ → Option ℕ → CleanStageMap → Bool × CleanStageMap × Bool
unfolding bump count_of
update_clean_stages threads none m = (false, m, false)
update_clean_stages threads (some k) m = bump threads k (count_of k m) m

-- So many jobs of the table end one after the other; for each, whether the algorithm is scheduled.
unfoldable pub update_times : ℕ → ℕ → ℕ → CleanStageMap → List Bool × CleanStageMap
unfolding update_clean_stages
update_times threads zero k m = ([], m)
update_times threads (suc n) k m =
    let (code, m', scheduled) = update_clean_stages threads (some k) m in
    let (flags, m'') = update_times threads n k m' in (scheduled ∷ flags, m'')
