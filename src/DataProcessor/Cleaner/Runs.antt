-- ===== src/DataProcessor/Cleaner/Runs.antt =====
-- The cleaning job ends, and leaves each row of the table once.
use worker_unit.Base.{
  ℕ, zero, suc, ◌+◌, ◌≤◌, ◌≡◌, refl, sym, ap, ◌∙◌, subst, true, false, Option, none, some, List,
  arith, leb, leb→le, length, Bool-cases, inl, inr,
}
use worker_unit.Base.Text.{Bytes}
use worker_unit.Base.Int.{pos}
use worker_unit.Scheduler.Job.{job_done, job_pending}
use worker_unit.FileDatabase.{is_read, delete_duplicate_records, erase_duplicates}
use worker_unit.FileDatabase.Duplicates.{
  member, Distinct, DistinctTo, DistinctTo-Distinct, member-erase_duplicates,
  erase_duplicates-DistinctTo, length-erase_duplicates,
}
use worker_unit.DataProcessor.Cleaner.{DataCleaner, clean, clean_data_start, again, run_job}

abbrev pub rows_of : DataCleaner → List Bytes
rows_of c = c.file_data_base_access.read_write_data

-- The object is open for writing.
abbrev pub Writes : DataCleaner → Type 0
Writes c =
    (is_read c.file_data_base_access.access_mode ≡ false)
    × (c.file_data_base_access.file_deleted ≡ false)

-- The state after a call that is not the last one.
abbrev pub cleaned : DataCleaner → DataCleaner
cleaned c =
    let d = (delete_duplicate_records (pos c.iterator) c.file_data_base_access).1 in
    record { iterator = c.iterator + 1; file_data_base_access = d }

pub start_more :
    (c : DataCleaner)
    → Writes c
    → leb (length (rows_of c)) c.iterator ≡ false
    → (clean_data_start c ≡ (job_pending, cleaned c))
      × (rows_of (cleaned c) ≡ (erase_duplicates c.iterator (rows_of c)).0)
      × Writes (cleaned c)
unfolding clean_data_start clean delete_duplicate_records
start_more c (a, b) h = simp (a, b, h) (refl, refl, (refl, refl))

start_last :
    (c : DataCleaner)
    → Writes c
    → leb (length (rows_of c)) c.iterator ≡ true
    → clean_data_start c ≡ (job_done, record c { iterator = c.iterator + 1 })
unfolding clean_data_start clean delete_duplicate_records
start_last c (a, b) h = simp (a, b, h) refl

-- The table at the end of the job.
abbrev pub Cleaned : List Bytes → Option DataCleaner → Type 0
Cleaned before none = ⊥
Cleaned before (some c) =
    Distinct (rows_of c)
    × (length (rows_of c) ≤ length before)
    × ((x : Bytes) → member x (rows_of c) ≡ member x before)

pub run_more :
    (n : ℕ) (c : DataCleaner)
    → Writes c
    → leb (length (rows_of c)) c.iterator ≡ false
    → run_job (suc n) c ≡ run_job n (cleaned c)
unfolding run_job again
run_more n c w h = ap (λ x. again x (run_job n)) (start_more c w h).0

pub run_last :
    (n : ℕ) (c : DataCleaner)
    → Writes c
    → leb (length (rows_of c)) c.iterator ≡ true
    → run_job (suc n) c ≡ some (record c { iterator = c.iterator + 1 })
unfolding run_job again
run_last n c w h = ap (λ x. again x (run_job n)) (start_last c w h)

Cleaned-before :
    (xs ys : List Bytes) (o : Option DataCleaner)
    → length ys ≤ length xs
    → ((x : Bytes) → member x ys ≡ member x xs)
    → Cleaned ys o
    → Cleaned xs o
Cleaned-before xs ys none h m c = c
Cleaned-before xs ys (some c) h m (d, l, k) = (d, omega arith, λ x. k x ∙ m x)

le→leb : (a b : ℕ) → a ≤ b → leb a b ≡ true
le→leb a b h = ground arith

add_one : (n : ℕ) → suc n ≡ n + 1
add_one n = omega arith

finished :
    (n : ℕ) (c : DataCleaner)
    → Writes c
    → DistinctTo c.iterator (rows_of c)
    → leb (length (rows_of c)) c.iterator ≡ true
    → Cleaned (rows_of c) (run_job (suc n) c)
finished n c w d e =
    rw (run_last n c w e)
      (DistinctTo-Distinct c.iterator (rows_of c) (leb→le _ _ e) d, omega arith, λ x. refl)

DistinctTo-cleaned :
    (c : DataCleaner)
    → rows_of (cleaned c) ≡ (erase_duplicates c.iterator (rows_of c)).0
    → DistinctTo c.iterator (rows_of c)
    → DistinctTo (c.iterator + 1) (rows_of (cleaned c))
DistinctTo-cleaned c p d =
    subst (λ i. DistinctTo i (rows_of (cleaned c))) (add_one c.iterator)
      (subst (DistinctTo (suc c.iterator)) (sym p)
        (erase_duplicates-DistinctTo c.iterator (rows_of c) d))

run_job-Cleaned_from :
    (n : ℕ) (c : DataCleaner)
    → Writes c
    → length (rows_of c) ≤ c.iterator + n
    → DistinctTo c.iterator (rows_of c)
    → Cleaned (rows_of c) (run_job (suc n) c)
run_job-Cleaned_from zero c w h d = finished zero c w d (le→leb _ _ (omega arith))
run_job-Cleaned_from (suc n) c w h d = elim (Bool-cases (leb (length (rows_of c)) c.iterator)) [
  | inl e ↦ finished (suc n) c w d e
  | inr e ↦
      let (_, p, w') = start_more c w e in
      let l = length-erase_duplicates c.iterator (rows_of c) in
      let q = subst (λ rs. length rs ≤ length (rows_of c)) (sym p) l in
      rw (run_more (suc n) c w e) (
        Cleaned-before (rows_of c) (rows_of (cleaned c)) _ q
          (λ x. ap (member x) p ∙ member-erase_duplicates x c.iterator (rows_of c))
          (run_job-Cleaned_from n (cleaned c) w' (omega arith) (DistinctTo-cleaned c p d)))
]

-- On a table that is open for writing the cleaning job ends after at most one more call than the
-- table has rows. Then no row occurs twice, and exactly the rows that the table had are in it.
pub run_job-Cleaned :
    (c : DataCleaner)
    → Writes c
    → c.iterator ≡ 0
    → Cleaned (rows_of c) (run_job (suc (length (rows_of c))) c)
run_job-Cleaned c w h =
    run_job-Cleaned_from (length (rows_of c)) c w (omega arith)
      (subst (λ i. DistinctTo i (rows_of c)) (sym h) tt)
