-- ===== src/DataProcessor/Cleaner/Commits.antt =====
-- What of the cleaner's rows reaches the table's file.
use worker_unit.Base.{
  ℕ, zero, suc, ◌≡◌, refl, ap, sym, subst, ◌∙◌, Bool, true, false, ◌||◌, Option, none, some, List,
  [], ◌∷◌, leb, length, Bool-cases, inl, inr, arith, All,
}
use worker_unit.Base.Text.{Bytes, equal}
use worker_unit.FileDatabase.{
  FileAccessType, read_file, rw_file, FileDataBaseAccess, newline, rows, erase_equal,
  erase_duplicates, delete_duplicate_records, split_string_by_newline, open_file, read_lines,
  close_file, commit_changes,
}
use worker_unit.FileDatabase.Text.{split-Free, Free}
use worker_unit.FileDatabase.Commit.{open_file-close_file}
use worker_unit.DataProcessor.Cleaner.{DataCleaner, new_data_cleaner, run_job}
use worker_unit.DataProcessor.Cleaner.Runs.{
  rows_of, Writes, cleaned, start_more, run_more, run_last,
}

All-erase_equal {ℓ} :
    (P : Bytes → Type ℓ) (s : Bytes) (rs : List Bytes) → All P rs → All P (erase_equal s rs).0
unfolding erase_equal
All-erase_equal P s [] h = tt
All-erase_equal P s (r ∷ rs) (h, hs) = elim (Bool-cases (equal s r)) [
  | inl e ↦ rw e (All-erase_equal P s rs hs)
  | inr e ↦ rw e (h, All-erase_equal P s rs hs)
]

All-erase_duplicates {ℓ} :
    (P : Bytes → Type ℓ) (i : ℕ) (rs : List Bytes) → All P rs → All P (erase_duplicates i rs).0
unfolding erase_duplicates
All-erase_duplicates P i [] h = tt
All-erase_duplicates P zero (r ∷ rs) (h, hs) = (h, All-erase_equal P r rs hs)
All-erase_duplicates P (suc i) (r ∷ rs) (h, hs) = (h, All-erase_duplicates P i rs hs)

erase_equal-unmodified :
    (s : Bytes) (rs : List Bytes) → (erase_equal s rs).1 ≡ false → (erase_equal s rs).0 ≡ rs
unfolding erase_equal
erase_equal-unmodified s [] h = refl
erase_equal-unmodified s (r ∷ rs) h = elim (Bool-cases (equal s r)) [
  | inl e ↦ cc (rw e at h)
  | inr e ↦ rw e (ap (λ t. r ∷ t) (erase_equal-unmodified s rs (rw e at h)))
]

erase_duplicates-unmodified :
    (i : ℕ) (rs : List Bytes) → (erase_duplicates i rs).1 ≡ false → (erase_duplicates i rs).0 ≡ rs
unfolding erase_duplicates
erase_duplicates-unmodified i [] h = refl
erase_duplicates-unmodified zero (r ∷ rs) h = ap (λ t. r ∷ t) (erase_equal-unmodified r rs h)
erase_duplicates-unmodified (suc i) (r ∷ rs) h =
    ap (λ t. r ∷ t) (erase_duplicates-unmodified i rs h)

-- The rows can be read back from the file once the object is closed, if the file had `before`.
pub record InSync (before : List Bytes) (c : DataCleaner) : Type 0 where
  pub writes : Writes c
  pub unmodified : c.file_data_base_access.data_modified ≡ false → rows_of c ≡ before
  pub free : All (Free newline) (rows_of c)

cleaned-modified :
    (c : DataCleaner)
    → Writes c
    → leb (length (rows_of c)) c.iterator ≡ false
    → (cleaned c).file_data_base_access.data_modified
      ≡ (c.file_data_base_access.data_modified || (erase_duplicates c.iterator (rows_of c)).1)
unfolding delete_duplicate_records
cleaned-modified c (a, b) h = simp (a, b, h) refl

or_false : (a b : Bool) → (a || b) ≡ false → (a ≡ false) × (b ≡ false)
or_false true b h = absurd (cc)
or_false false b h = (refl, h)

cleaned-InSync :
    (before : List Bytes) (c : DataCleaner)
    → InSync before c
    → leb (length (rows_of c)) c.iterator ≡ false
    → InSync before (cleaned c)
cleaned-InSync before c v e =
    let (_, p, w) = start_more c v.writes e in
    record {
      writes = w;
      unmodified = λ m.
          let (f, g) = or_false _ _ (sym (cleaned-modified c v.writes e) ∙ m) in
          p ∙ erase_duplicates-unmodified c.iterator (rows_of c) g ∙ v.unmodified f;
      free =
          subst (All (Free newline)) (sym p)
            (All-erase_duplicates (Free newline) c.iterator (rows_of c) v.free);
    }

abbrev pub Synced : List Bytes → Option DataCleaner → Type 0
Synced before none = Unit
Synced before (some c) = InSync before c

pub run_job-Synced :
    (n : ℕ) (before : List Bytes) (c : DataCleaner) → InSync before c → Synced before (run_job n c)
unfolding run_job
run_job-Synced zero before c v = tt
run_job-Synced (suc n) before c v = elim (Bool-cases (leb (length (rows_of c)) c.iterator)) [
  | inl e ↦
      subst (Synced before) (sym (run_last n c v.writes e))
        (record { writes = v.writes; unmodified = v.unmodified; free = v.free })
  | inr e ↦
      subst (Synced before) (sym (run_more n c v.writes e))
        (run_job-Synced n before (cleaned c) (cleaned-InSync before c v e))
]

pub new_data_cleaner-InSync :
    (text : Bytes) → InSync (split_string_by_newline text) (new_data_cleaner (some text))
unfolding new_data_cleaner open_file read_lines
new_data_cleaner-InSync text = record {
  writes = (refl, refl);
  unmodified = λ h. refl;
  free = split-Free text;
}

-- Closing an object that is not marked as modified changes nothing.
pub close_file_unmodified :
    (d : FileDataBaseAccess) (disk : Option Bytes)
    → d.data_modified ≡ false
    → close_file d disk ≡ disk
unfolding close_file commit_changes
close_file_unmodified d disk h = ground arith

pub rows-open_file :
    (mode : FileAccessType) (text : Bytes)
    → rows (open_file mode (some text)) ≡ split_string_by_newline text
unfolding open_file read_lines
rows-open_file read_file text = refl
rows-open_file rw_file text = refl

-- Closing such an object and opening the file again gives its rows.
pub open_file-InSync :
    (mode : FileAccessType) (text : Bytes) (c : DataCleaner)
    → InSync (split_string_by_newline text) c
    → rows (open_file mode (close_file c.file_data_base_access (some text))) ≡ rows_of c
open_file-InSync mode text c v = elim (Bool-cases c.file_data_base_access.data_modified) [
  | inl m ↦
      open_file-close_file mode c.file_data_base_access (some text) v.writes.0 v.writes.1 m v.free
  | inr m ↦
      ap (λ d. rows (open_file mode d))
        (close_file_unmodified c.file_data_base_access (some text) m)
      ∙ rows-open_file mode text
      ∙ sym (v.unmodified m)
]
