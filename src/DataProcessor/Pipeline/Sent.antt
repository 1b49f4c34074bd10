-- ===== src/DataProcessor/Pipeline/Sent.antt =====
-- A table from the cleaner to the packet that is sent back.
use worker_unit.Base.{
  ℕ, zero, suc, ◌+◌, ◌≡◌, refl, ap, sym, subst, ◌∙◌, Bool, true, false, Option, some, List, [], ◌∷◌,
  ◌++◌, map, length, arith, All,
}
use worker_unit.Base.Text.{Bytes}
use worker_unit.FileDatabase.{rw_file, open_file, rows, close_file, split_string_by_newline}
use worker_unit.Algorithm.Split.{TableData}
use worker_unit.DataProcessor.Cleaner.Commits.{close_file_unmodified, rows-open_file}
use worker_unit.DataProcessor.Stages.{
  CleanStageMap, count_of, set_count, update_clean_stages, validate_ranges, validate_ranges_from,
}
use worker_unit.DataProcessor.Stages.Order.{update-early, update-full, count_of-set_count}
use worker_unit.DataProcessor.Validator.{ValidateData, new_validate_data}
use worker_unit.DataProcessor.Pipeline.{
  Effect, validators, send_cleaned, validate_data_finalize, validators_finalize,
}

abbrev pub Unmodified : ValidateData → Type 0
Unmodified v = v.file_data_base_access.data_modified ≡ false

finalize_one :
    (threads address : ℕ) (t : TableData) (v : ValidateData) (m m' : CleanStageMap)
    (disk : Option Bytes) (full : Bool)
    → Unmodified v
    → update_clean_stages threads (some address) m ≡ (true, m', full)
    → validate_data_finalize threads address t v m disk ≡ (send_cleaned full t disk, m', disk)
unfolding validate_data_finalize
finalize_one threads address t v m m' disk full u e =
    ap (λ r. (send_cleaned r.2 t disk, r.1, close_file v.file_data_base_access disk)) e
    ∙ ap (λ d. (send_cleaned full t disk, m', d))
        (close_file_unmodified v.file_data_base_access disk u)

-- What the jobs of a table do that are still to end.
abbrev pub SendsOnce :
    ℕ → TableData → Option Bytes → List Effect × CleanStageMap × Option Bytes → Type 0
SendsOnce threads t disk (effects, m, disk') = (effects ≡ send_cleaned true t disk) × (disk' ≡ disk)

finalize_cons :
    (threads address : ℕ) (t : TableData) (v : ValidateData) (vs : List ValidateData)
    (m m' : CleanStageMap) (disk disk' : Option Bytes) (effects : List Effect)
    → validate_data_finalize threads address t v m disk ≡ (effects, m', disk')
    → validators_finalize threads address t (v ∷ vs) m disk ≡ (
        let (later, m'', disk'') = validators_finalize threads address t vs m' disk' in
        (effects ++ later, m'', disk''))
unfolding validators_finalize
finalize_cons threads address t v vs m m' disk disk' effects e =
    ap
      (λ r.
        let (later, m'', disk'') = validators_finalize threads address t vs r.1 r.2 in
        (r.0 ++ later, m'', disk''))
      e

pub finalize-SendsOnce :
    (threads address k : ℕ) (t : TableData) (v : ValidateData) (vs : List ValidateData)
    (m : CleanStageMap) (disk : Option Bytes)
    → Unmodified v
    → All Unmodified vs
    → count_of address m ≡ some k
    → k + suc (length vs) ≡ threads
    → SendsOnce threads t disk (validators_finalize threads address t (v ∷ vs) m disk)
unfolding validators_finalize send_cleaned
finalize-SendsOnce threads address k t v [] m disk u us c e =
    subst (SendsOnce threads t disk)
      (sym (
        finalize_cons threads address t v [] m _ disk disk _ (
          finalize_one threads address t v m _ disk true u
            (update-full threads k address m c (omega arith)))))
      (refl, refl)
finalize-SendsOnce threads address k t v (w ∷ ws) m disk u (uw, us) c e =
    subst (SendsOnce threads t disk)
      (sym (
        finalize_cons threads address t v (w ∷ ws) m _ disk disk _ (
          finalize_one threads address t v m _ disk false u
            (update-early threads k address m c (omega arith)))))
      (finalize-SendsOnce threads address (k + 1) t w ws (set_count address (k + 1) m) disk uw us
        (count_of-set_count address (k + 1) m) (omega arith))

length-ranges_from :
    (n i start end multiplier rows : ℕ)
    → length (validate_ranges_from n i start end multiplier rows) ≡ n
unfolding validate_ranges_from
length-ranges_from zero i start end multiplier rows = refl
length-ranges_from (suc n) i start end multiplier rows = ap suc (length-ranges_from n _ _ _ _ _)

length-map {ℓ κ} :
    {A : Type ℓ} {B : Type κ} (f : A → B) (xs : List A) → length (map f xs) ≡ length xs
length-map f [] = refl
length-map f (x ∷ xs) = ap suc (length-map f xs)

All-map {ℓ κ μ} :
    {A : Type ℓ} {B : Type κ} (P : B → Type μ) (f : A → B) (xs : List A)
    → ((x : A) → P (f x))
    → All P (map f xs)
All-map P f [] h = tt
All-map P f (x ∷ xs) h = (h x, All-map P f xs h)

-- A job as its constructor leaves it: it has read the rows that the file had then.
abbrev pub Made : Bytes → ValidateData → Type 0
Made text j =
    (j.file_data_base_access.read_write_data ≡ split_string_by_newline text) × Unmodified j

pub validators-Made :
    (threads : ℕ) (t : TableData) (possible : List (Option (List Bytes))) (text : Bytes)
    → (length (validators threads t possible (some text)) ≡ threads)
      × All (Made text) (validators threads t possible (some text))
unfolding validators validate_ranges new_validate_data open_file
validators-Made threads t possible text = (
  length-map _ (validate_ranges threads t.rows) ∙ length-ranges_from threads _ _ _ _ _,
  All-map (Made text) _ (validate_ranges threads t.rows) (λ r. (rows-open_file rw_file text, refl)),
)
