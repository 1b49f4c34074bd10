-- ===== src/DataProcessor/Pipeline/Unmodified.antt =====
-- Objects whose rows differ from their file without the flag that makes closing write them, and the
-- cleaner, for which the two agree.
use worker_unit.Base.{
  ◌≡◌, refl, subst, ◌∙◌, Bool, true, false, Option, none, some, List, [], ◌∷◌, leb, ltb, length,
  if◌then◌else◌,
}
use worker_unit.Base.Text.{Bytes}
use worker_unit.Base.Int.{ℤ, pos, negsuc, to_size}
use worker_unit.FileDatabase.{
  FileCode, FileDataBaseAccess, is_read, replace_row, write_row_value_list, get_row_value_list,
}
use worker_unit.DataProcessor.Validator.{ValidateData}
use worker_unit.DataProcessor.Validator

-- The flag, the mode, and whether the file was dropped.
abbrev pub SameFlags : FileDataBaseAccess → FileDataBaseAccess → Type 0
SameFlags d e =
    (e.data_modified ≡ d.data_modified)
    × (e.access_mode ≡ d.access_mode)
    × (e.file_deleted ≡ d.file_deleted)

abbrev Written : FileDataBaseAccess → Option (FileCode × FileDataBaseAccess) → Type 0
Written d none = Unit
Written d (some (code, e)) = SameFlags d e

if-Written :
    (d : FileDataBaseAccess) (b : Bool) (x y : Option (FileCode × FileDataBaseAccess))
    → Written d x
    → Written d y
    → Written d (if b then x else y)
if-Written d true x y h k = h
if-Written d false x y h k = k

replace-Written :
    (vs : List Bytes) (row : ℤ) (d : FileDataBaseAccess) → Written d (replace_row vs row d)
unfolding replace_row
replace-Written vs (negsuc n) d = (refl, refl, refl)
replace-Written [] (pos i) d = tt
replace-Written (v ∷ vs) (pos i) d =
    if-Written d (ltb i (length d.read_write_data)) _ none (refl, refl, refl) tt

write-Written :
    (vs : List Bytes) (row : ℤ) (d : FileDataBaseAccess) → Written d (write_row_value_list vs row d)
unfolding write_row_value_list
write-Written vs row d =
    if-Written d d.file_deleted _ _ (refl, refl, refl)
      (if-Written d (is_read d.access_mode) _ _ (refl, refl, refl)
        (if-Written d (ltb (length d.read_write_data) (to_size row)) _ _ (refl, refl, refl)
          (replace-Written vs row d)))

module _ (iequals : Bytes → Bytes → Bool) where
  -- A validation job after some of its calls.
  pub data Runs (v : ValidateData) : ValidateData → Type 0 where
    none_yet : Runs v v
    after :
        {w : ValidateData} (b : Bool) (x : ValidateData)
        → Runs v w
        → Validator.process_feild iequals w ≡ some (b, x)
        → Runs v x

  abbrev Kept : ValidateData → Option (Bool × ValidateData) → Type 0
  Kept v none = Unit
  Kept v (some (b, w)) = SameFlags v.file_data_base_access w.file_data_base_access

  if-Kept :
      (v : ValidateData) (b : Bool) (x y : Option (Bool × ValidateData))
      → Kept v x
      → Kept v y
      → Kept v (if b then x else y)
  if-Kept v true x y h k = h
  if-Kept v false x y h k = k

  written-Kept :
      (v : ValidateData) (o : Option (FileCode × FileDataBaseAccess))
      → Written v.file_data_base_access o
      → Kept v (Validator.written iequals o v)
  unfolding Validator.written
  written-Kept v none h = tt
  written-Kept v (some (code, d)) h = h

  store-Kept :
      (temp : Option (List Bytes)) (fs : List Bytes) (v : ValidateData)
      → Kept v (Validator.store_fields iequals temp fs v)
  unfolding Validator.store_fields
  store-Kept none fs v = tt
  store-Kept (some temp) fs v =
      if-Kept v (Validator.equal_lists temp fs) _ _ (refl, refl, refl)
        (written-Kept v _ (write-Written temp (pos v.iterator) v.file_data_base_access))

  row-Kept :
      (o : Option (List Bytes)) (v : ValidateData) → Kept v (Validator.process_row iequals o v)
  unfolding Validator.process_row
  row-Kept none v = tt
  row-Kept (some fs) v =
      store-Kept (Validator.clean_fields iequals v.columns 0 v.possible_fields fs) fs v

  process-Kept : (v : ValidateData) → Kept v (Validator.process_feild iequals v)
  unfolding Validator.process_feild
  process-Kept v =
      if-Kept v (leb v.rows v.iterator) _ _ (refl, refl, refl)
        (row-Kept (get_row_value_list (pos v.iterator) v.file_data_base_access) v)

  -- A validation job never marks its object as modified.
  pub Runs-SameFlags :
      {v w : ValidateData} → Runs v w → SameFlags v.file_data_base_access w.file_data_base_access
  Runs-SameFlags none_yet = (refl, refl, refl)
  Runs-SameFlags (after {w} b x r e) =
      let (p, q, s) = subst (Kept w) e (process-Kept w) in
      let (p', q', s') = Runs-SameFlags r in (p ∙ p', q ∙ q', s ∙ s')
