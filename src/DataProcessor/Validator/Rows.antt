-- ===== src/DataProcessor/Validator/Rows.antt =====
-- Which rows a validation job works on, and what of it reaches the file.
use mathlib.Core.List.{append_assoc, append-nil}
use worker_unit.Base.{
  sym, ◌++◌, ◌⊎◌, ℕ, ◌+◌, ◌<◌, ◌≤◌, ◌≡◌, refl, ap, ◌∙◌, Bool, true, false, not, ◌&&◌, Option, some,
  List, [], ◌∷◌, arith, leb, ltb, if_true, if_false, length, set, Bool-cases, inl, inr,
}
use worker_unit.Base.Text.{Bytes, equal-eq}
use worker_unit.Base.Int.{pos}
use worker_unit.FileDatabase.{
  success, comma, adv_tokenizer, find_row, row_text, tokens_of, FileDataBaseAccess, is_read,
  append_values, replace_row, write_row_value_list, close_file, commit_changes, get_row_value_list,
}
use worker_unit.DataProcessor.Validator.{
  ValidateData, equal_lists, written, store_fields, process_row, process_feild, clean_fields,
}
use worker_unit.DataProcessor.Validator.Fields.{AllValidated, clean_fields-AllValidated}

-- The fields with commas between them.
abbrev pub separated : List Bytes → Bytes
separated [] = []
separated (v ∷ vs) = comma ∷ (v ++ separated vs)

abbrev pub row_of : List Bytes → Bytes
row_of [] = []
row_of (f ∷ fs) = f ++ separated fs

append_values-separated : (s : Bytes) (vs : List Bytes) → append_values s vs ≡ s ++ separated vs
unfolding append_values
append_values-separated s [] = sym (append-nil s)
append_values-separated s (v ∷ vs) =
    append_values-separated (s ++ (comma ∷ v)) vs ∙ append_assoc s (comma ∷ v) (separated vs)

-- The row has the fields `fs'` in place of `fs`, and nothing else differs, not even the mark of a
-- modified object.
abbrev pub Replaced : ℕ → List Bytes → List Bytes → FileDataBaseAccess → FileDataBaseAccess → Type 0
Replaced i fs fs' d d' =
    (fs' ≡ fs) × (d' ≡ d)
    ⊎ (d' ≡ record d { read_write_data = set d.read_write_data i (row_of fs') })

equal_lists-eq : (xs ys : List Bytes) → equal_lists xs ys ≡ true → xs ≡ ys
unfolding equal_lists
equal_lists-eq [] [] h = refl
equal_lists-eq [] (y ∷ ys) h = cc
equal_lists-eq (x ∷ xs) [] h = cc
equal_lists-eq (x ∷ xs) (y ∷ ys) h =
    let p = equal-eq x y (ground arith) in let q = equal_lists-eq xs ys (ground arith) in cc

le→ltb_false : (a b : ℕ) → a < b → ltb b a ≡ false
le→ltb_false a b h = ground arith

lt→ltb : (a b : ℕ) → a < b → ltb a b ≡ true
lt→ltb a b h = ground arith

lt→leb_false : (a b : ℕ) → a < b → leb b a ≡ false
lt→leb_false a b h = ground arith

-- The object can be written, and has the row.
abbrev pub Writable : ℕ → FileDataBaseAccess → Type 0
Writable i d =
    (is_read d.access_mode ≡ false) × (d.file_deleted ≡ false) × (i < length d.read_write_data)

write_row-Replaced :
    (f : Bytes) (fs' fs : List Bytes) (i : ℕ) (d : FileDataBaseAccess)
    → Writable i d
    → (d' : FileDataBaseAccess) × (write_row_value_list (f ∷ fs') (pos i) d ≡ some (success, d'))
      × Replaced i fs (f ∷ fs') d d'
unfolding write_row_value_list replace_row
write_row-Replaced f fs' fs i d (a, b, c) = (
  record d { read_write_data = set d.read_write_data i (append_values f fs') },
  if_false _ _ _ b
      ∙ if_false _ _ _ a
      ∙ if_false _ _ _ (le→ltb_false i (length d.read_write_data) c)
      ∙ if_true _ _ _ (lt→ltb i (length d.read_write_data) c),
  inr (
      ap (λ r. record d { read_write_data = set d.read_write_data i r })
        (append_values-separated f fs')),
)

-- The state of a job after a call that was not the last: the next row is up, and only this call's row
-- may have changed in the object.
abbrev pub Advanced : List Bytes → List Bytes → ValidateData → ValidateData → Type 0
Advanced fs fs' v v' =
    (v'.iterator ≡ v.iterator + 1)
    × (v'.rows ≡ v.rows)
    × (v'.end_row ≡ v.end_row)
    × Replaced v.iterator fs fs' v.file_data_base_access v'.file_data_base_access

and_false : (a b : Bool) → b ≡ false → (a && b) ≡ false
and_false true b h = h
and_false false b h = refl

module _ (iequals : Bytes → Bytes → Bool) where
  store_fields-Advanced :
      (fs' fs : List Bytes) (v : ValidateData)
      → 0 < length fs'
      → Writable v.iterator v.file_data_base_access
      → (v' : ValidateData) × (store_fields iequals (some fs') fs v ≡ some (false, v'))
        × Advanced fs fs' v v'
  unfolding store_fields written
  store_fields-Advanced [] fs v h w = absurd (omega arith)
  store_fields-Advanced (f ∷ fs') fs v h w =
      let (d', p, o) = write_row-Replaced f fs' fs v.iterator v.file_data_base_access w in
      elim (Bool-cases (equal_lists (f ∷ fs') fs)) [
        | inl e ↦ (
          record v { iterator = v.iterator + 1 },
          if_true _ _ _ e,
          (refl, refl, refl, inl (equal_lists-eq (f ∷ fs') fs e, refl)),
        )
        | inr e ↦ (
          record v { iterator = v.iterator + 1; file_data_base_access = d' },
          if_false _ _ _ e ∙ ap (λ x. written iequals x v) p,
          (refl, refl, refl, o),
        )
      ]

  row_fields :
      (i : ℕ) (d : FileDataBaseAccess)
      → Writable i d
      → get_row_value_list (pos i) d ≡ some (adv_tokenizer comma (find_row i d.read_write_data))
  unfolding get_row_value_list row_text tokens_of
  row_fields i d (a, b, c) = if_false _ _ _ b ∙ ap tokens_of (if_false _ _ _ a)

  unmodified_close :
      (d : FileDataBaseAccess) (disk : Option Bytes)
      → d.file_deleted ≡ false
      → d.data_modified ≡ false
      → close_file d disk ≡ disk
  unfolding close_file commit_changes
  unmodified_close d disk a b =
      if_false _ _ _ a ∙ if_false _ _ _ (and_false (not (is_read d.access_mode)) _ b)

  unmodified :
      (i : ℕ) (fs fs' : List Bytes) (d d' : FileDataBaseAccess) (disk : Option Bytes)
      → Replaced i fs fs' d d'
      → d.file_deleted ≡ false
      → d.data_modified ≡ false
      → close_file d' disk ≡ disk
  unmodified i fs fs' d d' disk (inl (p, e)) a b =
      ap (λ x. close_file x disk) e ∙ unmodified_close d disk a b
  unmodified i fs fs' d d' disk (inr e) a b =
      ap (λ x. close_file x disk) e
      ∙ unmodified_close (record d { read_write_data = set d.read_write_data i (row_of fs') }) disk
          a b

  -- What a call makes of the row that is up: it has one new field for each column, each of them
  -- validated, the job goes on with the next row, and the file does not change when the job's object
  -- is closed.
  abbrev pub Processed : ValidateData → Option Bytes → Type 0
  Processed v disk =
      let fs = adv_tokenizer comma (find_row v.iterator v.file_data_base_access.read_write_data) in
      (v' : ValidateData) × (fs' : List Bytes) × (process_feild iequals v ≡ some (false, v'))
      × (length fs' ≡ v.columns)
      × AllValidated iequals v.possible_fields fs fs'
      × Advanced fs fs' v v'
      × (close_file v'.file_data_base_access disk ≡ disk)

  -- As long as the row that is up is before the number of rows in the metadata, in the object, and has
  -- a field for each column, a call puts the validated fields, one for each column, in that row
  -- of the object, and goes on to the next, whatever the end of the job's part is. But an object that was not modified is still not
  -- marked so, and closing it leaves the file as it was.
  pub process_feild-Processed :
      (v : ValidateData) (disk : Option Bytes)
      → v.iterator < v.rows
      → Writable v.iterator v.file_data_base_access
      → v.file_data_base_access.data_modified ≡ false
      → v.columns ≡ length v.possible_fields
      → 0 < v.columns
      → v.columns
        ≤ length (adv_tokenizer comma (find_row v.iterator v.file_data_base_access.read_write_data))
      → Processed v disk
  unfolding process_feild process_row
  process_feild-Processed v disk a w m c z l =
      let fs = adv_tokenizer comma (find_row v.iterator v.file_data_base_access.read_write_data) in
      let (fs', p, k, all) = clean_fields-AllValidated iequals v.possible_fields fs (omega arith) in
      let (v', q, adv) = store_fields-Advanced fs' fs v (omega arith) w in
      (
        v',
        fs',
        if_false _ _ _ (lt→leb_false v.iterator v.rows a)
            ∙ ap (λ o. process_row iequals o v) (row_fields v.iterator v.file_data_base_access w)
            ∙ ap (λ n. store_fields iequals (clean_fields iequals n 0 v.possible_fields fs) fs v) c
            ∙ ap (λ o. store_fields iequals o fs v) p
            ∙ q,
        k ∙ sym c,
        all,
        adv,
        unmodified v.iterator fs fs' v.file_data_base_access v'.file_data_base_access disk adv.3 w.1
            m,
      )
