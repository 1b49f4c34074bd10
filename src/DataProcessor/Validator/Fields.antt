-- ===== src/DataProcessor/Validator/Fields.antt =====
-- What the validation makes of the fields of one row.
use worker_unit.Base.{
  ℕ, suc, ◌≤◌, ◌≡◌, refl, ap, ◌∙◌, Bool, true, false, Option, none, some, List, [], ◌∷◌, arith,
  if_true, if_false, if◌then◌else◌, length, get_elem?, Bool-cases, inl, inr, ◌⊎◌,
}
use worker_unit.Base.Text.{Bytes, is_empty}
use worker_unit.DataProcessor.Validator.{
  nan, find_feild, validate_feild, clean_data, cons_feild, clean_fields,
}

-- Some value of the list is the field, up to the comparison.
unfoldable pub possible : (Bytes → Bytes → Bool) → List Bytes → Bytes → Bool
possible iequals [] f = false
possible iequals (t ∷ ts) f = if iequals t f then true else possible iequals ts f

module _ (iequals : Bytes → Bytes → Bool) where
  -- The new field for an old one: the old one if it is not empty and is a possible value, or no list
  -- of values is known; and NaN otherwise.
  abbrev pub Validated : Option (List Bytes) → Bytes → Bytes → Type 0
  Validated none f f' = (f' ≡ f) × (is_empty f ≡ false) ⊎ (f' ≡ nan) × (is_empty f ≡ true)
  Validated (some ts) f f' =
      (f' ≡ f) × (is_empty f ≡ false) × (possible iequals ts f ≡ true)
      ⊎ (f' ≡ nan) × ((is_empty f ≡ true) ⊎ (possible iequals ts f ≡ false))

  find_feild-possible :
      (ts : List Bytes) (f : Bytes)
      → (find_feild iequals ts f ≡ f) × (possible iequals ts f ≡ true)
        ⊎ (find_feild iequals ts f ≡ nan) × (possible iequals ts f ≡ false)
  unfolding find_feild possible
  find_feild-possible [] f = inr (refl, refl)
  find_feild-possible (t ∷ ts) f = elim (Bool-cases (iequals t f)) [
    | inl e ↦ inl (if_true _ _ _ e, if_true _ _ _ e)
    | inr e ↦ rw e (find_feild-possible ts f)
  ]

  clean_data-Validated :
      (values : Option (List Bytes)) (f : Bytes)
      → (f' : Bytes) × (clean_data iequals (some values) f ≡ some f') × Validated values f f'
  unfolding clean_data validate_feild
  clean_data-Validated none f = elim (Bool-cases (is_empty f)) [
    | inl e ↦ (nan, if_true _ _ _ e, inr (refl, e))
    | inr e ↦ (f, if_false _ _ _ e, inl (refl, e))
  ]
  clean_data-Validated (some ts) f = elim (Bool-cases (is_empty f)) [
    | inl e ↦ (nan, if_true _ _ _ e, inr (refl, inl e))
    | inr e ↦ (
      find_feild iequals ts f,
      if_false _ _ _ e,
      elim (find_feild-possible ts f) [ inl (p, q) ↦ inl (p, e, q) | inr (p, q) ↦ inr (p, inr q) ],
    )
  ]

  -- Every column of the row against its list of values.
  abbrev pub AllValidated : List (Option (List Bytes)) → List Bytes → List Bytes → Type 0
  AllValidated possibles fs [] = Unit
  AllValidated [] fs (f' ∷ fs') = ⊥
  AllValidated (p ∷ ps) [] (f' ∷ fs') = ⊥
  AllValidated (p ∷ ps) (f ∷ fs) (f' ∷ fs') = Validated p f f' × AllValidated ps fs fs'

  cons_feild-some :
      (f : Bytes) (fs : List Bytes) (o : Option Bytes) (os : Option (List Bytes))
      → o ≡ some f
      → os ≡ some fs
      → cons_feild iequals o os ≡ some (f ∷ fs)
  unfolding cons_feild
  cons_feild-some f fs o os p q = rw (p, q) refl

  -- The lists from a column on.
  abbrev pub From : ℕ → List (Option (List Bytes)) → List (Option (List Bytes)) → Type 0
  From col all [] = Unit
  From col all (p ∷ ps) = (get_elem? all col ≡ some p) × From (suc col) all ps

  From-cons :
      (col : ℕ) (x : Option (List Bytes)) (all ps : List (Option (List Bytes)))
      → From col all ps
      → From (suc col) (x ∷ all) ps
  From-cons col x all [] h = tt
  From-cons col x all (p ∷ ps) (h, k) = (h, From-cons (suc col) x all ps k)

  From-all : (all : List (Option (List Bytes))) → From 0 all all
  From-all [] = tt
  From-all (x ∷ all) = (refl, From-cons 0 x all all (From-all all))

  clean_fields-From :
      (col : ℕ) (all ps : List (Option (List Bytes))) (fs : List Bytes)
      → From col all ps
      → length ps ≤ length fs
      → (fs' : List Bytes) × (clean_fields iequals (length ps) col all fs ≡ some fs')
        × (length fs' ≡ length ps)
        × AllValidated ps fs fs'
  unfolding clean_fields
  clean_fields-From col all [] fs g h = ([], refl, refl, tt)
  clean_fields-From col all (p ∷ ps) [] g h = absurd (omega arith)
  clean_fields-From col all (p ∷ ps) (f ∷ fs) (g, k) h =
      let (f', a, v) = clean_data-Validated p f in
      let (fs', b, l, vs) = clean_fields-From (suc col) all ps fs k (omega arith) in
      (
        f' ∷ fs',
        cons_feild-some f' fs' _ _ (ap (λ o. clean_data iequals o f) g ∙ a) b,
        ap suc l,
        (v, vs),
      )

  -- A row with a field for each column, and columns that all have an entry in the instance data, is
  -- validated field by field.
  pub clean_fields-AllValidated :
      (possibles : List (Option (List Bytes))) (fs : List Bytes)
      → length possibles ≤ length fs
      → (fs' : List Bytes) × (clean_fields iequals (length possibles) 0 possibles fs ≡ some fs')
        × (length fs' ≡ length possibles)
        × AllValidated possibles fs fs'
  clean_fields-AllValidated possibles fs h =
      clean_fields-From 0 possibles possibles fs (From-all possibles) h
