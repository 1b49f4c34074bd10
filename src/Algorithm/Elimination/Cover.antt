-- ===== src/Algorithm/Elimination/Cover.antt =====
-- The hypothesis `s` of a part matches the positive examples among its rows.
use worker_unit.Base.{
  suc, ◌≤◌, ◌≡◌, refl, sym, ap, ◌∙◌, Bool, true, false, List, [], ◌∷◌, arith, length, All,
  Bool-cases, inl, inr, ◌⊎◌,
}
use worker_unit.Base.Text.{Bytes, equal, equal-eq}
use worker_unit.Algorithm.Elimination.{star, question, positive_columns, negative_columns}

-- None of the fields is a star.
abbrev pub Starless : List Bytes → Type 0
Starless vs = All (λ v. equal v star ≡ false) vs

question-star : question ≡ star → ⊥
question-star h = cc

pub true-false : true ≡ false → ⊥
true-false h = cc

module _ (iequals : Bytes → Bytes → Bool) where
  abbrev pub Matches : Bytes → Bytes → Type 0
  Matches s v = (s ≡ question) ⊎ ((equal s star ≡ false) × (iequals s v ≡ true))

  -- Each column of the hypothesis is a question mark or the row's value, up to case.
  abbrev pub Covers : List Bytes → List Bytes → Type 0
  Covers [] vs = Unit
  Covers (s ∷ ss) [] = ⊥
  Covers (s ∷ ss) (v ∷ vs) = Matches s v × Covers ss vs

  pub length-positive_columns :
      (ss gs vs : List Bytes)
      → length gs ≡ length ss
      → length ss ≤ length vs
      → (length (positive_columns iequals ss gs vs).0 ≡ length ss)
        × (length (positive_columns iequals ss gs vs).1 ≡ length ss)
  unfolding positive_columns
  length-positive_columns [] gs vs h k = (refl, refl)
  length-positive_columns (s ∷ ss) [] vs h k = absurd (omega arith)
  length-positive_columns (s ∷ ss) (g ∷ gs) [] h k = absurd (omega arith)
  length-positive_columns (s ∷ ss) (g ∷ gs) (v ∷ vs) h k =
      let (p, q) = length-positive_columns ss gs vs (omega arith) (omega arith) in
      elim (Bool-cases (equal s star)) [
        | inl e ↦ rw e (ap suc p, ap suc q)
        | inr e ↦ elim (Bool-cases (iequals s v)) [
          | inl f ↦ rw (e, f) (ap suc p, ap suc q)
          | inr f ↦ rw (e, f) (ap suc p, ap suc q)
        ]
      ]

  pub length-negative_columns :
      (ss gs vs : List Bytes)
      → length gs ≡ length ss
      → length ss ≤ length vs
      → length (negative_columns iequals ss gs vs) ≡ length ss
  unfolding negative_columns
  length-negative_columns [] gs vs h k = refl
  length-negative_columns (s ∷ ss) [] vs h k = absurd (omega arith)
  length-negative_columns (s ∷ ss) (g ∷ gs) [] h k = absurd (omega arith)
  length-negative_columns (s ∷ ss) (g ∷ gs) (v ∷ vs) h k =
      ap suc (length-negative_columns ss gs vs (omega arith) (omega arith))

  -- What was matched before is still matched.
  pub positive_columns-Covers_old :
      (ss gs vs us : List Bytes) → Covers ss us → Covers (positive_columns iequals ss gs vs).0 us
  unfolding positive_columns
  positive_columns-Covers_old [] gs vs us h = tt
  positive_columns-Covers_old (s ∷ ss) [] vs us h = tt
  positive_columns-Covers_old (s ∷ ss) (g ∷ gs) [] us h = tt
  positive_columns-Covers_old (s ∷ ss) (g ∷ gs) (v ∷ vs) [] h = absurd h
  positive_columns-Covers_old (s ∷ ss) (g ∷ gs) (v ∷ vs) (u ∷ us) (m, h) =
      let rest = positive_columns-Covers_old ss gs vs us h in
      elim (Bool-cases (equal s star)) [
        | inl e ↦ rw e (
          elim m [
            | inl q ↦ absurd (question-star (sym q ∙ equal-eq s star e))
            | inr q ↦ absurd (true-false (sym e ∙ q.0))
          ],
          rest,
        )
        | inr e ↦ elim (Bool-cases (iequals s v)) [
          | inl f ↦ rw (e, f) (m, rest)
          | inr f ↦ rw (e, f) (inl refl, rest)
        ]
      ]

  module _ (iequals-refl : (v : Bytes) → iequals v v ≡ true) where
    pub positive_columns-Covers :
        (ss gs vs : List Bytes)
        → length gs ≡ length ss
        → length ss ≤ length vs
        → Starless vs
        → Covers (positive_columns iequals ss gs vs).0 vs
    unfolding positive_columns
    positive_columns-Covers [] gs vs h k l = tt
    positive_columns-Covers (s ∷ ss) [] vs h k l = absurd (omega arith)
    positive_columns-Covers (s ∷ ss) (g ∷ gs) [] h k l = absurd (omega arith)
    positive_columns-Covers (s ∷ ss) (g ∷ gs) (v ∷ vs) h k l =
        let rest = positive_columns-Covers ss gs vs (omega arith) (omega arith) l.1 in
        elim (Bool-cases (equal s star)) [
          | inl e ↦ rw e (inr (l.0, iequals-refl v), rest)
          | inr e ↦ elim (Bool-cases (iequals s v)) [
            | inl f ↦ rw (e, f) (inr (e, f), rest)
            | inr f ↦ rw (e, f) (inl refl, rest)
          ]
        ]
