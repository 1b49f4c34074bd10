-- ===== src/Receiver/InstanceData/Statements.antt =====
-- The statements that a well-formed packet of instances leads to.
use worker_unit.Base.{
  ℕ, zero, suc, ◌<◌, ◌≤◌, ◌≡◌, refl, ap, ◌∙◌, false, Option, none, some, List, [], ◌∷◌, ◌++◌, arith,
  ◌==◌, length, All, Bool, subst,
}
use worker_unit.Base.Text.{Bytes}
use worker_unit.FileDatabase.{newline, comma}
use worker_unit.Receiver.Queries.{Queries, insert_query}
use worker_unit.Receiver.InstanceData.{count_from, next_field, take_fields, insert_row, insert_rows}

-- A field that neither a comma nor a newline cuts.
abbrev pub Plain : Bytes → Type 0
Plain f = All (λ c. ((c == newline) ≡ false) × ((c == comma) ≡ false)) f

-- A row of one field or more, ended by a newline, in front of a text.
abbrev pub row_text : Bytes → List Bytes → Bytes → Bytes
row_text f [] s = f ++ (newline ∷ s)
row_text f (g ∷ fs) s = f ++ (comma ∷ row_text g fs s)

count-field : (f s : Bytes) → Plain f → count_from (f ++ s) ≡ count_from s
unfolding count_from
count-field [] s h = refl
count-field (c ∷ f) s ((a, b), h) = rw (a, b) (count-field f s h)

pub count-row :
    (f : Bytes) (fs : List Bytes) (s : Bytes)
    → Plain f
    → All Plain fs
    → count_from (row_text f fs s) ≡ some (length fs)
unfolding count_from
count-row f [] s h hs = count-field f (newline ∷ s) h
count-row f (g ∷ fs) s h (hg, hs) =
    count-field f (comma ∷ row_text g fs s) h
    ∙ ap (λ r. elim r [ none ↦ none | some n ↦ some (suc n) ]) (count-row g fs s hg hs)

next-comma : (f s : Bytes) → Plain f → next_field (f ++ (comma ∷ s)) ≡ (f, some s)
unfolding next_field
next-comma [] s h = refl
next-comma (c ∷ f) s ((a, b), h) = rw (a, b, next-comma f s h) refl

next-newline : (f s : Bytes) → Plain f → next_field (f ++ (newline ∷ s)) ≡ (f, some s)
unfolding next_field
next-newline [] s h = refl
next-newline (c ∷ f) s ((a, b), h) = rw (a, b, next-newline f s h) refl

take-some :
    (s : Bytes) (n : ℕ) (f : Bytes) (p : Option Bytes) (fs : List Bytes) (q : Option Bytes)
    → next_field s ≡ (f, p)
    → take_fields n p ≡ some (fs, q)
    → take_fields (suc n) (some s) ≡ some (f ∷ fs, q)
unfolding take_fields
take-some s n f p fs q e h =
    ap (λ r. elim (take_fields n r.1) [ none ↦ none | some (gs, t) ↦ some (r.0 ∷ gs, t) ]) e
    ∙ ap (λ r. elim r [ none ↦ none | some (gs, t) ↦ some (f ∷ gs, t) ]) h

pub take-row :
    (f : Bytes) (fs : List Bytes) (s : Bytes)
    → Plain f
    → All Plain fs
    → take_fields (suc (length fs)) (some (row_text f fs s)) ≡ some (f ∷ fs, some s)
unfolding take_fields
take-row f [] s h hs =
    take-some (f ++ (newline ∷ s)) 0 f (some s) [] (some s) (next-newline f s h) refl
take-row f (g ∷ fs) s h (hg, hs) =
    take-some (f ++ (comma ∷ row_text g fs s)) (suc (length fs)) f (some (row_text g fs s)) (g ∷ fs)
      (some s) (next-comma f (row_text g fs s) h) (take-row g fs s hg hs)

-- The rows that follow the header, as text.
abbrev pub rows_text : List (Bytes × List Bytes) → Bytes
rows_text [] = []
rows_text ((f, fs) ∷ rs) = row_text f fs (rows_text rs)

pub length-row_text :
    (f : Bytes) (fs : List Bytes) (s : Bytes) → length s < length (row_text f fs s)
length-row_text [] [] s = omega arith
length-row_text [] (g ∷ fs) s = omega (arith, length-row_text g fs s)
length-row_text (c ∷ f) [] s = omega (arith, length-row_text f [] s)
length-row_text (c ∷ f) (g ∷ fs) s = omega (arith, length-row_text f (g ∷ fs) s)

pub length-rows_text : (rs : List (Bytes × List Bytes)) → length rs ≤ length (rows_text rs)
length-rows_text [] = omega arith
length-rows_text ((f, fs) ∷ rs) =
    omega (arith, length-rows_text rs, length-row_text f fs (rows_text rs))

-- Rows as wide as a header with `n` further fields, whose fields nothing cuts.
abbrev pub Wide : ℕ → List (Bytes × List Bytes) → Type 0
Wide n rs = All (λ r. Plain r.0 × All Plain r.1 × (length r.1 ≡ n)) rs

module _ {ℓ} {S : Type ℓ} (write_value : Bytes → S → Bool × S) (reads : Bytes → S → Bool) where
  -- One insertion for each row, in order.
  abbrev pub insert_all : Queries → List (Bytes × List Bytes) → ℕ × S → ℕ × S
  unfolding insert_row
  insert_all qs [] st = st
  insert_all qs ((f, fs) ∷ rs) st =
      insert_all qs rs (insert_row write_value reads (insert_query qs (f ∷ fs)) st)

  insert_step :
      (fuel columns : ℕ) (qs : Queries) (s : Bytes) (values : List Bytes) (p : Option Bytes)
      (st : ℕ × S)
      → 0 < length s
      → take_fields columns (some s) ≡ some (values, p)
      → insert_rows write_value reads (suc fuel) columns qs (some s) st
        ≡ insert_rows write_value reads fuel columns qs p
            (insert_row write_value reads (insert_query qs values) st)
  unfolding insert_rows
  insert_step fuel columns qs [] values p st h e = absurd (omega arith)
  insert_step fuel columns qs (c ∷ s) values p st h e =
      ap
        (λ r. elim r [
          | none ↦ none
          | some (vs, t) ↦
              insert_rows write_value reads fuel columns qs t
                (insert_row write_value reads (insert_query qs vs) st)
        ])
        e

  pub insert_rows-all :
      (fuel n : ℕ) (qs : Queries) (rs : List (Bytes × List Bytes)) (st : ℕ × S)
      → Wide n rs
      → length rs ≤ fuel
      → insert_rows write_value reads fuel (suc n) qs (some (rows_text rs)) st
        ≡ some (insert_all qs rs st)
  unfolding insert_rows
  insert_rows-all fuel n qs [] st w h = refl
  insert_rows-all zero n qs (r ∷ rs) st w h = absurd (omega arith)
  insert_rows-all (suc fuel) n qs ((f, fs) ∷ rs) st ((a, b, e), w) h =
      insert_step fuel (suc n) qs _ (f ∷ fs) (some (rows_text rs)) st
        (omega (arith, length-row_text f fs (rows_text rs)))
        (subst
          (λ k.
            take_fields (suc k) (some (row_text f fs (rows_text rs)))
            ≡ some (f ∷ fs, some (rows_text rs)))
          e (take-row f fs (rows_text rs) a b))
      ∙ insert_rows-all fuel n qs rs _ w (omega arith)
