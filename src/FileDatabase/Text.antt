-- ===== src/FileDatabase/Text.antt =====
-- Rows and their fields as text: the two ways to cut a text, and the two ways to put one together.
use worker_unit.Base.{
  sym, ℕ, suc, ◌<◌, ◌≡◌, refl, ap, ◌∙◌, false, List, [], ◌∷◌, ◌++◌, arith, ◌==◌, if◌then◌else◌,
  length, All, Bool-cases, inl, inr, ==_iff,
}
use worker_unit.Base.Text.{Bytes}
use worker_unit.FileDatabase.{
  newline, comma, add_head, split_string_by_newline, adv_tokenizer, write_rows, count_commas,
  append_values,
}

-- The byte does not occur in the text.
abbrev pub Free : ℕ → Bytes → Type 0
Free c s = All (λ x. (x == c) ≡ false) s

-- The text as a file holds it: with a newline after the last row.
unfoldable pub terminate : Bytes → Bytes
terminate [] = []
terminate (c ∷ []) = if c == newline then c ∷ [] else c ∷ newline ∷ []
terminate (c ∷ d ∷ s) = c ∷ terminate (d ∷ s)

split-row :
    (r s : Bytes)
    → Free newline r
    → split_string_by_newline (r ++ (newline ∷ s)) ≡ r ∷ split_string_by_newline s
unfolding split_string_by_newline add_head
split-row [] s h = refl
split-row (c ∷ r) s h = rw (h.0, split-row r s h.1) refl

pub split-write_rows :
    (rs : List Bytes) → All (Free newline) rs → split_string_by_newline (write_rows rs) ≡ rs
unfolding write_rows split_string_by_newline
split-write_rows [] h = refl
split-write_rows (r ∷ rs) h = rw (split-row r (write_rows rs) h.0, split-write_rows rs h.1) refl

write_rows-add_head :
    (c : ℕ) (ls : List Bytes) → 0 < length ls → write_rows (add_head c ls) ≡ c ∷ write_rows ls
unfolding write_rows add_head
write_rows-add_head c [] h = absurd (omega arith)
write_rows-add_head c (l ∷ ls) h = refl

length-add_head_pos : (c : ℕ) (ls : List Bytes) → 0 < length (add_head c ls)
unfolding add_head
length-add_head_pos c [] = omega arith
length-add_head_pos c (l ∷ ls) = omega arith

length-split : (d : ℕ) (s : Bytes) → 0 < length (split_string_by_newline (d ∷ s))
unfolding split_string_by_newline
length-split d s = elim (Bool-cases (d == newline)) [
  | inl e ↦ rw e (omega arith)
  | inr e ↦ rw e (length-add_head_pos d (split_string_by_newline s))
]

split-step :
    (c : ℕ) (s : Bytes)
    → 0 < length (split_string_by_newline s)
    → write_rows (split_string_by_newline (c ∷ s)) ≡ c ∷ write_rows (split_string_by_newline s)
unfolding write_rows split_string_by_newline
split-step c s h = elim (Bool-cases (c == newline)) [
  | inl e ↦ rw (e, (==_iff c newline).0 e) refl
  | inr e ↦ rw e (write_rows-add_head c (split_string_by_newline s) h)
]

pub write_rows-split : (s : Bytes) → write_rows (split_string_by_newline s) ≡ terminate s
unfolding write_rows split_string_by_newline add_head terminate
write_rows-split [] = refl
write_rows-split (c ∷ []) = elim (Bool-cases (c == newline)) [
  | inl e ↦ rw (e, (==_iff c newline).0 e) refl
  | inr e ↦ rw e refl
]
write_rows-split (c ∷ d ∷ s) =
    split-step c (d ∷ s) (length-split d s) ∙ ap (λ t. c ∷ t) (write_rows-split (d ∷ s))

add_head-Free :
    (c : ℕ) (ls : List Bytes)
    → (c == newline) ≡ false
    → All (Free newline) ls
    → All (Free newline) (add_head c ls)
unfolding add_head
add_head-Free c [] e a = ((e, tt), tt)
add_head-Free c (l ∷ ls) e (a, as') = ((e, a), as')

pub split-Free : (s : Bytes) → All (Free newline) (split_string_by_newline s)
unfolding split_string_by_newline
split-Free [] = tt
split-Free (c ∷ s) = elim (Bool-cases (c == newline)) [
  | inl e ↦ rw e (tt, split-Free s)
  | inr e ↦ rw e (add_head-Free c (split_string_by_newline s) e (split-Free s))
]

-- The rows are the same with a newline after the last one.
pub split-terminate :
    (s : Bytes) → split_string_by_newline (terminate s) ≡ split_string_by_newline s
split-terminate s =
    ap split_string_by_newline (sym (write_rows-split s))
    ∙ split-write_rows (split_string_by_newline s) (split-Free s)

length-add_head :
    (c : ℕ) (ls : List Bytes) (n : ℕ) → length ls ≡ suc n → length (add_head c ls) ≡ suc n
unfolding add_head
length-add_head c [] n h = absurd (omega arith)
length-add_head c (l ∷ ls) n h = h

pub length-tokenizer : (s : Bytes) → length (adv_tokenizer comma s) ≡ suc (count_commas s)
unfolding adv_tokenizer count_commas
length-tokenizer [] = refl
length-tokenizer (c ∷ s) = elim (Bool-cases (c == comma)) [
  | inl e ↦ rw e (ap suc (length-tokenizer s))
  | inr e ↦ rw e (length-add_head c (adv_tokenizer comma s) (count_commas s) (length-tokenizer s))
]

tokenizer-field :
    (v s : Bytes)
    → Free comma v
    → adv_tokenizer comma (v ++ (comma ∷ s)) ≡ v ∷ adv_tokenizer comma s
unfolding adv_tokenizer add_head
tokenizer-field [] s h = refl
tokenizer-field (c ∷ v) s h = rw (h.0, tokenizer-field v s h.1) refl

tokenizer-last : (v : Bytes) → Free comma v → adv_tokenizer comma v ≡ v ∷ []
unfolding adv_tokenizer add_head
tokenizer-last [] h = refl
tokenizer-last (c ∷ v) h = rw (h.0, tokenizer-last v h.1) refl

append_assoc : (xs ys zs : Bytes) → (xs ++ ys) ++ zs ≡ xs ++ (ys ++ zs)
append_assoc [] ys zs = refl
append_assoc (x ∷ xs) ys zs = ap (λ t. x ∷ t) (append_assoc xs ys zs)

append_values-append :
    (s t : Bytes) (vs : List Bytes) → append_values (s ++ t) vs ≡ s ++ append_values t vs
unfolding append_values
append_values-append s t [] = refl
append_values-append s t (v ∷ vs) =
    ap (λ x. append_values x vs) (append_assoc s t (comma ∷ v))
    ∙ append_values-append s (t ++ (comma ∷ v)) vs

append_values_step :
    (v w : Bytes) (vs : List Bytes) → append_values v (w ∷ vs) ≡ v ++ (comma ∷ append_values w vs)
unfolding append_values
append_values_step v w vs =
    append_values-append v (comma ∷ w) vs
    ∙ ap (λ t. v ++ t) (append_values-append (comma ∷ []) w vs)

-- The fields of a row written from values without commas are those values.
pub tokenizer-append_values :
    (v : Bytes) (vs : List Bytes)
    → Free comma v
    → All (Free comma) vs
    → adv_tokenizer comma (append_values v vs) ≡ v ∷ vs
unfolding append_values
tokenizer-append_values v [] h k = tokenizer-last v h
tokenizer-append_values v (w ∷ vs) h k =
    rw
      (
        append_values_step v w vs,
        tokenizer-field v (append_values w vs) h,
        tokenizer-append_values w vs k.0 k.1,
      )
      refl
