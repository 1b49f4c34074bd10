-- ===== src/DataProcessor/Stages/Order.antt =====
-- When the algorithm is scheduled, in the two orders in which a job can end and the table's entry
-- can be made.
use worker_unit.Base.{
  ℕ, zero, suc, ◌+◌, ◌<◌, ◌≤◌, ◌≡◌, refl, ap, ◌∙◌, Bool, true, false, none, some, List, [], ◌∷◌,
  ◌++◌, arith, leb, ◌==◌, if_true, if_false, Bool-cases, inl, inr,
}
use worker_unit.DataProcessor.Stages.{
  CleanStageMap, count_of, set_count, bump, update_clean_stages, update_times,
}

unfoldable pub never : ℕ → List Bool
never zero = []
never (suc n) = false ∷ never n

==_refl : (n : ℕ) → (n == n) ≡ true
==_refl n = ground arith

pub count_of-set_count : (k n : ℕ) (m : CleanStageMap) → count_of k (set_count k n m) ≡ some n
unfolding count_of set_count
count_of-set_count k n [] = if_true _ _ _ (==_refl k)
count_of-set_count k n (e ∷ m) = elim (Bool-cases (k == e.0)) [
  | inl f ↦ rw f (if_true _ _ _ (==_refl k))
  | inr f ↦ rw f (if_false _ _ _ f ∙ count_of-set_count k n m)
]

le→leb : (a b : ℕ) → a ≤ b → leb a b ≡ true
le→leb a b h = ground arith

lt→leb_false : (a b : ℕ) → b < a → leb a b ≡ false
lt→leb_false a b h = ground arith

-- A job that ends before the count is full schedules nothing.
pub update-early :
    (threads n k : ℕ) (m : CleanStageMap)
    → count_of k m ≡ some n
    → n + 1 < threads
    → update_clean_stages threads (some k) m ≡ (true, set_count k (n + 1) m, false)
unfolding update_clean_stages bump
update-early threads n k m h l =
    ap (λ o. bump threads k o m) h
    ∙ ap (λ b. (true, set_count k (n + 1) m, b)) (lt→leb_false threads (n + 1) l)

pub update-full :
    (threads n k : ℕ) (m : CleanStageMap)
    → count_of k m ≡ some n
    → n + 1 ≡ threads
    → update_clean_stages threads (some k) m ≡ (true, set_count k (n + 1) m, true)
unfolding update_clean_stages bump
update-full threads n k m h l =
    ap (λ o. bump threads k o m) h
    ∙ ap (λ b. (true, set_count k (n + 1) m, b)) (le→leb threads (n + 1) (omega arith))

-- If the table's entry is there, then the algorithm is scheduled once, by the last of the jobs.
pub update_times-once :
    (threads n c k : ℕ) (m : CleanStageMap)
    → count_of k m ≡ some c
    → c + suc n ≡ threads
    → (update_times threads (suc n) k m).0 ≡ never n ++ (true ∷ [])
unfolding update_times never
update_times-once threads zero c k m h l = rw (update-full threads c k m h (omega arith)) refl
update_times-once threads (suc n) c k m h l = rw (update-early threads c k m h (omega arith)) (
    ap (λ t. false ∷ t)
      (update_times-once threads n (c + 1) k (set_count k (c + 1) m)
        (count_of-set_count k (c + 1) m) (omega arith)))

pub update_times_missing :
    (threads n k : ℕ) (m : CleanStageMap)
    → count_of k m ≡ none
    → update_times threads n k m ≡ (never n, m)
unfolding update_times update_clean_stages bump never
update_times_missing threads zero k m h = refl
update_times_missing threads (suc n) k m h =
    rw h (ap (λ x. (false ∷ x.0, x.1)) (update_times_missing threads n k m h))

update_times_few :
    (threads n c k : ℕ) (m : CleanStageMap)
    → count_of k m ≡ some c
    → c + n < threads
    → (update_times threads n k m).0 ≡ never n
unfolding update_times never
update_times_few threads zero c k m h l = refl
update_times_few threads (suc n) c k m h l = rw (update-early threads c k m h (omega arith)) (
    ap (λ t. false ∷ t)
      (update_times_few threads n (c + 1) k (set_count k (c + 1) m) (count_of-set_count k (c + 1) m)
        (omega arith)))

-- The jobs of a table are scheduled before its entry is made. If at least one of them has ended by
-- then, none of the threads' jobs schedules the algorithm, neither the early nor the late ones.
pub update_times-lost :
    (threads early late k : ℕ) (m : CleanStageMap)
    → count_of k m ≡ none
    → 0 < early
    → early + late ≡ threads
    → let (flags, m') = update_times threads early k m in
      (flags ≡ never early) × ((update_times threads late k (set_count k 0 m')).0 ≡ never late)
update_times-lost threads early late k m h a l = rw (update_times_missing threads early k m h) (
  refl,
  update_times_few threads late 0 k (set_count k 0 m) (count_of-set_count k 0 m) (omega arith),
)
