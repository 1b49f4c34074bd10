-- ===== src/Algorithm/Split/Gather.antt =====
-- The results of a table's parts are gathered once.
use worker_unit.Base.{
  ℕ, suc, ◌+◌, ◌≡◌, refl, sym, ap, ◌∙◌, true, false, some, List, [], ◌∷◌, ◌++◌, arith, ◌==◌, ==_iff,
  if_true, if_false, length, length-append, Bool-cases, inl, inr,
}
use worker_unit.Base.Text.{Bytes, equal, is_empty}
use worker_unit.Algorithm.Split.{
  AlgorithmPackage, Effect, schedule_finalize, dereference, dealloc_table_dat, find, erase, replace,
  with_result, update_package, push_result, update_algo_result, update_all, TableData,
}

module _ {R : Type 0} where
  -- The results handed to the merging job, then the release of the instance and of the table.
  abbrev pub finishing : TableData → List R → List (Effect R)
  finishing t rs =
      schedule_finalize rs t.table_id t.priority
      ∷ dereference t.table_id
      ∷ dealloc_table_dat t.table_id
      ∷ []

  find-replace :
      (k : Bytes) (p q : AlgorithmPackage R) (m : List (Bytes × AlgorithmPackage R))
      → find k m ≡ some p
      → find k (replace k q m) ≡ some q
  unfolding find replace
  find-replace k p q [] h = absurd (cc)
  find-replace k p q (e ∷ m) h = elim (Bool-cases (equal k e.0)) [
    | inl f ↦ rw f (if_true _ _ _ f)
    | inr f ↦ rw f (if_false _ _ _ f ∙ find-replace k p q m (sym (if_false _ _ _ f) ∙ h))
  ]

  erase-replace :
      (k : Bytes) (q : AlgorithmPackage R) (m : List (Bytes × AlgorithmPackage R))
      → erase k (replace k q m) ≡ erase k m
  unfolding erase replace
  erase-replace k q [] = refl
  erase-replace k q (e ∷ m) = elim (Bool-cases (equal k e.0)) [
    | inl f ↦ rw f (if_true _ _ _ f)
    | inr f ↦ rw f (if_false _ _ _ f ∙ ap (λ t. e ∷ t) (erase-replace k q m))
  ]

  -- An update that is not the last one.
  update-more :
      (threads : ℕ) (k : Bytes) (r : R) (p : AlgorithmPackage R)
      (m : List (Bytes × AlgorithmPackage R))
      → is_empty k ≡ false
      → find k m ≡ some p
      → (length (with_result r p).result_vectors == threads) ≡ false
      → update_algo_result threads k r m ≡ (true, replace k (with_result r p) m, [])
  unfolding update_algo_result update_package push_result
  update-more threads k r p m a b c =
      if_false _ _ _ a ∙ ap (λ o. update_package threads k (push_result r o) m) b ∙ if_false _ _ _ c

  update-last :
      (threads : ℕ) (k : Bytes) (r : R) (p : AlgorithmPackage R)
      (m : List (Bytes × AlgorithmPackage R))
      → is_empty k ≡ false
      → find k m ≡ some p
      → (length (with_result r p).result_vectors == threads) ≡ true
      → update_algo_result threads k r m
        ≡ (true, erase k m, finishing p.table_data (with_result r p).result_vectors)
  unfolding update_algo_result update_package push_result with_result
  update-last threads k r p m a b c =
      if_false _ _ _ a ∙ ap (λ o. update_package threads k (push_result r o) m) b ∙ if_true _ _ _ c

  length-with_result :
      (r : R) (p : AlgorithmPackage R)
      → length (with_result r p).result_vectors ≡ length p.result_vectors + 1
  unfolding with_result
  length-with_result r p = length-append p.result_vectors (r ∷ [])

  full :
      (r : R) (p : AlgorithmPackage R) (threads : ℕ)
      → length p.result_vectors + 1 ≡ threads
      → (length (with_result r p).result_vectors == threads) ≡ true
  full r p threads h = (==_iff _ threads).1 (length-with_result r p ∙ h)

  not_full :
      (r : R) (p : AlgorithmPackage R) (threads n : ℕ)
      → length p.result_vectors + suc (suc n) ≡ threads
      → (length (with_result r p).result_vectors == threads) ≡ false
  not_full r p threads n h = ground (arith, length-with_result r p)

  one_more :
      (r : R) (p : AlgorithmPackage R) (threads n : ℕ)
      → length p.result_vectors + suc (suc n) ≡ threads
      → length (with_result r p).result_vectors + suc n ≡ threads
  one_more r p threads n h = omega (arith, length-with_result r p)

  append_one : (xs : List R) (r : R) (ys : List R) → (xs ++ (r ∷ [])) ++ ys ≡ xs ++ (r ∷ ys)
  append_one [] r ys = refl
  append_one (x ∷ xs) r ys = ap (λ t. x ∷ t) (append_one xs r ys)

  -- When the remaining results of a table have come in, one at a time, its entry is gone, and all its
  -- results were handed on once, in the order in which they came.
  pub update_all-gathers :
      (threads : ℕ) (k : Bytes) (p : AlgorithmPackage R) (r : R) (rs : List R)
      (m : List (Bytes × AlgorithmPackage R))
      → is_empty k ≡ false
      → find k m ≡ some p
      → length p.result_vectors + length (r ∷ rs) ≡ threads
      → update_all threads k (r ∷ rs) m
        ≡ (erase k m, finishing p.table_data (p.result_vectors ++ (r ∷ rs)))
  unfolding update_all with_result
  update_all-gathers threads k p r [] m a b c =
      rw (update-last threads k r p m a b (full r p threads c)) refl
  update_all-gathers threads k p r (s ∷ rs) m a b c =
      rw (update-more threads k r p m a b (not_full r p threads _ c)) (
        update_all-gathers threads k (with_result r p) s rs (replace k (with_result r p) m) a
          (find-replace k p (with_result r p) m b) (one_more r p threads _ c)
        ∙ ap (λ m'. (m', finishing p.table_data ((p.result_vectors ++ (r ∷ [])) ++ (s ∷ rs))))
            (erase-replace k (with_result r p) m)
        ∙ ap (λ t. (erase k m, finishing p.table_data t)) (append_one p.result_vectors r (s ∷ rs)))
