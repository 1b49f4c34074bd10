-- ===== src/Instances/Models.antt =====
-- What replaces what when an instance is sent again.
use worker_unit.Base.{
  ℕ, suc, ◌+◌, ◌≡◌, refl, ap, ◌∙◌, true, false, not, List, [], ◌∷◌, ◌++◌, arith, ◌==◌, if_true,
  if_false, Bool-cases, inl, inr, if◌then◌else◌,
}
use worker_unit.Base.Text.{Bytes, equal, equal-refl}
use worker_unit.Instances.{
  InstanceModel, new_model, retire, add_instance, dereference_instance, get_instance_alias_name,
}

-- How many models of the name are in use, that is not scheduled for deletion.
unfoldable pub active : Bytes → List InstanceModel → ℕ
unfolding equal
active name [] = 0
active name (m ∷ ms) =
    let rest = active name ms in
    if not (equal m.actual_name name)
    then rest
    else if m.scheduled_to_delete
    then rest
    else suc rest

active-append :
    (name : Bytes) (xs ys : List InstanceModel)
    → active name (xs ++ ys) ≡ active name xs + active name ys
unfolding active
active-append name [] ys = omega arith
active-append name (m ∷ xs) ys = elim (Bool-cases (not (equal m.actual_name name))) [
  | inl e ↦ rw e (active-append name xs ys)
  | inr e ↦ elim (Bool-cases m.scheduled_to_delete) [
    | inl f ↦ simp (e, f) (active-append name xs ys)
    | inr f ↦ simp (e, f) (omega (arith, active-append name xs ys))
  ]
]

active-retire : (name : Bytes) (ms : List InstanceModel) → active name (retire name ms).0 ≡ 0
unfolding active retire
active-retire name [] = refl
active-retire name (m ∷ ms) = elim (Bool-cases (equal m.actual_name name)) [
  | inr e ↦ simp e (active-retire name ms)
  | inl e ↦ elim (Bool-cases m.scheduled_to_delete) [
    | inl f ↦ simp (e, f) (active-retire name ms)
    | inr f ↦ elim (Bool-cases (m.reference_count == 0)) [
      | inl g ↦ simp (e, f, g) (active-retire name ms)
      | inr g ↦ simp (e, f, g) (active-retire name ms)
    ]
  ]
]

-- The models of other names stay as they are.
unfoldable pub others : Bytes → List InstanceModel → List InstanceModel
unfolding equal
others name [] = []
others name (m ∷ ms) =
    let rest = others name ms in if equal m.actual_name name then rest else m ∷ rest

others-retire :
    (name : Bytes) (ms : List InstanceModel) → others name (retire name ms).0 ≡ others name ms
unfolding others retire
others-retire name [] = refl
others-retire name (m ∷ ms) = elim (Bool-cases (equal m.actual_name name)) [
  | inr e ↦ simp (e, others-retire name ms) refl
  | inl e ↦ elim (Bool-cases m.scheduled_to_delete) [
    | inl f ↦ simp (e, f) (others-retire name ms)
    | inr f ↦ elim (Bool-cases (m.reference_count == 0)) [
      | inl g ↦ simp (e, f, g) (others-retire name ms)
      | inr g ↦ simp (e, f, g) (others-retire name ms)
    ]
  ]
]

others-append :
    (name : Bytes) (xs ys : List InstanceModel)
    → others name (xs ++ ys) ≡ others name xs ++ others name ys
unfolding others
others-append name [] ys = refl
others-append name (m ∷ xs) ys = elim (Bool-cases (equal m.actual_name name)) [
  | inl e ↦ rw e (others-append name xs ys)
  | inr e ↦ rw e (ap (λ t. m ∷ t) (others-append name xs ys))
]

append_nil : (xs : List InstanceModel) → xs ++ [] ≡ xs
append_nil [] = refl
append_nil (x ∷ xs) = ap (λ t. x ∷ t) (append_nil xs)

active-new : (name prefix : Bytes) → active name (new_model name prefix ∷ []) ≡ 1
unfolding active new_model
active-new name prefix = rw (equal-refl name) refl

others-new : (name prefix : Bytes) → others name (new_model name prefix ∷ []) ≡ []
unfolding others new_model
others-new name prefix = rw (equal-refl name) refl

-- After an instance was added its name has exactly one model that is not scheduled for deletion,
-- and the models of all other names are what they were.
pub add_instance-active :
    (prefix name : Bytes) (ms : List InstanceModel)
    → let (alias_name, ms', dropped) = add_instance prefix name ms in
      (active name ms' ≡ 1) × (others name ms' ≡ others name ms)
unfolding add_instance
add_instance-active prefix name ms =
    let new = new_model name (name ++ (95 ∷ prefix)) ∷ [] in
    (
      active-append name (retire name ms).0 new
          ∙ ap (λ n. n + active name new) (active-retire name ms)
          ∙ ap (λ n. 0 + n) (active-new name _),
      others-append name (retire name ms).0 new
          ∙ ap (λ t. others name (retire name ms).0 ++ t) (others-new name _)
          ∙ append_nil _
          ∙ others-retire name ms,
    )

abbrev pub marked : InstanceModel → InstanceModel
marked m = record m { scheduled_to_delete = true }

retire-used :
    (m : InstanceModel) (ms : List InstanceModel)
    → m.scheduled_to_delete ≡ false
    → (m.reference_count == 0) ≡ false
    → (retire m.actual_name (m ∷ ms)).0 ≡ marked m ∷ (retire m.actual_name ms).0
unfolding retire
retire-used m ms a b = simp (a, b, equal-refl m.actual_name) refl

alias-marked :
    (m : InstanceModel) (ms : List InstanceModel)
    → get_instance_alias_name m.actual_name (marked m ∷ ms) ≡ m.alias_name
unfolding get_instance_alias_name
alias-marked m ms = if_true _ _ _ (equal-refl m.actual_name)

alias-dereference_marked :
    (m : InstanceModel) (ms : List InstanceModel)
    → get_instance_alias_name m.actual_name (dereference_instance m.alias_name (marked m ∷ ms))
      ≡ m.alias_name
unfolding dereference_instance
alias-dereference_marked m ms =
    ap (get_instance_alias_name m.actual_name) (if_false _ _ _ (ap not (equal-refl m.alias_name)))
    ∙ alias-marked m (dereference_instance m.alias_name ms)

-- If the first model of a name is in use when the instance is added again, then the name still finds
-- the alias of the old table and not the one that was just returned, also after the old table was
-- released once.
pub get_instance_alias_name-add_instance :
    (prefix : Bytes) (m : InstanceModel) (ms : List InstanceModel)
    → m.scheduled_to_delete ≡ false
    → (m.reference_count == 0) ≡ false
    → let (alias_name, ms', dropped) = add_instance prefix m.actual_name (m ∷ ms) in
      (get_instance_alias_name m.actual_name ms' ≡ m.alias_name)
      × (get_instance_alias_name m.actual_name (dereference_instance m.alias_name ms')
          ≡ m.alias_name)
unfolding add_instance
get_instance_alias_name-add_instance prefix m ms a b =
    rw (retire-used m ms a b) (alias-marked m _, alias-dereference_marked m _)
