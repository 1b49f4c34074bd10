-- ===== src/Instances.antt =====
-- instance/: the instances that the worker knows, and the models that name their tables.
use worker_unit.Base.{
  ℕ, zero, suc, ◌+◌, ◌-◌, ◌%◌, ◌^◌, Bool, true, false, not, Option, none, some, List, [], ◌∷◌, ◌++◌,
  ◌==◌, if◌then◌else◌, get_elem?,
}
use worker_unit.Base.Text.{Bytes, equal}
pub mod Lookup
pub mod Models

-- `Instance`. Both counts are kept in a `uint8_t`, though the row count comes in as a `uint64_t`.
pub record Instance : Type 0 where
  pub instance_id : Bytes
  pub linked_algorithm : ℕ
  pub total_columns : ℕ
  pub total_rows : ℕ

unfoldable pub new_instance : Bytes → ℕ → ℕ → ℕ → Instance
new_instance id algorithm columns rows = record {
  instance_id = id;
  linked_algorithm = algorithm % 2 ^ 8;
  total_columns = columns % 2 ^ 8;
  total_rows = rows % 2 ^ 8;
}

unfoldable pub no_instance : Instance
no_instance = record { instance_id = []; linked_algorithm = 0; total_columns = 0; total_rows = 0 }

-- `InstanceList::addInstance`
unfoldable pub push_instance : Instance → List Instance → List Instance
push_instance i is = is ++ (i ∷ [])

unfoldable pub get_instance_from_id : Bytes → List Instance → Instance
unfolding no_instance equal
get_instance_from_id id [] = no_instance
get_instance_from_id id (i ∷ is) = if equal id i.instance_id then i else get_instance_from_id id is

-- `InstanceModel`; the counter is a `uint64_t`.
pub record InstanceModel : Type 0 where
  pub actual_name : Bytes
  pub alias_name : Bytes
  pub scheduled_to_delete : Bool
  pub reference_count : ℕ

unfoldable pub new_model : Bytes → Bytes → InstanceModel
new_model actual name = record {
  actual_name = actual;
  alias_name = name;
  scheduled_to_delete = false;
  reference_count = 0;
}

-- The letters of `getPrefixString` for five values of `rand()`. The terminating zero byte stands at
-- index 26, which `% 27` reaches.
unfoldable pub pool_letter : ℕ → ℕ
pool_letter r = if r % 27 == 26 then 0 else 97 + r % 27

unfoldable pub get_prefix_string : ℕ → ℕ → ℕ → ℕ → ℕ → Bytes
unfolding pool_letter
get_prefix_string a b c d e =
    pool_letter a ∷ pool_letter b ∷ pool_letter c ∷ pool_letter d ∷ pool_letter e ∷ []

-- The loop of `addInstance`: the models that stay, and the aliases whose tables are dropped.
unfoldable pub retire : Bytes → List InstanceModel → List InstanceModel × List Bytes
unfolding equal
retire name [] = ([], [])
retire name (m ∷ ms) =
    let (ms', dropped) = retire name ms in
    if not (equal m.actual_name name)
    then (m ∷ ms', dropped)
    else if m.scheduled_to_delete
    then (m ∷ ms', dropped)
    else if m.reference_count == 0
    then (ms', m.alias_name ∷ dropped)
    else (record m { scheduled_to_delete = true } ∷ ms', dropped)

-- `prefix` is the result of `getPrefixString()`. With the alias and the list come the aliases for
-- which `DROP TABLE` was sent, in order.
unfoldable pub add_instance :
    Bytes → Bytes → List InstanceModel → Bytes × List InstanceModel × List Bytes
unfolding retire new_model
add_instance prefix name ms =
    let alias_name = name ++ (95 ∷ prefix) in
    let (ms', dropped) = retire name ms in
    (alias_name, ms' ++ (new_model name alias_name ∷ []), dropped)

unfoldable pub incriment_refrence : Bytes → List InstanceModel → List InstanceModel
unfolding equal
incriment_refrence name [] = []
incriment_refrence name (m ∷ ms) =
    let rest = incriment_refrence name ms in
    if not (equal m.actual_name name)
    then m ∷ rest
    else if m.scheduled_to_delete
    then m ∷ rest
    else record m { reference_count = (m.reference_count + 1) % 2 ^ 64 } ∷ ms

-- `referenceCount--` wraps around at 0.
unfoldable pub decrement : ℕ → ℕ
decrement zero = 2 ^ 64 - 1
decrement (suc n) = n

unfoldable pub dereference_instance : Bytes → List InstanceModel → List InstanceModel
unfolding equal decrement
dereference_instance name [] = []
dereference_instance name (m ∷ ms) =
    let rest = dereference_instance name ms in
    if not (equal m.alias_name name)
    then m ∷ rest
    else if m.scheduled_to_delete
    then m ∷ rest
    else record m { reference_count = decrement m.reference_count } ∷ ms

unfoldable pub get_instance_actual_name : Bytes → List InstanceModel → Bytes
unfolding equal
get_instance_actual_name name [] = []
get_instance_actual_name name (m ∷ ms) =
    if equal m.alias_name name then m.actual_name else get_instance_actual_name name ms

unfoldable pub get_instance_alias_name : Bytes → List InstanceModel → Bytes
unfolding equal
get_instance_alias_name name [] = []
get_instance_alias_name name (m ∷ ms) =
    if equal m.actual_name name then m.alias_name else get_instance_alias_name name ms
