-- ===== src/Receiver/InstanceData/Stored.antt =====
-- A packet of instances from its text to the statements and the new instance.
use worker_unit.Base.{
  ℕ, suc, ◌≤◌, ◌≡◌, ap, ◌∙◌, false, true, none, some, List, ◌∷◌, arith, ◌==◌, ◌||◌, length, All,
  Bool, if_true, if_false,
}
use worker_unit.Base.Text.{Bytes}
use worker_unit.FileDatabase.{newline}
use worker_unit.Instances.{Instance, InstanceModel, new_instance, push_instance, add_instance}
use worker_unit.Receiver.UserData.{p_success}
use worker_unit.Receiver.Queries.{Queries, queries}
use worker_unit.Receiver.InstanceData.{
  count_columns, create_sql_cmds, InstanceBody, InstanceParsing, insert_into_table, drop_models,
  finish_instance, parse_instance, process_instance_packet,
}
use worker_unit.Receiver.InstanceData.Statements.{
  Plain, row_text, rows_text, Wide, insert_all, insert_rows-all, count-row, take-row,
  length-rows_text, length-row_text,
}

count_columns-row :
    (before : ℕ) (h : Bytes) (hs : List Bytes) (s : Bytes)
    → (before == newline) ≡ false
    → Plain h
    → All Plain hs
    → count_columns before (row_text h hs s) ≡ some (suc (length hs))
unfolding count_columns
count_columns-row before h hs s e a b =
    if_false _ _ _ e
    ∙ ap (λ r. elim r [ none ↦ none | some n ↦ some (suc n) ]) (count-row h hs s a b)

create_sql_cmds-row :
    (id h : Bytes) (hs : List Bytes) (s : Bytes)
    → Plain h
    → All Plain hs
    → create_sql_cmds id (suc (length hs)) (row_text h hs s) ≡ some (queries id (h ∷ hs), some s)
unfolding create_sql_cmds
create_sql_cmds-row id h hs s a b =
    ap (λ r. elim r [ none ↦ none | some (fields, p) ↦ some (queries id fields, p) ])
      (take-row h hs s a b)

module _ {ℓ} {S : Type ℓ} (write_value : Bytes → S → Bool × S) (reads : Bytes → S → Bool) where
  insert_into_table-all :
      (qs : Queries) (n : ℕ) (body : Bytes) (rs : List (Bytes × List Bytes)) (s : S)
      → (let (ok, s') = write_value qs.create_table_query s in
          ((ok || reads qs.verify_table_query s') ≡ true))
      → Wide n rs
      → length rs ≤ length body
      → insert_into_table write_value reads qs (suc n) body (some (rows_text rs)) s ≡ (
          let (rows, t) =
            insert_all write_value reads qs rs (0, (write_value qs.create_table_query s).1) in
          some (some rows, t))
  unfolding insert_into_table
  insert_into_table-all qs n body rs s e w h =
      if_true _ _ _ e
      ∙ ap (λ r. elim r [ none ↦ none | some (rows, t) ↦ some (some rows, t) ])
          (insert_rows-all write_value reads (suc (length body)) n qs rs _ w (omega arith))

  -- What a packet leads to that is accepted: the header's table is made, the rows are inserted one
  -- by one, and the instance is entered under its new alias with the number of successful insertions.
  abbrev pub stored :
      Bytes
      → List Bytes
      → List (Bytes × List Bytes)
      → ℕ
      → Bytes
      → List InstanceModel
      → List Instance
      → S
      → InstanceParsing S
  stored h hs rs algorithm alias_name models instances s =
      let qs = queries alias_name (h ∷ hs) in
      let (rows, t) =
        insert_all write_value reads qs rs (0, (write_value qs.create_table_query s).1) in
      record {
        status = p_success;
        table_id = some alias_name;
        models = models;
        instances =
            push_instance (new_instance alias_name algorithm (suc (length hs)) rows) instances;
        database = t;
      }

  parse_instance-stored :
      (alias_name h : Bytes) (hs : List Bytes) (rs : List (Bytes × List Bytes)) (b : InstanceBody)
      (models : List InstanceModel) (instances : List Instance) (s : S)
      → b.data_ ≡ row_text h hs (rows_text rs)
      → Plain h
      → All Plain hs
      → Wide (length hs) rs
      → (let qs = queries alias_name (h ∷ hs) in
          let (ok, s') = write_value qs.create_table_query s in
          ((ok || reads qs.verify_table_query s') ≡ true))
      → parse_instance write_value reads (some (suc (length hs))) alias_name b models instances s
        ≡ some (stored h hs rs b.algorithm alias_name models instances s)
  unfolding parse_instance finish_instance
  parse_instance-stored alias_name h hs rs b models instances s e p ps w ok =
      let qs = queries alias_name (h ∷ hs) in
      ap
        (λ r. elim r [
          | none ↦ none
          | some (q, t) ↦
              elim (insert_into_table write_value reads q (suc (length hs)) b.data_ t s) [
                | none ↦ none
                | some x ↦ some (
                    finish_instance write_value reads q alias_name b.algorithm (suc (length hs))
                      models instances x)
              ]
        ])
        (ap (create_sql_cmds alias_name (suc (length hs))) e
          ∙ create_sql_cmds-row alias_name h hs (rows_text rs) p ps)
      ∙ ap
          (λ r. elim r [
            | none ↦ none
            | some x ↦ some (
                finish_instance write_value reads qs alias_name b.algorithm (suc (length hs)) models
                  instances x)
          ])
          (insert_into_table-all qs (length hs) b.data_ rs s ok w
            (omega (arith, length-rows_text rs, length-row_text h hs (rows_text rs), ap length e)))

  -- A packet whose data is a header and rows as wide as it, each ended by a newline, is stored, if
  -- the database makes the table or has it: the models that the new one replaces are dropped, the
  -- rows are inserted one by one, whether or not an insertion fails, and the job succeeds. The
  -- instance is entered under its new alias, with the number of the header's fields and the number
  -- of successful insertions, both modulo 256. The byte in front of the data must not be a newline.
  pub process_instance_packet-stored :
      (before : ℕ) (prefix h : Bytes) (hs : List Bytes) (rs : List (Bytes × List Bytes))
      (b : InstanceBody) (models : List InstanceModel) (instances : List Instance) (s : S)
      → (before == newline) ≡ false
      → b.data_ ≡ row_text h hs (rows_text rs)
      → Plain h
      → All Plain hs
      → Wide (length hs) rs
      → (let (alias_name, models', dropped) = add_instance prefix b.instance_id models in
          let qs = queries alias_name (h ∷ hs) in
          let (ok, s') =
            write_value qs.create_table_query (drop_models write_value reads dropped s) in
          ((ok || reads qs.verify_table_query s') ≡ true))
      → process_instance_packet write_value reads before prefix (some b) models instances s ≡ (
          let (alias_name, models', dropped) = add_instance prefix b.instance_id models in
          some (
            stored h hs rs b.algorithm alias_name models' instances
              (drop_models write_value reads dropped s)))
  unfolding process_instance_packet
  process_instance_packet-stored before prefix h hs rs b models instances s n e p ps w ok =
      let (alias_name, models', dropped) = add_instance prefix b.instance_id models in
      let s' = drop_models write_value reads dropped s in
      ap (λ c. parse_instance write_value reads c alias_name b models' instances s')
        (ap (count_columns before) e ∙ count_columns-row before h hs (rows_text rs) n p ps)
      ∙ parse_instance-stored alias_name h hs rs b models' instances s' e p ps w ok
