-- ===== src/Receiver/Finish/Answers.antt =====
-- What becomes of a packet with a table: from the receiver to the data processor, or back to the server.
use worker_unit.Base.{
  ◌++◌, All, ◌⊎◌, ℕ, ◌≡◌, refl, sym, ap, ◌∙◌, Bool, true, false, Option, none, some, List, [], ◌∷◌,
  length, if_true, if_false, if◌then◌else◌, Bool-cases, inl, inr,
}
use worker_unit.Base.Text.{Bytes, equal, equal-refl, equal-eq, is_empty}
use worker_unit.Scheduler.Job.{JobStatus, job_done, job_failed, high_priority}
use worker_unit.Sender.Package.{Outcome, done, ◌>>=◌, dat_recvd, recv_err}
use worker_unit.FileDatabase.{split_string_by_newline, adv_tokenizer, comma, read_lines}
use worker_unit.FileDatabase.Text.{terminate, split-terminate}
use worker_unit.Instances.{
  InstanceModel, incriment_refrence, get_instance_alias_name, get_instance_actual_name,
}
use worker_unit.Algorithm.Split.{TableData}
use worker_unit.DataProcessor.Processor.{new_data_processor, process_data_start}
use worker_unit.DataProcessor.Processor.Looked.{Looked, process_data_start-Looked}
use worker_unit.Receiver.UserData.{Body, process_data_packet, parse_body}
use worker_unit.Receiver.UserData.Parsed.{announced, process_data_packet-accepted}
use worker_unit.Receiver.Stage.{
  Receiver, new_receiver, ServerPacket, user_data, Globals, has_bit, user_parsed, process_body,
  identify_packet_type, receiver_proccess, job_result,
}
use worker_unit.Receiver.Finish.{packet, receiver_finalize, receiver_fail}

-- Counting a reference leaves the aliases alone.
get_instance_actual_name-incriment :
    (id name : Bytes) (ms : List InstanceModel)
    → get_instance_actual_name id (incriment_refrence name ms) ≡ get_instance_actual_name id ms
unfolding get_instance_actual_name incriment_refrence
get_instance_actual_name-incriment id name [] = refl
get_instance_actual_name-incriment id name (m ∷ ms) = elim (Bool-cases (equal m.actual_name name)) [
  | inr e ↦ rw e (
      ap (λ r. if equal m.alias_name id then m.actual_name else r)
        (get_instance_actual_name-incriment id name ms))
  | inl e ↦ elim (Bool-cases m.scheduled_to_delete) [
    | inl d ↦
        rw (e, d)
          (ap (λ r. if equal m.alias_name id then m.actual_name else r)
            (get_instance_actual_name-incriment id name ms))
    | inr d ↦ rw (e, d) refl
  ]
]

-- The name of the first instance with the alias, or the empty one without such an instance.
abbrev pub Named : Bytes → List InstanceModel → Bytes → Type 0
Named id ms name =
    ((xs : List InstanceModel) × (m : InstanceModel) × (ys : List InstanceModel) × (ms
        ≡ xs ++ (m ∷ ys))
      × All (λ k. equal k.alias_name id ≡ false) xs
      × (m.alias_name ≡ id)
      × (name ≡ m.actual_name))
    ⊎ ((name ≡ []) × All (λ k. equal k.alias_name id ≡ false) ms)

abbrev pub AskedBy : Bytes → List InstanceModel → Bytes → Type 0
AskedBy id ms name =
    ((is_empty id ≡ true) × (name ≡ [])) ⊎ ((is_empty id ≡ false) × Named id ms name)

get_instance_actual_name-Named :
    (id : Bytes) (ms : List InstanceModel) → Named id ms (get_instance_actual_name id ms)
unfolding get_instance_actual_name
get_instance_actual_name-Named id [] = inr (refl, tt)
get_instance_actual_name-Named id (m ∷ ms) = elim (Bool-cases (equal m.alias_name id)) [
  | inl e ↦ rw e (inl ([], m, ms, refl, tt, equal-eq m.alias_name id e, refl))
  | inr e ↦ rw e (elim (get_instance_actual_name-Named id ms) [
    | inl (xs, k, ys, p, a, q, r) ↦ inl (m ∷ xs, k, ys, ap (λ l. m ∷ l) p, (e, a), q, r)
    | inr (p, a) ↦ inr (p, (refl, a))
  ])
]

module _ {ℓ} {S : Type ℓ} (write_value : Bytes → S → Bool × S) (reads : Bytes → S → Bool) where
  -- The packet announces data, and its body is that of a table.
  abbrev pub Carries : ServerPacket → Body → Type 0
  Carries p b = (has_bit 1 p.head ≡ false) × (has_bit 2 p.head ≡ true) × (p.body ≡ user_data b)

  receive-body :
      (p : ServerPacket) (b : Body) (g : Globals S)
      → Carries p b
      → receiver_proccess write_value reads (some p) new_receiver g ≡ (
          user_parsed write_value reads b.table_id g
            (process_data_packet (some b) g.models (g.files b.table_id))
          >>= (λ x. done (job_result write_value reads x)))
  unfolding receiver_proccess identify_packet_type process_body
  receive-body p b g (h, d, e) = rw (h, d, e) refl

  -- The alias under which the worker knows the instance of the table.
  abbrev pub known_as : Body → Globals S → Bytes
  known_as b g =
      get_instance_alias_name b.instance_type (incriment_refrence b.instance_type g.models)

  module _ (names : Bytes → ℕ → Option (List Bytes))
      (values : Bytes → Bytes → ℕ → Option (List Bytes)) where
    -- The job is done; its end acknowledges the table and starts the data processor, which finds the
    -- data in the table's file, and looks at the instances.
    abbrev pub Arrives :
        Bytes → Body → TableData → Outcome (JobStatus × Receiver × Globals S) → Type 0
    Arrives header b t (done (job_done, r, g)) =
        (receiver_finalize g.models r ≡ some (packet dat_recvd b.table_id b.priority ∷ [], some t))
        × (g.files t.table_id ≡ some (terminate b.data_))
        × Looked names values g.instances t (g.files t.table_id) (adv_tokenizer comma header) (
            process_data_start names values g.instances (g.files t.table_id) (new_data_processor t))
    Arrives header b t _ = ⊥

    -- A packet with a table whose instance the worker knows, and whose data has a header row, is
    -- stored and acknowledged by its own id and priority; the data processor is started for it, with
    -- as many columns as the header has names, and either hands it to the cleaner or refuses it.
    pub receiver_proccess-Arrives :
        (p : ServerPacket) (b : Body) (g : Globals S) (header : Bytes) (rest : List Bytes)
        → Carries p b
        → split_string_by_newline b.data_ ≡ header ∷ rest
        → is_empty (known_as b g) ≡ false
        → Arrives header b
            (announced header (length rest) (known_as b g) b)
            (receiver_proccess write_value reads (some p) new_receiver g)
    unfolding receiver_finalize read_lines
    receiver_proccess-Arrives p b g header rest c e a =
        let stored = if_true _ _ _ (equal-refl b.table_id) in
        rw
          (
            receive-body p b g c,
            process_data_packet-accepted b g.models (g.files b.table_id) header rest e a,
          )
          (
            refl,
            stored,
            process_data_start-Looked names values g.instances
                (announced header (length rest) (known_as b g) b) _ header rest
                (ap read_lines stored ∙ split-terminate b.data_ ∙ e) refl,
          )

  -- The job fails; its end asks for the packet again, by the name that belongs to the table's id, and
  -- no file has changed.
  abbrev pub Refused : Body → Globals S → Outcome (JobStatus × Receiver × Globals S) → Type 0
  Refused b g (done (job_failed, r, g')) =
      ((name : Bytes) × (receiver_fail g'.models r ≡ packet recv_err name high_priority)
        × AskedBy b.table_id g.models name)
      × ((file : Bytes) → g'.files file ≡ g.files file)
  Refused b g _ = ⊥

  abbrev refused_receiver : Bytes → Receiver
  refused_receiver id = record { table_id = some id; is_user_data = true; table_data = none }

  asked_again :
      (ms ns : List InstanceModel) (id : Bytes)
      → get_instance_actual_name id ns ≡ get_instance_actual_name id ms
      → (name : Bytes) × (receiver_fail ns (refused_receiver id)
          ≡ packet recv_err name high_priority)
        × AskedBy id ms name
  unfolding receiver_fail
  asked_again ms ns id n = elim (Bool-cases (is_empty id)) [
    | inl e ↦ ([], rw e refl, inl (e, refl))
    | inr e ↦ (
      get_instance_actual_name id ms,
      rw (e, n) refl,
      inr (e, get_instance_actual_name-Named id ms),
    )
  ]

  untouched :
      (b : Body) (g : Globals S) (name : Bytes)
      → (if equal name b.table_id then g.files b.table_id else g.files name) ≡ g.files name
  untouched b g name = elim (Bool-cases (equal name b.table_id)) [
    | inl e ↦ if_true _ _ _ e ∙ ap g.files (sym (equal-eq name b.table_id e))
    | inr e ↦ if_false _ _ _ e
  ]

  -- A table whose instance the worker does not know makes the job fail, and no file is written. The
  -- packet that then asks for the table again names the instance whose alias is the id of the table,
  -- as if that id were an alias: the first such instance, and without one, or with an empty id, it
  -- has an empty name, and so does not tell which table is asked for.
  pub receiver_proccess-Refused :
      (p : ServerPacket) (b : Body) (g : Globals S)
      → Carries p b
      → is_empty (known_as b g) ≡ true
      → Refused b g (receiver_proccess write_value reads (some p) new_receiver g)
  unfolding process_data_packet parse_body
  receiver_proccess-Refused p b g c a =
      let asked =
        asked_again g.models (incriment_refrence b.instance_type g.models) b.table_id
          (get_instance_actual_name-incriment b.table_id b.instance_type g.models) in
      rw (receive-body p b g c, process_data_packet, parse_body, a) (asked, untouched b g)
