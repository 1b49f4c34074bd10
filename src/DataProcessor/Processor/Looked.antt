-- ===== src/DataProcessor/Processor/Looked.antt =====
-- Which tables the data processor hands to the cleaner, and what it tells the server of the others.
use worker_unit.Base.{
  ℕ, ◌≡◌, ◌<◌, refl, sym, ap, subst, true, false, not, Option, none, some, List, [], ◌∷◌, map,
  length, if◌then◌else◌, ◌==◌, arith, if_true, if_false, Bool-cases, inl, inr,
}
use worker_unit.Base.Text.{Bytes, is_empty}
use worker_unit.Scheduler.Job.{JobStatus, job_done, job_failed, priority_number}
use worker_unit.Sender.Package.{ForwardStackPackage, dat_err}
use worker_unit.FileDatabase.{
  FileAccessType, read_file, rw_file, open_file, read_lines, adv_tokenizer, comma,
  get_column_names_list, close_file, commit_changes, drop_file,
}
use worker_unit.FileDatabase.Text.{length-tokenizer}
use worker_unit.Instances.{Instance, get_instance_from_id}
use worker_unit.Algorithm.Split.{TableData}
use worker_unit.DataProcessor.InstanceData.{
  InstanceData, column_count, column_names, initlize_data, validate_columns, compare_columns,
  load_columns, columns, failed,
}
use worker_unit.DataProcessor.InstanceData.Names.{all_known, compare_columns-all_known}
use worker_unit.DataProcessor.Cleaner.{new_data_cleaner}
use worker_unit.DataProcessor.Processor.{
  DataProcessor, new_data_processor, new_instance_data, read_names, set_up, after_data, error_text,
  load, initlize, job_result, process_data_start, process_data_finalize, process_data_failed,
  drop_table_file,
}

header_names :
    (disk : Option Bytes) (mode : FileAccessType) (header : Bytes) (rest : List Bytes)
    → read_lines disk ≡ header ∷ rest
    → get_column_names_list (open_file mode disk) ≡ some (adv_tokenizer comma header)
unfolding get_column_names_list open_file
header_names disk read_file header rest r = rw r refl
header_names disk rw_file header rest r = rw r refl

module _ (names : Bytes → ℕ → Option (List Bytes))
    (values : Bytes → Bytes → ℕ → Option (List Bytes)) (is : List Instance) (t : TableData)
    (disk : Option Bytes) where
  abbrev pub chosen : Instance
  chosen = get_instance_from_id t.instance_type is

  -- The instance is known and has as many columns, the query of their names goes through, and each
  -- name of the table is one of them.
  abbrev pub Accepts : List Bytes → Type 0
  Accepts us =
      (is_empty chosen.instance_id ≡ false)
      × (chosen.total_columns ≡ t.columns)
      × ((cs : List Bytes) × (names chosen.instance_id chosen.total_columns ≡ some cs)
          × (all_known us cs ≡ true))

  -- The error that the server is told: none at all for an instance that is not known, and for a query
  -- that fails.
  abbrev pub reason : Bytes
  reason =
      if is_empty chosen.instance_id
      then []
      else if not (chosen.total_columns == t.columns)
      then error_text (record (new_instance_data chosen t []) { error_string = column_count })
      else elim (names chosen.instance_id chosen.total_columns) [
        | none ↦ []
        | some cs ↦
            error_text (record (new_instance_data chosen t []) { error_string = column_names })
      ]

  abbrev pub complaint : ForwardStackPackage
  complaint = record {
    status_code = dat_err;
    priority = priority_number t.priority;
    table_id = t.table_id;
    body = reason;
  }

  abbrev pub Looked : List Bytes → Option (JobStatus × DataProcessor) → Type 0
  Looked us (some (job_done, p)) =
      Accepts us
      × (process_data_finalize disk p
          ≡ some (
            new_data_cleaner disk,
            map (λ u. values chosen.instance_id u chosen.total_rows) us,
            disk,
          ))
  Looked us (some (job_failed, p)) =
      (¬ Accepts us) × (process_data_failed disk p ≡ (complaint, none))
  Looked us _ = ⊥

  told :
      (p : DataProcessor)
      → p.table_data ≡ t
      → p.error_string ≡ reason
      → process_data_failed disk p ≡ (complaint, none)
  unfolding process_data_failed drop_table_file open_file drop_file
  told p e b = rw (e, b) refl

  unknown-Looked :
      (us : List Bytes)
      → is_empty chosen.instance_id ≡ true
      → Looked us (process_data_start names values is disk (new_data_processor t))
  unfolding process_data_start initlize new_data_processor
  unknown-Looked us e = rw e (λ a. cc, told _ refl (sym (if_true _ _ _ e)))

  -- The data of the instance before the columns are compared.
  abbrev fresh : List Bytes → InstanceData
  fresh us = new_instance_data chosen t us

  -- The object of a job that does not go on.
  abbrev refused : InstanceData → DataProcessor
  refused d = record (new_data_processor t) { instance_data = some d; error_string = error_text d }

  start-load :
      is_empty chosen.instance_id ≡ false
      → process_data_start names values is disk (new_data_processor t)
        ≡ job_result (load names values chosen disk (new_data_processor t))
  unfolding process_data_start initlize new_data_processor
  start-load e = ap job_result (if_false _ _ _ e)

  load-counts :
      (chosen.total_columns == t.columns) ≡ false
      → load names values chosen disk (new_data_processor t)
        ≡ some (false, refused (record (fresh []) { error_string = column_count }))
  unfolding load read_names initlize_data validate_columns load_columns after_data
      new_data_processor
  load-counts m = rw (load, read_names, m) (rw (initlize_data, validate_columns, m) refl)

  load-names :
      (us : List Bytes)
      → (chosen.total_columns == t.columns) ≡ true
      → get_column_names_list (open_file read_file disk) ≡ some us
      → load names values chosen disk (new_data_processor t)
        ≡ after_data
            (load_columns names values
              (compare_columns chosen.total_columns us
                (names chosen.instance_id chosen.total_columns))
              (fresh us))
            disk
            (new_data_processor t)
  unfolding load read_names initlize_data validate_columns new_data_processor
  load-names us m r =
      rw (load, read_names, initlize_data, validate_columns, m)
        (rw r (rw (validate_columns, m) refl))

  counts-Looked :
      (us : List Bytes)
      → is_empty chosen.instance_id ≡ false
      → (chosen.total_columns == t.columns) ≡ false
      → Looked us (process_data_start names values is disk (new_data_processor t))
  unfolding error_text new_data_processor
  counts-Looked us e m =
      rw (start-load e, load-counts m) (λ a. ground (arith, a.1), told _ refl (rw (e, m) refl))

  compared :
      (us cs : List Bytes)
      → length us ≡ chosen.total_columns
      → 0 < length us
      → compare_columns chosen.total_columns us (some cs)
        ≡ some (if all_known us cs then columns us else failed column_names)
  compared us cs l h =
      subst
        (λ n.
          compare_columns n us (some cs)
          ≡ some (if all_known us cs then columns us else failed column_names))
        l (compare_columns-all_known us cs h)

  set_up-names :
      (us : List Bytes) (d : InstanceData)
      → get_column_names_list (open_file rw_file disk) ≡ some us
      → after_data (some (true, d)) disk (new_data_processor t)
        ≡ some (
          true,
          record (new_data_processor t) {
            instance_data = some d;
            init_done = true;
            col_headers = us;
            file_data_base_access = some (open_file rw_file disk);
          },
        )
  unfolding after_data set_up
  set_up-names us d w = rw (after_data, set_up, w) refl

  -- What comes of the columns once they are compared.
  by_names :
      (us : List Bytes) (o : Option (List Bytes))
      → is_empty chosen.instance_id ≡ false
      → chosen.total_columns ≡ t.columns
      → get_column_names_list (open_file rw_file disk) ≡ some us
      → length us ≡ chosen.total_columns
      → 0 < length us
      → names chosen.instance_id chosen.total_columns ≡ o
      → Looked us (
          job_result (
            after_data
              (load_columns names values (compare_columns chosen.total_columns us o) (fresh us))
              disk
              (new_data_processor t)))
  unfolding compare_columns load_columns after_data error_text new_data_processor
      process_data_finalize close_file commit_changes open_file
  by_names us none e m w l h n =
      let c : (chosen.total_columns == t.columns) ≡ true = ground arith in
      (λ (_, _, (cs, k, _)). cc, told _ refl (rw (e, c, n) refl))
  by_names us (some cs) e m w l h n = elim (Bool-cases (all_known us cs)) [
    | inl k ↦ rw (compared us cs l h, k) (rw (set_up-names us _ w) ((e, m, (cs, n, k)), refl))
    | inr k ↦
        let c : (chosen.total_columns == t.columns) ≡ true = ground arith in
        rw (compared us cs l h, k) (λ (_, _, (cs', n', k')). cc, told _ refl (rw (e, c, n) refl))
  ]

  -- A table whose file begins with a header of as many names as the table has columns either goes on
  -- or is refused, and nothing else. It goes on exactly if its instance is known, has as many columns
  -- and lists each of the names; its cleaner then reads the file as it is, with the values that the
  -- database lists for each name, in the order of the header. Otherwise the end of the job tells the
  -- server why, with an empty text for an instance that is not known, and deletes the file.
  pub process_data_start-Looked :
      (header : Bytes) (rest : List Bytes)
      → read_lines disk ≡ header ∷ rest
      → length (adv_tokenizer comma header) ≡ t.columns
      → Looked
          (adv_tokenizer comma header)
          (process_data_start names values is disk (new_data_processor t))
  process_data_start-Looked header rest r l =
      let us = adv_tokenizer comma header in
      elim (Bool-cases (is_empty chosen.instance_id)) [
        | inl e ↦ unknown-Looked us e
        | inr e ↦ elim (Bool-cases (chosen.total_columns == t.columns)) [
          | inr c ↦ counts-Looked us e c
          | inl c ↦
              rw (start-load e, load-names us c (header_names disk read_file header rest r))
                (by_names us (names chosen.instance_id chosen.total_columns) e (ground arith)
                  (header_names disk rw_file header rest r) (ground arith)
                  (omega (arith, length-tokenizer header)) refl)
        ]
      ]
