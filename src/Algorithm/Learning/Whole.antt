-- ===== src/Algorithm/Learning/Whole.antt =====
-- From the rows of a table to the hypothesis that the merge of all its parts ends with.
use worker_unit.Base.{
  ℕ, suc, ◌-◌, ◌<◌, ◌≤◌, ◌≡◌, inl, inr, refl, sym, ap, ◌∙◌, subst, Bool, true, false, Option, none,
  some, List, [], ◌∷◌, ◌++◌, arith, length, All,
}
use worker_unit.Base.Text.{Bytes}
use worker_unit.FileDatabase.{FileDataBaseAccess, read_file, open_file, read_lines}
use worker_unit.Scheduler.Job.{TaskPriority}
use worker_unit.Algorithm.Elimination.{
  CandidateElimination, CeResultExportObject, stars, is_positive, get_confirm_value,
  new_candidate_elimination,
}
use worker_unit.Algorithm.Elimination.Rows.{fields, Reads}
use worker_unit.Algorithm.Elimination.Counts.{Fresh}
use worker_unit.Algorithm.Elimination.Result.{Sized}
use worker_unit.Algorithm.Elimination.Cover.{Starless}
use worker_unit.Algorithm.Split.{split_ranges}
use worker_unit.Algorithm.Split.Ranges.{split_ranges-Tiles}
use worker_unit.Algorithm.Finalize.{new_ce_finalize, aggrigate_results}
use worker_unit.Algorithm.Finalize.Merge.{Part, Ends, aggrigate_results-Ends}
use worker_unit.Algorithm.Learning.{export_part, export_made, cons_result, export_parts}
use worker_unit.Algorithm.Learning.Order.{
  In, row-In, Within, split_ranges-Within, All-In, map_All, Orders,
}
use worker_unit.Algorithm.Learning.Parts.{
  length-stars, covering_starts, Exports, export_part-Exports, ExportsCover,
  export_part-ExportsCover,
}

source_columns : {c : ℕ} → suc (suc c) - 1 ≡ suc c
source_columns {c} = omega arith

module _ (disk : Option Bytes) (c : ℕ) (confirm : Bytes) where
  -- The job of a part before its first call, for a number of source columns.
  abbrev fresh_of : ℕ → ℕ × ℕ → CandidateElimination
  fresh_of n r = record {
    columns = n;
    target_col = n;
    total_positives = 0;
    total_negatives = 0;
    s = stars n;
    g = stars n;
    confirm_value = confirm;
    start = r.0;
    end = r.1;
    start_set = false;
    file_data_base_access = open_file read_file disk;
  }

  -- The table has `c + 2` columns, the last of which is the target.
  abbrev pub fresh : ℕ × ℕ → CandidateElimination
  fresh r = fresh_of (suc c) r

module _ (iequals : Bytes → Bytes → Bool) (column_names : Bytes → ℕ → Option (List Bytes))
    (column_values : Bytes → Bytes → ℕ → Option (List Bytes)) (disk : Option Bytes)
    (instance_id : Bytes) (c : ℕ) where
  abbrev results : List (ℕ × ℕ) → Option (List CeResultExportObject)
  results order =
      export_parts iequals column_names column_values disk instance_id (suc (suc c)) order

  abbrev table : FileDataBaseAccess
  table = open_file read_file disk

  -- The merge of the results, in the order given.
  abbrev pub Learns : List Bytes → List (ℕ × ℕ) → Bytes → TaskPriority → Type 0
  Learns us order table_id priority =
      (xs : List CeResultExportObject) × (results order ≡ some xs)
      × Ends iequals us (aggrigate_results (new_ce_finalize xs table_id priority))

  module _ (confirm : Bytes) where
    abbrev job : ℕ × ℕ → CandidateElimination
    job r = fresh disk c confirm r

    job-Sized : (r : ℕ × ℕ) → Sized iequals (job r)
    job-Sized r = (length-stars (suc c), length-stars (suc c))

    job-Reads :
        (rows : ℕ) (r : ℕ × ℕ) → length (read_lines disk) ≡ suc rows → Within rows r → Reads (job r)
    unfolding open_file
    job-Reads rows r h (a, b) = (refl, refl, omega arith)

    job-Fresh : (rows : ℕ) (r : ℕ × ℕ) → Within rows r → Fresh iequals (job r)
    job-Fresh rows r (a, b) = (refl, refl, refl, refl, a)

    abbrev Exported : ℕ × ℕ → CeResultExportObject → Type 0
    Exported r x = (export_part iequals (job r) ≡ some x) × Part iequals c x

    exported :
        (r : ℕ × ℕ) (o : Option CeResultExportObject)
        → export_part iequals (job r) ≡ o
        → Exports iequals (job r) o
        → (x : CeResultExportObject) × Exported r x
    exported r none e h = absurd h
    exported r (some x) e h = (x, (e, h))

    module _ (rows : ℕ) (lines : length (read_lines disk) ≡ suc rows) where
      exports : (r : ℕ × ℕ) → Within rows r → (x : CeResultExportObject) × Exported r x
      exports r w = exported r (export_part iequals (job r)) refl (
          export_part-Exports iequals (job r) (job-Reads rows r lines w) (job-Fresh rows r w)
            (job-Sized r))

      module _
          (named : get_confirm_value column_names column_values instance_id (suc (suc c))
            ≡ some confirm) where
        made :
            (r : ℕ × ℕ)
            → new_candidate_elimination column_names column_values disk instance_id r.0 r.1
                (suc (suc c))
              ≡ some (job r)
        unfolding new_candidate_elimination
        made r =
            subst
              (λ n.
                new_candidate_elimination column_names column_values disk instance_id r.0 r.1
                  (suc (suc c))
                ≡ some (fresh_of disk c confirm n r))
              source_columns (rw (new_candidate_elimination, named) refl)

        -- A part's job gives its result, and the others' results follow.
        results_cons :
            (r : ℕ × ℕ) (rs : List (ℕ × ℕ)) (x : CeResultExportObject)
            (xs : List CeResultExportObject)
            → export_part iequals (job r) ≡ some x
            → results rs ≡ some xs
            → results (r ∷ rs) ≡ some (x ∷ xs)
        unfolding export_parts export_made cons_result
        results_cons r rs x xs e f =
            ap (λ o. cons_result (export_made iequals o) (results rs)) (made r)
            ∙ ap (λ o. cons_result o (results rs)) e
            ∙ ap (cons_result (some x)) f

        all_results :
            (order : List (ℕ × ℕ))
            → All (Within rows) order
            → (xs : List CeResultExportObject) × (results order ≡ some xs) × All (Part iequals c) xs
        unfolding export_parts
        all_results [] w = ([], refl, tt)
        all_results (r ∷ rs) (w, ws) =
            let (x, (e, p)) = exports r w in
            let (xs, f, ps) = all_results rs ws in (x ∷ xs, results_cons r rs x xs e f, (p, ps))

        -- The result of one part among the others, in the order given.
        abbrev Among : ℕ × ℕ → List (ℕ × ℕ) → Type 0
        Among r order =
            (xs : List CeResultExportObject) × (x : CeResultExportObject) × (ys : List
              CeResultExportObject)
            × (results order ≡ some (xs ++ (x ∷ ys)))
            × All (Part iequals c) xs
            × Exported r x

        among :
            (r : ℕ × ℕ) (order : List (ℕ × ℕ))
            → In r order
            → All (Within rows) order
            → Among r order
        among r [] m w = absurd m
        among r (q ∷ qs) (inl e) (w, ws) =
            let (x, (f, p)) = exports q w in
            let (ys, g, ps) = all_results qs ws in
            ([], x, ys, results_cons q qs x ys f g, tt, subst (λ t. Exported t x) (sym e) (f, p))
        among r (q ∷ qs) (inr m) (w, ws) =
            let (y, (f, p)) = exports q w in
            let (xs, x, ys, g, ps, k) = among r qs m ws in
            (y ∷ xs, x, ys, results_cons q qs y (xs ++ (x ∷ ys)) f g, (p, ps), k)

        merged :
            (us : List Bytes) (r : ℕ × ℕ) (order : List (ℕ × ℕ)) (table_id : Bytes)
            (priority : TaskPriority)
            → Among r order
            → ExportsCover iequals us (export_part iequals (job r))
            → Learns us order table_id priority
        unfolding new_ce_finalize
        merged us r order table_id priority (xs, x, ys, e, ps, (f, p)) k =
            let covers = subst (ExportsCover iequals us) f k in
            (
              xs ++ (x ∷ ys),
              e,
              aggrigate_results-Ends iequals c us xs x ys
                  (new_ce_finalize (xs ++ (x ∷ ys)) table_id priority) ps p
                  (covering_starts iequals x.s us c p.0 covers) refl covers,
            )

        -- For at least one thread and a file with its header and the table's rows, all jobs of a list of
        -- the table's parts end, if each part is in the list and nothing else is. The merge of their
        -- results, in that order, ends with a hypothesis that matches each positive example of the
        -- table without a star. The table has at least two columns, the value that confirms an example
        -- is known, and the comparison of values is reflexive.
        pub export_parts-Learns :
            (iequals-refl : (v : Bytes) → iequals v v ≡ true) (threads i : ℕ) (order : List (ℕ × ℕ))
            (table_id : Bytes) (priority : TaskPriority)
            → 0 < threads
            → Orders order (split_ranges threads rows)
            → 1 ≤ i
            → i ≤ rows
            → Starless (fields i table)
            → is_positive iequals (fields i table) (job (1, rows)) ≡ true
            → Learns (fields i table) order table_id priority
        unfolding is_positive
        export_parts-Learns iequals-refl threads i order table_id priority h (o, o') a b l p =
            let parts = split_ranges threads rows in
            let within = split_ranges-Within threads rows h in
            let (r, m, u, v) = row-In 1 rows i parts (split_ranges-Tiles threads rows h).1 a b in
            let w = All-In (Within rows) r parts m within in
            merged (fields i table) r order table_id priority
              (among r order (All-In (λ q. In q order) r parts m o)
                (map_All (λ q n. All-In (Within rows) q parts n within) order o'))
              (export_part-ExportsCover iequals iequals-refl (job r) i (job-Reads rows r lines w)
                (job-Fresh rows r w) (job-Sized r) u v l p)
