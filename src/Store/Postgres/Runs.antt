-- ===== src/Store/Postgres/Runs.antt =====
-- `CreateRun` and `AppendRunChanges` of internal/store/postgres/store.go keep the tables numbered.
use go_project.Prelude.{
  ℕ, ◌+◌, ◌≡◌, refl, sym, ap, ◌∙◌, subst, none, some, List, ◌++◌, arith, length, lookup, insert,
  has_key, nat_eq, Ensures, Ensures-ok, Ensures-err, Ensures-bind, Ensures-bind-eq, Ensures-if,
  Ensures-elim, Ensures-map,
}
use go_project.History.Events.{Event}
use go_project.Engine.Types.{RunRecord, TaskRecord, TaskMutation}
use go_project.Engine.Progress.Replays.{AllOf, Consecutive}
use go_project.Store.Tables.{Db}
use go_project.Store.Sqlite.{events_of}
use go_project.Store.Sqlite.Sequence.{IsNumbered, extend-IsNumbered}
use go_project.Store.Postgres.Columns.{Database, run_columns, json_column, nullable_bytes}
use go_project.Store.Postgres.Writes.{
  insert_run, insert_events, create_run, update_run, append_run_changes,
}
use go_project.Store.Postgres.Numbering.{
  Numbers, AllOf-Numbers, Consecutive-Numbers, length-Numbers, insert_events-Appended,
  insert_task_rows-SameHistory, apply_mutations-SameHistory,
}

module _ (database : Database) where
  -- A run row that is written, and what it keeps of the tables.
  record RowWritten (run : RunRecord) (db db₁ : Db) : Type 0 where
    row : RunRecord
    version : row.version ≡ run.version
    runs : db₁.runs ≡ insert run.id row db.runs
    events : db₁.events ≡ db.events

  record Updated (run : RunRecord) (expected : ℕ) (db db₁ : Db) : Type 0 where
    written : RowWritten run db db₁
    old : RunRecord
    found : lookup run.id db.runs ≡ some old
    expects : old.version ≡ expected
    own : written.row.id ≡ old.id

  record Created (run : RunRecord) (db db₁ : Db) : Type 0 where
    written : RowWritten run db db₁
    fresh : lookup run.id db.runs ≡ none
    own : written.row.id ≡ run.id

  run_columns-keys :
      (run : RunRecord)
      → Ensures
          (λ (row : RunRecord). (row.id ≡ run.id) × (row.version ≡ run.version))
          (run_columns database run)
  unfolding run_columns
  run_columns-keys run = Ensures-bind-eq (json_column database run.input) λ input _.
      Ensures-bind-eq (nullable_bytes database run.output) λ output _. Ensures-ok (refl, refl)

  update_run-Updated :
      (run : RunRecord) (expected : ℕ) (db : Db)
      → Ensures (Updated run expected db) (update_run database run expected db)
  unfolding update_run
  update_run-Updated run expected db =
      Ensures-bind (run_columns database run) (run_columns-keys run) λ new _ k.
        Ensures-elim (lookup run.id db.runs) (λ _. Ensures-err _)
          λ old found.
            Ensures-if (nat_eq old.version expected)
              (λ same. Ensures-ok (record {
                written = record { row = _; version = k.1; runs = refl; events = refl };
                old = old;
                found = found;
                expects = ground arith;
                own = refl;
              }))
              (λ _. Ensures-err _)

  insert_run-Created :
      (run : RunRecord) (db : Db) → Ensures (Created run db) (insert_run database run db)
  unfolding insert_run has_key
  insert_run-Created run db =
      Ensures-bind (run_columns database run) (run_columns-keys run) λ new _ k.
        Ensures-if (has_key run.id db.runs) (λ _. Ensures-err _)
          λ absent_. Ensures-ok (record {
            written = record { row = new; version = k.1; runs = refl; events = refl };
            fresh = ground arith;
            own = k.0;
          })

  -- A run row and its new events, in tables that were numbered.
  pub grown-IsNumbered :
      (run row : RunRecord) (es rows : List Event) (db db' : Db)
      → IsNumbered db
      → AllOf run.id es
      → Consecutive (length (events_of run.id db.events) + 1) es
      → run.version ≡ length (events_of run.id db.events) + length es
      → row.version ≡ run.version
      → row.id ≡ run.id
      → Numbers es rows
      → db'.runs ≡ insert run.id row db.runs
      → db'.events ≡ db.events ++ rows
      → IsNumbered db'
  grown-IsNumbered run row es rows db db' h all numbered version v own n runs events =
      extend-IsNumbered db db' run.id row rows runs events (AllOf-Numbers run.id es rows n all)
        (Consecutive-Numbers _ es rows n numbered)
        (omega (arith, v, version, length-Numbers es rows n)) own h

  pub append_run_changes-Ensures :
      (run : RunRecord) (expected : ℕ) (es : List Event) (ms : List TaskMutation) (db : Db)
      → IsNumbered db
      → AllOf run.id es
      → Consecutive (expected + 1) es
      → run.version ≡ expected + length es
      → Ensures IsNumbered (append_run_changes database run expected es ms db)
  unfolding append_run_changes
  append_run_changes-Ensures run expected es ms db h all numbered version =
      Ensures-bind (update_run database run expected db) (update_run-Updated run expected db)
        λ db₁ _ u.
          Ensures-bind (insert_events database es db₁) (insert_events-Appended database es db₁)
            λ db₂ _ (rows, n, r, v).
              Ensures-map (apply_mutations-SameHistory database ms db₂) λ db₃ _ same.
                let w = u.written in
                let size : expected ≡ length (events_of run.id db.events) =
                  sym u.expects ∙ h.versions run.id u.old u.found in
                grown-IsNumbered run w.row es rows db db₃ h all
                  (subst (λ k. Consecutive (k + 1) es) size numbered)
                  (subst (λ k. run.version ≡ k + length es) size version) w.version
                  (u.own ∙ h.keys run.id u.old u.found) n (same.0 ∙ r ∙ w.runs)
                  (same.1 ∙ v ∙ ap (λ x. x ++ rows) w.events)

  pub create_run-Ensures :
      (run : RunRecord) (es : List Event) (tasks : List TaskRecord) (db : Db)
      → IsNumbered db
      → AllOf run.id es
      → Consecutive 1 es
      → run.version ≡ length es
      → Ensures IsNumbered (create_run database run es tasks db)
  unfolding create_run
  create_run-Ensures run es tasks db h all numbered version =
      Ensures-bind (insert_run database run db) (insert_run-Created run db) λ db₁ _ c.
        Ensures-bind (insert_events database es db₁) (insert_events-Appended database es db₁)
          λ db₂ _ (rows, n, r, v).
            Ensures-map (insert_task_rows-SameHistory database tasks db₂) λ db₃ _ same.
              let w = c.written in
              let size : 0 ≡ length (events_of run.id db.events) =
                rw (h.orphans run.id c.fresh) refl in
              grown-IsNumbered run w.row es rows db db₃ h all
                (subst (λ k. Consecutive (k + 1) es) size numbered)
                (subst (λ k. run.version ≡ k + length es) size (omega (arith, version))) w.version
                c.own n (same.0 ∙ r ∙ w.runs) (same.1 ∙ v ∙ ap (λ x. x ++ rows) w.events)
