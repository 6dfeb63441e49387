-- ===== src/Store/Postgres/Writes.antt =====
-- `CreateRun` and `AppendRunChanges` of internal/store/postgres/store.go, and their single inserts
-- and updates. An operation that returns an error has rolled its transaction back.
use go_project.Prelude.{
  ℕ, not, none, some, List, [], ◌∷◌, ◌++◌, if◌then◌else◌, nat_eq, Result, ok, err, duplicate_key,
  missing_run, version_conflict, ◌>>=◌, lookup, insert, has_key,
}
use go_project.History.Events.{Event}
use go_project.Engine.Types.{RunRecord, TaskRecord, TaskMutation, insert_task, update_task}
use go_project.Store.Tables.{Db, same_key, any_event}
use go_project.Store.Postgres.Columns.{Database, run_columns, event_columns, task_columns}

module _ (database : Database) where
  -- `insertRun`.
  unfoldable pub insert_run : RunRecord → Db → Result Db
  insert_run run db = run_columns database run >>= λ row.
      if has_key run.id db.runs
      then err duplicate_key
      else ok (record db { runs = insert run.id row db.runs })

  -- `insertEvent`: the foreign key wants the run, the primary key a new sequence.
  unfoldable pub insert_event : Event → Db → Result Db
  unfolding any_event
  insert_event e db = event_columns database e >>= λ row.
      if not (has_key e.run_id db.runs)
      then err missing_run
      else if any_event (same_key e) db.events
      then err duplicate_key
      else ok (record db { events = db.events ++ row ∷ [] })

  unfoldable pub insert_events : List Event → Db → Result Db
  insert_events [] db = ok db
  insert_events (e ∷ es) db = insert_event e db >>= λ db'. insert_events es db'

  -- `insertTask`.
  unfoldable pub insert_task_row : TaskRecord → Db → Result Db
  insert_task_row task db = task_columns database task >>= λ row.
      if not (has_key task.run_id db.runs)
      then err missing_run
      else if has_key task.id db.tasks
      then err duplicate_key
      else ok (record db { tasks = insert task.id row db.tasks })

  unfoldable pub insert_task_rows : List TaskRecord → Db → Result Db
  insert_task_rows [] db = ok db
  insert_task_rows (task ∷ tasks) db = insert_task_row task db >>= λ db'. insert_task_rows tasks db'

  -- `updateTask`: the columns that it sets; a row that is not there is not an error.
  unfoldable pub update_task_row : TaskRecord → Db → Result Db
  update_task_row task db = task_columns database task >>= λ new. elim (lookup task.id db.tasks) [
    | none ↦ ok db
    | some old ↦ ok (record db {
      tasks =
          insert task.id
            (record old {
              status = new.status;
              attempt = new.attempt;
              max_attempts = new.max_attempts;
              available_at = new.available_at;
              lease_owner = new.lease_owner;
              lease_expires_at = new.lease_expires_at;
              heartbeat_at = new.heartbeat_at;
              timeout = new.timeout;
              input = new.input;
              last_error = new.last_error;
              updated_at = new.updated_at;
            })
            db.tasks;
    })
  ]

  unfoldable pub apply_mutations : List TaskMutation → Db → Result Db
  apply_mutations [] db = ok db
  apply_mutations (insert_task task ∷ ms) db =
      insert_task_row task db >>= λ db'. apply_mutations ms db'
  apply_mutations (update_task task ∷ ms) db =
      update_task_row task db >>= λ db'. apply_mutations ms db'

  -- `CreateRun`.
  unfoldable pub create_run : RunRecord → List Event → List TaskRecord → Db → Result Db
  create_run run events tasks db =
      insert_run run db >>= λ db₁. insert_events events db₁ >>= λ db₂. insert_task_rows tasks db₂

  -- `UPDATE runs … WHERE id = $10 AND version = $11`; no row affected is the version conflict.
  unfoldable pub update_run : RunRecord → ℕ → Db → Result Db
  update_run run expected db = run_columns database run >>= λ new. elim (lookup run.id db.runs) [
    | none ↦ err (version_conflict run.id)
    | some old ↦
        if nat_eq old.version expected
        then ok (record db {
          runs =
              insert run.id
                (record old {
                  status = new.status;
                  input = new.input;
                  output = new.output;
                  failure = new.failure;
                  cancel_reason = new.cancel_reason;
                  metadata = new.metadata;
                  updated_at = new.updated_at;
                  completed_at = new.completed_at;
                  version = new.version;
                })
                db.runs;
        })
        else err (version_conflict run.id)
  ]

  -- `AppendRunChanges`.
  unfoldable pub append_run_changes :
      RunRecord → ℕ → List Event → List TaskMutation → Db → Result Db
  append_run_changes run expected events mutations db = update_run run expected db >>= λ db₁.
      insert_events events db₁ >>= λ db₂. apply_mutations mutations db₂
