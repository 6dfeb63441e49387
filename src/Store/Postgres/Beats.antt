-- ===== src/Store/Postgres/Beats.antt =====
-- `LeaseTasks` and `HeartbeatTask` of internal/store/postgres/store.go keep the tables numbered.
use go_project.Prelude.{
  ◌+◌, String, ◌≡◌, ◌≢◌, sym, ap, ◌∙◌, not, ◌||◌, none, some, List, [], ◌∷◌, ◌++◌, arith, ok, ℤ,
  length, lookup, insert, has_key, true, ◌==◌, inl, inr, Option-cases, Ensures, Ensures-ok,
  Ensures-err, Ensures-bind, Ensures-bind-eq, Ensures-if, Ensures-elim,
}
use go_project.History.Events.{Event, new}
use go_project.Engine.Types.{RunRecord, TaskRecord, is_leased}
use go_project.Engine.Progress.Replays.{new-run_id}
use go_project.Store.Tables.{Db}
use go_project.Store.Sqlite.{events_of, next_sequence, HeartbeatReply}
use go_project.Store.Sqlite.Sequence.{IsNumbered, extend-IsNumbered}
use go_project.Store.Sqlite.Leases.{next_sequence-length, tasks-IsNumbered}
use go_project.Store.Postgres.Columns.{Database, answered}
use go_project.Store.Postgres.Writes.{insert_event}
use go_project.Store.Postgres.Tasks.{
  bump_run_version, append_event, hold_task, lease_task, lease_each, heartbeat_task,
}
use go_project.Store.Postgres.Numbering.{Appended, insert_event-Appended, insert_event-known}

module _ (database : Database) where
  appended-IsNumbered :
      (id : String) (now : ℤ) (e row : Event) (db db₁ : Db) {run : RunRecord}
      → IsNumbered db
      → e.run_id ≡ id
      → e.sequence ≡ length (events_of id db.events) + 1
      → (row.run_id ≡ e.run_id) × (row.sequence ≡ e.sequence)
      → db₁.runs ≡ db.runs
      → db₁.events ≡ db.events ++ row ∷ []
      → lookup id db₁.runs ≡ some run
      → IsNumbered (bump_run_version database id e.sequence now db₁)
  unfolding bump_run_version
  appended-IsNumbered id now e row db db₁ {run} h own numbered n r v found =
      let run' = record run { version = e.sequence; updated_at = database.timestamp now } in
      rw (found, bump_run_version)
        (extend-IsNumbered db (record db₁ { runs = insert id run' db₁.runs }) id run' (row ∷ [])
          (ap (λ m. insert id run' m) r) v (n.0 ∙ own, tt) (n.1 ∙ numbered, tt) numbered
          (h.keys id run (ap (λ m. lookup id m) (sym r) ∙ found)) h)

  known-some :
      (id k : String) (db : Db) → k ≡ id → has_key k db.runs ≡ true → lookup id db.runs ≢ none
  unfolding has_key
  known-some id k db own known missing = ground (arith, ap (λ j. lookup j db.runs) own)

  append_event-IsNumbered :
      (id : String) (now : ℤ) (e : Event) (db : Db)
      → e.run_id ≡ id
      → IsNumbered db
      → Ensures IsNumbered (append_event database id now e db)
  unfolding append_event
  append_event-IsNumbered id now e db own h =
      let e' = record e { sequence = next_sequence id db } in
      Ensures-bind (insert_event database e' db) (insert_event-Appended database e' db)
        λ db₁ inserted a. elim (Option-cases (lookup id db₁.runs)) [
          | inl missing ↦ absurd (
              known-some id e.run_id db own ((insert_event-known database e' db).holds db₁ inserted)
                (ap (λ m. lookup id m) (sym a.2) ∙ missing))
          | inr (run, found) ↦ one db₁ found a
        ]
    where
      one :
          (db₁ : Db) {run : RunRecord}
          → lookup id db₁.runs ≡ some run
          → Appended database (record e { sequence = next_sequence id db } ∷ []) db db₁
          → Ensures IsNumbered (ok (bump_run_version database id (next_sequence id db) now db₁))
      one db₁ found (row ∷ [], n, r, v) = Ensures-ok (
          appended-IsNumbered id now (record e { sequence = next_sequence id db }) row db db₁ h own
            (next_sequence-length id db h) (n.0, n.1) r v found)
      one db₁ found ([], n, r, v) = absurd n
      one db₁ found (row ∷ other ∷ rows, n, r, v) = absurd n.2

  hold_task-SameHistory :
      (id worker_id : String) (ttl now : ℤ) (db : Db)
      → IsNumbered db
      → IsNumbered (hold_task database id worker_id ttl now db)
  unfolding hold_task
  hold_task-SameHistory id worker_id ttl now db h = elim (Option-cases (lookup id db.tasks)) [
    | inl missing ↦ rw (missing, hold_task) h
    | inr (row, found) ↦ rw (found, hold_task) (tasks-IsNumbered db _ h)
  ]

  lease_task-IsNumbered :
      (worker_id : String) (ttl now : ℤ) (task : TaskRecord) (acc : Db × List TaskRecord)
      → IsNumbered acc.0
      → Ensures
          (λ (acc' : Db × List TaskRecord). IsNumbered acc'.0)
          (lease_task database worker_id ttl now task acc)
  unfolding lease_task
  lease_task-IsNumbered worker_id ttl now task (db, out) h =
      Ensures-bind-eq (answered database.while_reading) λ _ _.
        Ensures-bind (new task.run_id task.step_id task.id _ now)
          (new-run_id task.run_id task.step_id task.id _ now)
          λ e _ own.
            Ensures-bind (append_event database task.run_id now e _)
              (append_event-IsNumbered task.run_id now e _ own
                (hold_task-SameHistory task.id worker_id ttl now db h))
              λ db' _ h'. Ensures-ok h'

  pub lease_each-IsNumbered :
      (worker_id : String) (ttl now : ℤ) (tasks : List TaskRecord) (acc : Db × List TaskRecord)
      → IsNumbered acc.0
      → Ensures
          (λ (acc' : Db × List TaskRecord). IsNumbered acc'.0)
          (lease_each database worker_id ttl now tasks acc)
  unfolding lease_each
  lease_each-IsNumbered worker_id ttl now [] acc h = Ensures-ok h
  lease_each-IsNumbered worker_id ttl now (task ∷ tasks) acc h =
      Ensures-bind (lease_task database worker_id ttl now task acc)
        (lease_task-IsNumbered worker_id ttl now task acc h)
        λ acc' _ h'. lease_each-IsNumbered worker_id ttl now tasks acc' h'

  pub heartbeat_task-Ensures :
      (task_id worker_id : String) (extend_by now : ℤ) (db : Db)
      → IsNumbered db
      → Ensures
          (λ (acc : Db × HeartbeatReply). IsNumbered acc.0)
          (heartbeat_task database task_id worker_id extend_by now db)
  unfolding heartbeat_task
  heartbeat_task-Ensures task_id worker_id extend_by now db h =
      Ensures-elim (lookup task_id db.tasks) (λ _. Ensures-err _)
        λ task _.
          Ensures-elim (lookup task.run_id db.runs) (λ _. Ensures-err _)
            λ run _.
              Ensures-if (not (is_leased task.status) || not (task.lease_owner == worker_id))
                (λ _. Ensures-err _)
                (λ _.
                  Ensures-bind (new task.run_id task.step_id task_id _ now)
                    (new-run_id task.run_id task.step_id task_id _ now)
                    λ e _ own.
                      Ensures-bind (append_event database task.run_id now e _)
                        (append_event-IsNumbered task.run_id now e _ own (tasks-IsNumbered db _ h))
                        λ db' _ h'. Ensures-ok h')
