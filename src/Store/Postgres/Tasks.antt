-- ===== src/Store/Postgres/Tasks.antt =====
-- The task queries of internal/store/postgres/store.go: leases, heartbeats, timers and expired
-- leases. Times are compared as instants.
use go_project.Prelude.{
  ℕ, String, Bool, true, false, ◌&&◌, ◌||◌, not, Option, none, some, List, [], ◌∷◌, ◌++◌, ◌==◌, map,
  if◌then◌else◌, ℤ, ◌+ℤ◌, leb_ℤ, Result, ok, err, task_not_found, task_lease_lost, ◌>>=◌, lookup,
  insert, contains, take, sort_by, select,
}
use go_project.History.Payloads.{leased, heartbeat}
use go_project.History.Events.{Event, new}
use go_project.Engine.Types.{
  TaskStatus, is_available, is_leased, is_forward, task_kind_activity, task_kind_timer, RunRecord,
  TaskRecord,
}
use go_project.Store.Tables.{Db}
use go_project.Store.Sqlite.{next_sequence, limit_or, HeartbeatReply, is_cancelling, rows}
use go_project.Store.Postgres.Columns.{Database, answered}
use go_project.Store.Postgres.Writes.{insert_event}

-- `ListRuns`, the latest update first.
unfoldable pub list_runs : ℤ → Db → List RunRecord
list_runs limit db = take (limit_or 50 limit) (
    sort_by (λ (a b : RunRecord). leb_ℤ b.updated_at a.updated_at)
      (map (λ (p : String × RunRecord). p.1) db.runs))

-- `ListTasks`.
unfoldable pub list_tasks : String → Db → List TaskRecord
list_tasks run_id db =
    sort_by (λ (a b : TaskRecord). leb_ℤ a.created_at b.created_at)
      (select (λ (task : TaskRecord). task.run_id == run_id) (rows db.tasks))

abbrev pub earlier : TaskRecord → TaskRecord → Bool
earlier a b =
    if leb_ℤ a.available_at b.available_at
    then (if leb_ℤ b.available_at a.available_at then leb_ℤ a.created_at b.created_at else true)
    else false

unfoldable pub is_leasable : String → ℤ → TaskRecord → Bool
is_leasable queue now task =
    task.queue_name == queue
    && task.kind == task_kind_activity
    && is_available task.status
    && leb_ℤ task.available_at now

module _ (database : Database) where
  -- The query of `LeaseTasks`. `SKIP LOCKED` leaves out the rows that other transactions hold.
  unfoldable pub lease_candidates : List String → String → ℕ → ℤ → Db → List TaskRecord
  unfolding is_leasable
  lease_candidates locked queue limit now db = take limit (
      sort_by earlier (
        select
          (λ (task : TaskRecord).
            is_leasable queue (database.timestamp now) task && not (contains locked task.id))
          (rows db.tasks)))

  unfoldable pub bump_run_version : String → ℕ → ℤ → Db → Db
  bump_run_version id version now db = elim (lookup id db.runs) [
    | none ↦ db
    | some run ↦ record db {
      runs =
          insert id (record run { version = version; updated_at = database.timestamp now }) db.runs;
    }
  ]

  -- The event that a lease or a heartbeat writes, with the next sequence, and the version after it.
  unfoldable pub append_event : String → ℤ → Event → Db → Result Db
  append_event run_id now e db =
      let seq = next_sequence run_id db in
      insert_event database (record e { sequence = seq }) db >>= λ db'.
      ok (bump_run_version run_id seq now db')

  -- `UPDATE tasks SET status = … WHERE id = $6`.
  unfoldable pub hold_task : String → String → ℤ → ℤ → Db → Db
  hold_task id worker_id ttl now db = elim (lookup id db.tasks) [
    | none ↦ db
    | some row ↦ record db {
      tasks =
          insert id
            (record row {
              status = TaskStatus.leased;
              lease_owner = worker_id;
              lease_expires_at = some (database.timestamp (now +ℤ ttl));
              heartbeat_at = some (database.timestamp now);
              updated_at = database.timestamp now;
            })
            db.tasks;
    }
  ]

  -- One round of the loop over the rows, which are still read: the driver may refuse its first
  -- statement, and with it all.
  unfoldable pub lease_task :
      String → ℤ → ℤ → TaskRecord → Db × List TaskRecord → Result (Db × List TaskRecord)
  unfolding answered
  lease_task worker_id ttl now task (db, out) = answered database.while_reading >>= λ _.
      new task.run_id task.step_id task.id
        (leased (record {
          task_id = task.id;
          step_id = task.step_id;
          worker_id = worker_id;
          attempt = task.attempt;
          lease_expires_at = now +ℤ ttl;
        }))
        now
      >>= λ e. append_event task.run_id now e (hold_task task.id worker_id ttl now db) >>= λ db'.
          ok (
            db',
            out
                ++ record task {
                  status = TaskStatus.leased;
                  lease_owner = worker_id;
                  lease_expires_at = some (now +ℤ ttl);
                  heartbeat_at = some now;
                  updated_at = now;
                }
                  ∷ [],
          )

  unfoldable pub lease_each :
      String → ℤ → ℤ → List TaskRecord → Db × List TaskRecord → Result (Db × List TaskRecord)
  lease_each worker_id ttl now [] acc = ok acc
  lease_each worker_id ttl now (task ∷ tasks) acc =
      lease_task worker_id ttl now task acc >>= λ acc'. lease_each worker_id ttl now tasks acc'

  -- `LeaseTasks`.
  unfoldable pub lease_tasks :
      List String → String → String → ℤ → ℤ → ℤ → Db → Result (Db × List TaskRecord)
  lease_tasks locked queue worker_id limit ttl now db =
      lease_each worker_id ttl now (lease_candidates locked queue (limit_or 1 limit) now db)
        (db, [])

  -- `HeartbeatTask`; the join finds no row without the run.
  unfoldable pub heartbeat_task : String → String → ℤ → ℤ → Db → Result (Db × HeartbeatReply)
  heartbeat_task task_id worker_id extend_by now db = elim (lookup task_id db.tasks) [
    | none ↦ err task_not_found
    | some task ↦ elim (lookup task.run_id db.runs) [
      | none ↦ err task_not_found
      | some run ↦
          if not (is_leased task.status) || not (task.lease_owner == worker_id)
          then err task_lease_lost
          else (let expires = now +ℤ extend_by in
              let task' = record task {
                heartbeat_at = some (database.timestamp now);
                lease_expires_at = some (database.timestamp expires);
                updated_at = database.timestamp now;
              } in
              new task.run_id task.step_id task_id
                (heartbeat
                  (record { task_id = task_id; worker_id = worker_id; lease_expires_at = expires }))
                now
              >>= λ e.
                  append_event task.run_id now e
                    (record db { tasks = insert task_id task' db.tasks })
                  >>= λ db'. ok (
                    db',
                    record {
                      lease_expires_at = expires;
                      cancel_requested = is_forward task.phase && is_cancelling run.status;
                    },
                  ))
    ]
  ]

  abbrev by_update : TaskRecord → TaskRecord → Bool
  by_update a b = leb_ℤ a.updated_at b.updated_at

  -- `AvailableTimers`.
  unfoldable pub available_timers : ℤ → ℤ → Db → List TaskRecord
  available_timers limit now db = take (limit_or 32 limit) (
      sort_by by_update (
        select
          (λ (task : TaskRecord).
            task.kind == task_kind_timer
            && is_available task.status
            && leb_ℤ task.available_at (database.timestamp now))
          (rows db.tasks)))

  expired_by : ℤ → Option ℤ → Bool
  expired_by now none = false
  expired_by now (some t) = leb_ℤ t now

  -- `ExpiredLeases`.
  unfoldable pub expired_leases : ℤ → ℤ → Db → List TaskRecord
  unfolding expired_by
  expired_leases limit now db = take (limit_or 32 limit) (
      sort_by by_update (
        select
          (λ (task : TaskRecord).
            is_leased task.status && expired_by (database.timestamp now) task.lease_expires_at)
          (rows db.tasks)))
