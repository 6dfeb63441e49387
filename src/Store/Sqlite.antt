-- ===== src/Store/Sqlite.antt =====
-- internal/store/sqlite/store.go: the tables and the operations on them. An operation that returns
-- an error has rolled its transaction back: the tables stay as they were.
pub mod Sequence
pub mod Frames
pub mod Numbering
pub mod Leases
pub mod Conflicts
pub mod Reading
use go_project.Store.Tables.{
  Db, stored_timeout, run_row, event_row, task_row, insert_run, same_key, any_event, insert_event,
  insert_events, insert_task_row, insert_task_rows, update_task_row, apply_mutations,
}
use go_project.Prelude.{
  ℕ, zero, suc, ◌+◌, ◌*◌, String, Bool, true, false, ◌&&◌, ◌||◌, not, Option, none, some, List, [],
  ◌∷◌, ◌++◌, map, ◌==◌, if◌then◌else◌, nat_eq, leb, ltb, ℤ, pos, negsuc, pos_part, ◌+ℤ◌, leb_ℤ,
  Result, ok, err, run_not_found, task_not_found, task_lease_lost, version_conflict, duplicate_key,
  missing_run, ◌>>=◌, Assoc, lookup, insert, has_key, take, sort_by, select,
}
use go_project.History.Json.{Raw}
use go_project.History.Payloads.{leased, heartbeat}
use go_project.History.Events.{Event, new}
use go_project.Engine.Types.{
  RunStatus, TaskStatus, is_available, is_leased, is_forward, task_kind_activity, task_kind_timer,
  RunRecord, TaskRecord, TaskMutation, insert_task, update_task,
}
use go_project.Engine.Tasks.{normalize_json, whole_seconds}
use go_project.Store.Times.{second, time_le}

-- `CreateRun`.
unfoldable pub create_run : RunRecord → List Event → List TaskRecord → Db → Result Db
create_run run events tasks db =
    insert_run run db >>= λ db₁. insert_events events db₁ >>= λ db₂. insert_task_rows tasks db₂

-- `UPDATE runs … WHERE id = ? AND version = ?`; no row affected is the version conflict.
unfoldable pub update_run : RunRecord → ℕ → Db → Result Db
update_run run expected db = elim (lookup run.id db.runs) [
  | none ↦ err (version_conflict run.id)
  | some old ↦
      if nat_eq old.version expected
      then ok (record db {
        runs =
            insert run.id
              (record old {
                status = run.status;
                input = normalize_json run.input;
                output = run.output;
                failure = run.failure;
                cancel_reason = run.cancel_reason;
                metadata = run.metadata;
                updated_at = run.updated_at;
                completed_at = run.completed_at;
                version = run.version;
              })
              db.runs;
      })
      else err (version_conflict run.id)
]

-- `AppendRunChanges`.
unfoldable pub append_run_changes : RunRecord → ℕ → List Event → List TaskMutation → Db → Result Db
append_run_changes run expected events mutations db = update_run run expected db >>= λ db₁.
    insert_events events db₁ >>= λ db₂. apply_mutations mutations db₂

unfoldable pub get_run : String → Db → Result RunRecord
get_run id db = elim (lookup id db.runs) [ none ↦ err run_not_found | some run ↦ ok run ]

abbrev of_run : String → Event → Bool
of_run id e = e.run_id == id

-- The events of a run as they were inserted.
unfoldable pub events_of : String → List Event → List Event
events_of id events = select (of_run id) events

-- `GetHistory`, in the order of the sequences.
unfoldable pub get_history : String → Db → List Event
unfolding events_of
get_history id db = sort_by (λ (e f : Event). leb e.sequence f.sequence) (events_of id db.events)

abbrev pub rows : Assoc TaskRecord → List TaskRecord
rows tasks = map (λ (p : String × TaskRecord). p.1) tasks

-- `ListTasks`.
unfoldable pub list_tasks : String → Db → List TaskRecord
list_tasks id db =
    sort_by (λ (a b : TaskRecord). time_le a.created_at b.created_at)
      (select (λ (task : TaskRecord). task.run_id == id) (rows db.tasks))

unfoldable pub get_task : String → Db → Result TaskRecord
get_task id db = elim (lookup id db.tasks) [ none ↦ err task_not_found | some task ↦ ok task ]

-- `SELECT COALESCE(MAX(sequence), 0)`.
unfoldable pub max_sequence : List Event → ℕ
max_sequence [] = 0
max_sequence (e ∷ es) = let m = max_sequence es in if ltb m e.sequence then e.sequence else m

unfoldable pub next_sequence : String → Db → ℕ
unfolding max_sequence events_of
next_sequence id db = max_sequence (events_of id db.events) + 1

unfoldable pub bump_run_version : String → ℕ → ℤ → Db → Db
bump_run_version id version now db = elim (lookup id db.runs) [
  | none ↦ db
  | some run ↦ record db {
    runs = insert id (record run { version = version; updated_at = now }) db.runs;
  }
]

-- The event that a lease or a heartbeat writes, with the next sequence, and the version after it.
unfoldable pub append_event : String → ℤ → Event → Db → Result Db
append_event run_id now e db =
    let seq = next_sequence run_id db in
    insert_event (record e { sequence = seq }) db >>= λ db'.
    ok (bump_run_version run_id seq now db')

unfoldable pub is_leasable : String → ℤ → TaskRecord → Bool
is_leasable queue now task =
    task.queue_name == queue
    && task.kind == task_kind_activity
    && is_available task.status
    && time_le task.available_at now

abbrev earlier : TaskRecord → TaskRecord → Bool
earlier a b =
    if time_le a.available_at b.available_at
    then (if time_le b.available_at a.available_at then time_le a.created_at b.created_at else true)
    else false

unfoldable pub limit_or : ℕ → ℤ → ℕ
limit_or default limit = if leb_ℤ limit (pos 0) then default else pos_part limit

-- `ListRuns`, the latest update first.
unfoldable pub list_runs : ℤ → Db → List RunRecord
list_runs limit db = take (limit_or 50 limit) (
    sort_by (λ (a b : RunRecord). time_le b.updated_at a.updated_at)
      (map (λ (p : String × RunRecord). p.1) db.runs))

-- The rows that the query of `leaseTasks` selects.
unfoldable pub lease_candidates : String → ℕ → ℤ → Db → List TaskRecord
unfolding is_leasable
lease_candidates queue limit now db =
    take limit (sort_by earlier (select (is_leasable queue now) (rows db.tasks)))

-- One round of the loop: the row is leased if it is still available.
unfoldable pub lease_task :
    String → ℤ → ℤ → TaskRecord → Db × List TaskRecord → Result (Db × List TaskRecord)
lease_task worker_id ttl now task (db, out) = elim (lookup task.id db.tasks) [
  | none ↦ ok (db, out)
  | some row ↦
      if is_available row.status
      then (let row' = record row {
        status = TaskStatus.leased;
        lease_owner = worker_id;
        lease_expires_at = some (now +ℤ ttl);
        heartbeat_at = some now;
        updated_at = now;
      } in
          new task.run_id task.step_id task.id
            (leased (record {
              task_id = task.id;
              step_id = task.step_id;
              worker_id = worker_id;
              attempt = task.attempt;
              lease_expires_at = now +ℤ ttl;
            }))
            now
          >>= λ e.
              append_event task.run_id now e (record db { tasks = insert task.id row' db.tasks })
              >>= λ db'. ok (
                db',
                out
                    ++ record task {
                      status = TaskStatus.leased;
                      lease_owner = worker_id;
                      lease_expires_at = some (now +ℤ ttl);
                      heartbeat_at = some now;
                      updated_at = now;
                    }
                      ∷ [],
              ))
      else ok (db, out)
]

unfoldable pub lease_each :
    String → ℤ → ℤ → List TaskRecord → Db × List TaskRecord → Result (Db × List TaskRecord)
lease_each worker_id ttl now [] acc = ok acc
lease_each worker_id ttl now (task ∷ tasks) acc =
    lease_task worker_id ttl now task acc >>= λ acc'. lease_each worker_id ttl now tasks acc'

-- `LeaseTasks`.
unfoldable pub lease_tasks : String → String → ℤ → ℤ → ℤ → Db → Result (Db × List TaskRecord)
lease_tasks queue worker_id limit ttl now db =
    lease_each worker_id ttl now (lease_candidates queue (limit_or 1 limit) now db) (db, [])

abbrev pub is_cancelling : RunStatus → Bool
is_cancelling RunStatus.cancelling = true
is_cancelling RunStatus.cancelled = true
is_cancelling _ = false

pub record HeartbeatReply : Type 0 where
  pub lease_expires_at : ℤ
  pub cancel_requested : Bool

-- `HeartbeatTask`; the join finds no row without the run.
unfoldable pub heartbeat_task : String → String → ℤ → ℤ → Db → Result (Db × HeartbeatReply)
heartbeat_task task_id worker_id extend_by now db = elim (lookup task_id db.tasks) [
  | none ↦ err task_not_found
  | some task ↦ elim (lookup task.run_id db.runs) [
    | none ↦ err task_not_found
    | some run ↦
        if not (is_leased task.status) || not (task.lease_owner == worker_id)
        then err task_lease_lost
        else (let expires = now +ℤ extend_by in
            let task' = record task {
              heartbeat_at = some now;
              lease_expires_at = some expires;
              updated_at = now;
            } in
            new task.run_id task.step_id task_id
              (heartbeat
                (record { task_id = task_id; worker_id = worker_id; lease_expires_at = expires }))
              now
            >>= λ e.
                append_event task.run_id now e (record db { tasks = insert task_id task' db.tasks })
                >>= λ db'. ok (
                  db',
                  record {
                    lease_expires_at = expires;
                    cancel_requested = is_forward task.phase && is_cancelling run.status;
                  },
                ))
  ]
]

abbrev by_update : TaskRecord → TaskRecord → Bool
by_update a b = time_le a.updated_at b.updated_at

-- `AvailableTimers`.
unfoldable pub available_timers : ℤ → ℤ → Db → List TaskRecord
available_timers limit now db = take (limit_or 32 limit) (
    sort_by by_update (
      select
        (λ (task : TaskRecord).
          is_available task.status && task.kind == task_kind_timer && time_le task.available_at now)
        (rows db.tasks)))

expired_by : ℤ → Option ℤ → Bool
expired_by now none = false
expired_by now (some t) = time_le t now

-- `ExpiredLeases`.
unfoldable pub expired_leases : ℤ → ℤ → Db → List TaskRecord
unfolding expired_by
expired_leases limit now db = take (limit_or 32 limit) (
    sort_by by_update (
      select (λ (task : TaskRecord). is_leased task.status && expired_by now task.lease_expires_at)
        (rows db.tasks)))
