-- ===== src/Store/Sqlite/Leases.antt =====
-- The numbering of the histories under the leases and heartbeats of internal/store/sqlite/store.go.
use go_project.Prelude.{
  ℕ, ◌+◌, String, true, Option-cases, inl, inr, ◌≡◌, ◌≢◌, refl, sym, ap, ◌∙◌, not, ◌||◌, none, some,
  List, [], ◌∷◌, ◌++◌, ok, ◌==◌, arith, length, lookup, insert, has_key, ℤ, Ensures, Ensures-ok,
  Ensures-err, Ensures-bind, Ensures-if, Ensures-elim,
}
use go_project.History.Events.{Event, new}
use go_project.Engine.Types.{is_available, is_leased, TaskRecord, RunRecord}
use go_project.Engine.Progress.Replays.{Consecutive, new-run_id}
use go_project.Store.Sqlite.{
  events_of, max_sequence, next_sequence, bump_run_version, append_event, lease_task, lease_each,
  lease_candidates, limit_or, lease_tasks, HeartbeatReply, heartbeat_task,
}
use go_project.Store.Tables.{Db, event_row, insert_event, any_event, same_key}
use go_project.Store.Sqlite.Sequence.{IsNumbered, extend-IsNumbered}
use go_project.Store.Sqlite.Frames.{insert_event-events}

max_sequence-Consecutive :
    (n : ℕ) (e : Event) (es : List Event)
    → Consecutive n (e ∷ es)
    → max_sequence (e ∷ es) ≡ n + length es
unfolding max_sequence
max_sequence-Consecutive n e [] h = ground arith
max_sequence-Consecutive n e (f ∷ es) h = ground (arith, max_sequence-Consecutive (n + 1) f es h.1)

max_sequence-length : (es : List Event) → Consecutive 1 es → max_sequence es ≡ length es
unfolding max_sequence
max_sequence-length [] h = refl
max_sequence-length (e ∷ es) h = max_sequence-Consecutive 1 e es h ∙ omega arith

-- In numbered histories the next sequence is the number of events and one.
pub next_sequence-length :
    (id : String) (db : Db)
    → IsNumbered db
    → next_sequence id db ≡ length (events_of id db.events) + 1
unfolding next_sequence
next_sequence-length id db h =
    ap (λ m. m + 1) (max_sequence-length (events_of id db.events) (h.sequences id))

insert_event-known :
    (e : Event) (db : Db)
    → Ensures (λ (db' : Db). has_key e.run_id db.runs ≡ true) (insert_event e db)
unfolding insert_event
insert_event-known e db =
    Ensures-if (not (has_key e.run_id db.runs)) (λ _. Ensures-err _)
      λ k.
        Ensures-if (any_event (same_key e) db.events) (λ _. Ensures-err _)
          λ _. Ensures-ok (ground arith)

bumped-IsNumbered :
    (id : String) (now : ℤ) (e : Event) (db db₁ : Db) {run : RunRecord}
    → e.run_id ≡ id
    → e.sequence ≡ length (events_of id db.events) + 1
    → db₁.runs ≡ db.runs
    → db₁.events ≡ db.events ++ event_row e ∷ []
    → lookup id db₁.runs ≡ some run
    → IsNumbered db
    → IsNumbered (bump_run_version id e.sequence now db₁)
unfolding bump_run_version event_row
bumped-IsNumbered id now e db db₁ {run} own numbered r v found h =
    rw (found, bump_run_version)
      (extend-IsNumbered db
        (record db₁ {
          runs = insert id (record run { version = e.sequence; updated_at = now }) db₁.runs;
        })
        id (record run { version = e.sequence; updated_at = now }) (event_row e ∷ [])
        (ap (λ m. insert id (record run { version = e.sequence; updated_at = now }) m) r) v
        (own, tt) (numbered, tt) numbered (h.keys id run (ap (λ m. lookup id m) (sym r) ∙ found)) h)

known-some :
    (id : String) (db : Db) {k : String}
    → k ≡ id
    → has_key k db.runs ≡ true
    → lookup id db.runs ≢ none
unfolding has_key
known-some id db own known missing = ground (arith, ap (λ j. lookup j db.runs) own)

-- One event more, under the next sequence, and the version after it.
append_event-IsNumbered :
    (id : String) (now : ℤ) (e : Event) (db : Db)
    → e.run_id ≡ id
    → IsNumbered db
    → Ensures IsNumbered (append_event id now e db)
unfolding append_event
append_event-IsNumbered id now e db own h =
    let e' = record e { sequence = next_sequence id db } in
    Ensures-bind (insert_event e' db) (insert_event-events e' db) λ db₁ inserted (r, v).
      elim (Option-cases (lookup id db₁.runs)) [
        | inl missing ↦ absurd (
            known-some id db own ((insert_event-known e' db).holds db₁ inserted)
              (ap (λ m. lookup id m) (sym r) ∙ missing))
        | inr (run, found) ↦
            Ensures-ok
              (bumped-IsNumbered id now e' db db₁ own (next_sequence-length id db h) r v found h)
      ]

pub tasks-IsNumbered :
    (db : Db) (tasks : _) → IsNumbered db → IsNumbered (record db { tasks = tasks })
tasks-IsNumbered db tasks h = record {
  keys = h.keys;
  versions = h.versions;
  sequences = h.sequences;
  orphans = h.orphans;
}

lease_task-IsNumbered :
    (worker_id : String) (ttl now : ℤ) (task : TaskRecord) (db : Db) (out : List TaskRecord)
    → IsNumbered db
    → Ensures
        (λ (acc : Db × List TaskRecord). IsNumbered acc.0)
        (lease_task worker_id ttl now task (db, out))
unfolding lease_task
lease_task-IsNumbered worker_id ttl now task db out h =
    Ensures-elim (lookup task.id db.tasks) (λ _. Ensures-ok h)
      λ row _.
        Ensures-if (is_available row.status)
          (λ _.
            Ensures-bind (new task.run_id task.step_id task.id _ now)
              (new-run_id task.run_id task.step_id task.id _ now)
              λ e _ own.
                Ensures-bind (append_event task.run_id now e _)
                  (append_event-IsNumbered task.run_id now e _ own (tasks-IsNumbered db _ h))
                  λ db' _ h'. Ensures-ok h')
          (λ _. Ensures-ok h)

lease_each-IsNumbered :
    (worker_id : String) (ttl now : ℤ) (tasks : List TaskRecord) (acc : Db × List TaskRecord)
    → IsNumbered acc.0
    → Ensures
        (λ (acc' : Db × List TaskRecord). IsNumbered acc'.0)
        (lease_each worker_id ttl now tasks acc)
unfolding lease_each
lease_each-IsNumbered worker_id ttl now [] acc h = Ensures-ok h
lease_each-IsNumbered worker_id ttl now (task ∷ tasks) acc h =
    Ensures-bind (lease_task worker_id ttl now task acc)
      (lease_task-IsNumbered worker_id ttl now task acc.0 acc.1 h)
      λ acc' _ h'. lease_each-IsNumbered worker_id ttl now tasks acc' h'

-- A successful `LeaseTasks` keeps every history numbered from 1 without a gap and every version at
-- the count of its run's events, where the tables were so before.
pub lease_tasks-IsNumbered :
    (queue worker_id : String) (limit ttl now : ℤ) (db : Db) {db' : Db} {leases : List TaskRecord}
    → IsNumbered db
    → lease_tasks queue worker_id limit ttl now db ≡ ok (db', leases)
    → IsNumbered db'
unfolding lease_tasks
lease_tasks-IsNumbered queue worker_id limit ttl now db {db'} {leases} h e =
    (lease_each-IsNumbered worker_id ttl now (lease_candidates queue (limit_or 1 limit) now db)
        (db, []) h).holds
      (db', leases) e

heartbeat_task-Ensures :
    (task_id worker_id : String) (extend_by now : ℤ) (db : Db)
    → IsNumbered db
    → Ensures
        (λ (acc : Db × HeartbeatReply). IsNumbered acc.0)
        (heartbeat_task task_id worker_id extend_by now db)
unfolding heartbeat_task
heartbeat_task-Ensures task_id worker_id extend_by now db h =
    Ensures-elim (lookup task_id db.tasks) (λ _. Ensures-err _)
      λ task _.
        Ensures-elim (lookup task.run_id db.runs) (λ _. Ensures-err _)
          λ run _.
            Ensures-if (not (is_leased task.status) || not (task.lease_owner == worker_id))
              (λ _. Ensures-err _)
              (λ _.
                Ensures-bind (new task.run_id task.step_id task_id _ now)
                  (new-run_id task.run_id task.step_id task_id _ now)
                  λ e _ own.
                    Ensures-bind (append_event task.run_id now e _)
                      (append_event-IsNumbered task.run_id now e _ own (tasks-IsNumbered db _ h))
                      λ db' _ h'. Ensures-ok h')

-- A successful `HeartbeatTask` keeps every history numbered from 1 without a gap and every version at
-- the count of its run's events, where the tables were so before.
pub heartbeat_task-IsNumbered :
    (task_id worker_id : String) (extend_by now : ℤ) (db : Db) {db' : Db} {reply : HeartbeatReply}
    → IsNumbered db
    → heartbeat_task task_id worker_id extend_by now db ≡ ok (db', reply)
    → IsNumbered db'
heartbeat_task-IsNumbered task_id worker_id extend_by now db {db'} {reply} h e =
    (heartbeat_task-Ensures task_id worker_id extend_by now db h).holds (db', reply) e
