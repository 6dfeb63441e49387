-- ===== src/Store/Postgres/Histories.antt =====
-- The tables that the operations of internal/store/postgres/store.go lead to, and their numbering.
use go_project.Prelude.{
  ℕ, ◌+◌, String, ◌≡◌, ◌≢◌, refl, sym, ap, ◌∙◌, subst, not, ◌||◌, none, some, List, [], ◌∷◌, ◌++◌,
  arith, ok, ℤ, length, lookup, insert, has_key, nat_eq, true, ◌==◌, inl, inr, Option-cases,
  Ensures, Ensures-ok, Ensures-err, Ensures-bind, Ensures-bind-eq, Ensures-if, Ensures-elim,
  Ensures-map, Option, Assoc, length-sort_by, Bool-cases,
}
use go_project.History.Json.{Raw}
use go_project.Workflow.Registry.{Registry}
use go_project.Engine.Types.{RunRecord, TaskRecord}
use go_project.Store.Tables.{Db}
use go_project.Store.Sqlite.{events_of, limit_or, HeartbeatReply}
use go_project.Store.Sqlite.Sequence.{IsNumbered}
use go_project.Store.Postgres.Columns.{Database}
use go_project.Store.Postgres.Tasks.{lease_tasks, lease_candidates, heartbeat_task}
use go_project.Store.Postgres.Service.{Call, call_once, start}
use go_project.Store.Postgres.Beats.{lease_each-IsNumbered, heartbeat_task-Ensures}
use go_project.Store.Postgres.Calls.{call_once-IsNumbered, start-IsNumbered}

-- New tables.
abbrev pub no_rows : Db
no_rows = record { runs = []; events = []; tasks = [] }

no_rows-IsNumbered : IsNumbered no_rows
unfolding lookup events_of go_project.Prelude.select
no_rows-IsNumbered = record {
  keys = λ id run found. ground arith;
  versions = λ id run found. ground arith;
  sequences = λ id. tt;
  orphans = λ id missing. refl;
}

-- The tables after any sequence of operations of the engine, each of which may have loaded its run
-- from the tables of any time before.
pub data Stored (database : Database) {Handler : Type 0} (registry : Registry Handler)
    : Db → Type 0 where
  initialized : Stored database registry no_rows
  started :
      {db db' : Db} (uuid : ℕ → String) (workflow_name run_id : String) (input : Raw)
      (metadata : Assoc String) (now : ℤ) (run : RunRecord)
      → Stored database registry db
      → start database registry uuid workflow_name run_id input metadata now db ≡ ok (db', run)
      → Stored database registry db'
  called :
      {seen db db' : Db} (uuid : ℕ → String) (call : Call) (now : ℤ)
      → Stored database registry seen
      → Stored database registry db
      → call_once database registry uuid call now seen db ≡ ok db'
      → Stored database registry db'
  leased :
      {db db' : Db} (locked : List String) (queue worker_id : String) (limit ttl now : ℤ)
      (leases : List TaskRecord)
      → Stored database registry db
      → lease_tasks database locked queue worker_id limit ttl now db ≡ ok (db', leases)
      → Stored database registry db'
  beaten :
      {db db' : Db} (task_id worker_id : String) (extend_by now : ℤ) (reply : HeartbeatReply)
      → Stored database registry db
      → heartbeat_task database task_id worker_id extend_by now db ≡ ok (db', reply)
      → Stored database registry db'

module _ (database : Database) {Handler : Type 0} (registry : Registry Handler) where
  -- In all PostgreSQL tables that the operations of the engine, leases and heartbeats reach from new
  -- ones, by any number of processes, every history is numbered from 1 without a gap and the version
  -- of every run is the count of its events, whatever the columns make of documents and times,
  -- whatever rows others hold locked, and whether or not the driver refuses the leases.
  pub Stored-IsNumbered : {db : Db} → Stored database registry db → IsNumbered db
  unfolding lease_tasks
  Stored-IsNumbered initialized = no_rows-IsNumbered
  Stored-IsNumbered (started {db} {db'} uuid name run_id input metadata now run s e) =
      (start-IsNumbered database registry uuid name run_id input metadata now db
          (Stored-IsNumbered s)).holds
        (db', run) e
  Stored-IsNumbered (called {seen} {db} {db'} uuid call now s t e) =
      (call_once-IsNumbered database registry uuid call now seen db (Stored-IsNumbered s)
          (Stored-IsNumbered t)).holds
        db' e
  Stored-IsNumbered (leased {db} {db'} locked queue worker_id limit ttl now leases s e) =
      (lease_each-IsNumbered database worker_id ttl now
          (lease_candidates database locked queue (limit_or 1 limit) now db) (db, [])
          (Stored-IsNumbered s)).holds
        (db', leases) e
  Stored-IsNumbered (beaten {db} {db'} task_id worker_id extend_by now reply s e) =
      (heartbeat_task-Ensures database task_id worker_id extend_by now db
          (Stored-IsNumbered s)).holds
        (db', reply) e
