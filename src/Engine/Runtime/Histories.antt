-- ===== src/Engine/Runtime/Histories.antt =====
-- The tables under any sequence of the writes of internal/engine/service.go and of its repository,
-- by any number of processes.
use go_project.Prelude.{
  ℕ, String, Bool, ◌≡◌, refl, ok, ℤ, List, [], Assoc, lookup, arith, Ensures, Ensures-bind,
  Ensures-bind-eq, Ensures-ok, select,
}
use go_project.History.Json.{Raw}
use go_project.Engine.Types.{RunRecord, TaskRecord}
use go_project.Engine.Service.{start_run}
use go_project.Engine.Service.Starting.{start_run-IsFresh}
use go_project.Engine.Runtime.{
  definition_of, start, complete_task_once, fail_task_once, cancel_run_once, fire_timer_once,
}
use go_project.Engine.Runtime.Numbering.{
  complete_task_once-IsNumbered, fail_task_once-IsNumbered, cancel_run_once-IsNumbered,
  fire_timer_once-IsNumbered,
}
use go_project.Workflow.Registry.{Registry, definition}
use go_project.Store.Sqlite.{create_run, events_of, lease_tasks, HeartbeatReply, heartbeat_task}
use go_project.Store.Tables.{Db}
use go_project.Store.Sqlite.Sequence.{IsNumbered}
use go_project.Store.Sqlite.Numbering.{create_run-Ensures}
use go_project.Store.Sqlite.Leases.{lease_tasks-IsNumbered, heartbeat_task-IsNumbered}

-- The tables as `Initialize` makes them.
abbrev pub empty_tables : Db
empty_tables = record { runs = []; events = []; tasks = [] }

pub empty_tables-IsNumbered : IsNumbered empty_tables
unfolding lookup events_of select
empty_tables-IsNumbered = record {
  keys = λ id run found. ground arith;
  versions = λ id run found. ground arith;
  sequences = λ id. tt;
  orphans = λ id missing. refl;
}

-- The tables that successful writes lead to. An operation that loads a run first has loaded it from
-- tables `seen` that were reached as well, at any time.
pub data Reachable {Handler : Type 0} (registry : Registry Handler) : Db → Type 0 where
  initialized : Reachable registry empty_tables
  started :
      {db db' : Db} (uuid : ℕ → String) (workflow_name run_id : String) (input : Raw)
      (metadata : Assoc String) (now : ℤ) (run : RunRecord)
      → Reachable registry db
      → start registry uuid workflow_name run_id input metadata now db ≡ ok (db', run)
      → Reachable registry db'
  leased :
      {db db' : Db} (queue worker_id : String) (limit ttl now : ℤ) (leases : List TaskRecord)
      → Reachable registry db
      → lease_tasks queue worker_id limit ttl now db ≡ ok (db', leases)
      → Reachable registry db'
  beaten :
      {db db' : Db} (task_id worker_id : String) (extend_by now : ℤ) (reply : HeartbeatReply)
      → Reachable registry db
      → heartbeat_task task_id worker_id extend_by now db ≡ ok (db', reply)
      → Reachable registry db'
  completed :
      {seen db db' : Db} (uuid : ℕ → String) (worker_id task_id : String) (output : Raw) (now : ℤ)
      → Reachable registry seen
      → Reachable registry db
      → complete_task_once registry uuid worker_id task_id output now seen db ≡ ok db'
      → Reachable registry db'
  failed :
      {seen db db' : Db} (uuid : ℕ → String) (worker_id task_id message : String) (retryable : Bool)
      (now : ℤ)
      → Reachable registry seen
      → Reachable registry db
      → fail_task_once registry uuid worker_id task_id message retryable now seen db ≡ ok db'
      → Reachable registry db'
  cancelled :
      {seen db db' : Db} (uuid : ℕ → String) (run_id reason : String) (now : ℤ)
      → Reachable registry seen
      → Reachable registry db
      → cancel_run_once registry uuid run_id reason now seen db ≡ ok db'
      → Reachable registry db'
  fired :
      {seen db db' : Db} (uuid : ℕ → String) (task_id : String) (now : ℤ)
      → Reachable registry seen
      → Reachable registry db
      → fire_timer_once registry uuid task_id now seen db ≡ ok db'
      → Reachable registry db'

module _ {Handler : Type 0} (registry : Registry Handler) where
  start-IsNumbered :
      (uuid : ℕ → String) (workflow_name run_id : String) (input : Raw) (metadata : Assoc String)
      (now : ℤ) (db : Db)
      → IsNumbered db
      → Ensures
          (λ (made : Db × RunRecord). IsNumbered made.0)
          (start registry uuid workflow_name run_id input metadata now db)
  unfolding start
  start-IsNumbered uuid workflow_name run_id input metadata now db h =
      Ensures-bind-eq (definition_of (definition workflow_name registry)) λ d _.
        Ensures-bind (start_run uuid d run_id input metadata now)
          (start_run-IsFresh uuid d run_id input metadata now)
          λ new _ x.
            Ensures-bind (create_run new.run new.events new.tasks db)
              (create_run-Ensures new.run new.events new.tasks db h x.owned x.numbered x.version)
              λ db' _ h'. Ensures-ok h'

  -- In all tables that the service can reach, every run stands under its own id, its events are
  -- numbered from 1 without a gap, and its version is their count, whatever the processes and the
  -- order of their writes.
  pub Reachable-IsNumbered : {db : Db} → Reachable registry db → IsNumbered db
  Reachable-IsNumbered initialized = empty_tables-IsNumbered
  Reachable-IsNumbered (started {db} {db'} uuid name run_id input metadata now run r e) =
      (start-IsNumbered uuid name run_id input metadata now db (Reachable-IsNumbered r)).holds
        (db', run) e
  Reachable-IsNumbered (leased {db} queue worker_id limit ttl now leases r e) =
      lease_tasks-IsNumbered queue worker_id limit ttl now db (Reachable-IsNumbered r) e
  Reachable-IsNumbered (beaten {db} task_id worker_id extend_by now reply r e) =
      heartbeat_task-IsNumbered task_id worker_id extend_by now db (Reachable-IsNumbered r) e
  Reachable-IsNumbered (completed {seen} {db} uuid worker_id task_id output now s r e) =
      complete_task_once-IsNumbered registry uuid worker_id task_id output now seen db
        (Reachable-IsNumbered s) (Reachable-IsNumbered r) e
  Reachable-IsNumbered (failed {seen} {db} uuid worker_id task_id message retryable now s r e) =
      fail_task_once-IsNumbered registry uuid worker_id task_id message retryable now seen db
        (Reachable-IsNumbered s) (Reachable-IsNumbered r) e
  Reachable-IsNumbered (cancelled {seen} {db} uuid run_id reason now s r e) =
      cancel_run_once-IsNumbered registry uuid run_id reason now seen db (Reachable-IsNumbered s)
        (Reachable-IsNumbered r) e
  Reachable-IsNumbered (fired {seen} {db} uuid task_id now s r e) =
      fire_timer_once-IsNumbered registry uuid task_id now seen db (Reachable-IsNumbered s)
        (Reachable-IsNumbered r) e
