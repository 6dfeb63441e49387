-- ===== src/Engine/Runtime.antt =====
-- The methods of `Service` in internal/engine/service.go on the tables of a repository. An
-- operation reads the tables as they are when it begins (`seen`) and writes to the tables as they
-- are when its transaction runs (`db`): between the two, other processes may have written.
pub mod Loading
pub mod Numbering
pub mod Retry
pub mod Stored
pub mod Histories
pub mod Reports
pub mod Sweeping
use go_project.Prelude.{
  ℕ, String, Bool, false, Option, none, some, List, [], ◌∷◌, ◌++◌, if◌then◌else◌, ℤ, leb_ℤ, Result,
  ok, err, workflow_not_found, ◌>>=◌, Assoc, insert, has_key, lookup, true, ◌&&◌,
}
use go_project.History.Json.{Raw}
use go_project.Workflow.Types.{Definition}
use go_project.Workflow.Registry.{Registry, definition}
use go_project.Engine.Types.{is_leased, RunRecord, TaskRecord, TaskState}
use go_project.Engine.Reducer.{replay}
use go_project.Engine.Service.{complete_task, fail_task, cancel_run, fire_timer, start_run}
use go_project.Engine.Loaded.{LoadedRun, Changes}
use go_project.Store.Sqlite.{
  create_run, append_run_changes, get_run, get_history, list_tasks, get_task, available_timers,
  expired_leases,
}
use go_project.Store.Tables.{Db}

pub tasks_by_id : List TaskRecord → Assoc TaskRecord → Assoc TaskRecord
tasks_by_id [] acc = acc
tasks_by_id (task ∷ tasks) acc = tasks_by_id tasks (insert task.id task acc)

unfoldable pub definition_of : Option Definition → Result Definition
definition_of none = err workflow_not_found
definition_of (some d) = ok d

abbrev pub expired : Option ℤ → ℤ → Bool
expired none now = false
expired (some t) now = leb_ℤ t now

-- `AppendRunChanges` with what an operation made.
unfoldable pub commit : Db → Changes → Result Db
commit db c = append_run_changes c.run c.expected_version c.events c.mutations db

unfoldable pub commit_any : Db → Option Changes → Result Db
unfolding commit
commit_any db none = ok db
commit_any db (some c) = commit db c

module _ {Handler : Type 0} (registry : Registry Handler) where
  -- `loadRun`.
  unfoldable pub load_run : String → Db → Result LoadedRun
  unfolding definition_of tasks_by_id
  load_run run_id seen = get_run run_id seen >>= λ run.
      definition_of (definition run.workflow_name registry) >>= λ d.
      replay d run (get_history run_id seen) >>= λ s. ok (record {
        run = run;
        definition = d;
        events = get_history run_id seen;
        state = s;
        task_list = list_tasks run_id seen;
        tasks = tasks_by_id (list_tasks run_id seen) [];
        events_version = run.version;
      })

  -- `loadTaskRun`.
  unfoldable pub load_task_run : String → Db → Result LoadedRun
  load_task_run task_id seen = get_task task_id seen >>= λ task. load_run task.run_id seen >>= λ l.
      ok (
        if has_key task_id l.tasks
        then l
        else record l { tasks = insert task_id task l.tasks; task_list = l.task_list ++ task ∷ [] })

  -- `StartRun`, whose second result is the run that it returns.
  unfoldable pub start :
      (ℕ → String) → String → String → Raw → Assoc String → ℤ → Db → Result (Db × RunRecord)
  unfolding definition_of
  start uuid workflow_name run_id input metadata now db =
      definition_of (definition workflow_name registry) >>= λ d.
      start_run uuid d run_id input metadata now >>= λ new.
      create_run new.run new.events new.tasks db >>= λ db'. ok (db', new.run)

  unfoldable pub complete_task_once : (ℕ → String) → String → String → Raw → ℤ → Db → Db → Result Db
  complete_task_once uuid worker_id task_id output now seen db = load_task_run task_id seen >>= λ l.
      complete_task uuid l worker_id task_id output now >>= λ c. commit db c

  unfoldable pub fail_task_once :
      (ℕ → String) → String → String → String → Bool → ℤ → Db → Db → Result Db
  fail_task_once uuid worker_id task_id message retryable now seen db =
      load_task_run task_id seen >>= λ l.
      fail_task uuid l worker_id task_id message retryable now >>= λ c. commit db c

  unfoldable pub cancel_run_once : (ℕ → String) → String → String → ℤ → Db → Db → Result Db
  cancel_run_once uuid run_id reason now seen db =
      load_run run_id seen >>= λ l. cancel_run uuid l reason now >>= λ c. commit_any db c

  unfoldable pub fire_timer_once : (ℕ → String) → String → ℤ → Db → Db → Result Db
  fire_timer_once uuid task_id now seen db =
      load_task_run task_id seen >>= λ l. fire_timer uuid l task_id now >>= λ c. commit_any db c

  -- The guard of `RecoverExpiredLease`, with the owner of the lease.
  pub expired_owner : Option TaskState → ℤ → Option String
  expired_owner none now = none
  expired_owner (some task) now =
      if is_leased task.status && expired task.lease_expires_at now
      then some task.lease_owner
      else none

  -- `RecoverExpiredLease`, with one attempt of the `FailTask` at its end, which loads the run again
  -- from tables `again`, after the guard has looked at the tables `seen`.
  unfoldable pub recover_expired_lease : (ℕ → String) → String → ℤ → Db → Db → Db → Result Db
  unfolding expired_owner
  recover_expired_lease uuid task_id now seen again db = load_task_run task_id seen >>= λ l.
      elim (expired_owner (lookup task_id l.state.tasks) now) [
        | none ↦ ok db
        | some owner ↦ fail_task_once uuid owner task_id "lease expired" true now again db
      ]

-- An error of one task is logged, and the sweep goes on.
unfoldable pub or_logged : Db → Result Db → Db
or_logged db (ok db') = db'
or_logged db (err e) = db

unfoldable pub each_task : (String → Db → Result Db) → List TaskRecord → Db → Db
unfolding or_logged
each_task f [] db = db
each_task f (task ∷ tasks) db = each_task f tasks (or_logged db (f task.id db))

module _ {Handler : Type 0} (registry : Registry Handler) where
  -- `Sweep`, where nothing else writes while it runs.
  unfoldable pub sweep : (ℕ → String) → ℤ → ℤ → ℤ → Db → Db
  unfolding each_task
  sweep uuid timer_limit lease_limit now db =
      let fired =
        each_task (λ id d. fire_timer_once registry uuid id now d d)
          (available_timers timer_limit now db) db in
      each_task (λ id d. recover_expired_lease registry uuid id now d d d)
        (expired_leases lease_limit now fired) fired
