-- ===== src/Store/Postgres/Service.antt =====
-- The operations of internal/engine/service.go on the tables of internal/store/postgres/store.go.
use go_project.Prelude.{
  ℕ, String, Bool, Option, none, some, [], ◌∷◌, ◌++◌, if◌then◌else◌, ℤ, Result, ok, ◌>>=◌, Assoc,
  insert, has_key,
}
use go_project.History.Json.{Raw}
use go_project.Workflow.Registry.{Registry, definition}
use go_project.Engine.Types.{RunRecord}
use go_project.Engine.Reducer.{replay}
use go_project.Engine.Service.{complete_task, fail_task, cancel_run, fire_timer, start_run}
use go_project.Engine.Loaded.{LoadedRun, Changes}
use go_project.Engine.Runtime.{definition_of, tasks_by_id}
use go_project.Store.Tables.{Db}
use go_project.Store.Sqlite.{get_run, get_history, get_task}
use go_project.Store.Postgres.Columns.{Database}
use go_project.Store.Postgres.Writes.{create_run, append_run_changes}
use go_project.Store.Postgres.Tasks.{list_tasks}

-- The operations that load a run and then write its changes.
pub data Call : Type 0 where
  complete : (worker_id task_id : String) → Raw → Call
  fail : (worker_id task_id message : String) → Bool → Call
  cancel : (run_id reason : String) → Call
  fire : (task_id : String) → Call

module _ (database : Database) {Handler : Type 0} (registry : Registry Handler) where
  -- `loadRun`.
  unfoldable pub load_run : String → Db → Result LoadedRun
  load_run run_id seen = get_run run_id seen >>= λ run.
      definition_of (definition run.workflow_name registry) >>= λ d.
      replay d run (get_history run_id seen) >>= λ s. ok (record {
        run = run;
        definition = d;
        events = get_history run_id seen;
        state = s;
        task_list = list_tasks run_id seen;
        tasks = tasks_by_id (list_tasks run_id seen) [];
        events_version = run.version;
      })

  -- `loadTaskRun`.
  unfoldable pub load_task_run : String → Db → Result LoadedRun
  load_task_run task_id seen = get_task task_id seen >>= λ task. load_run task.run_id seen >>= λ l.
      ok (
        if has_key task_id l.tasks
        then l
        else record l { tasks = insert task_id task l.tasks; task_list = l.task_list ++ task ∷ [] })

  unfoldable pub load : Call → Db → Result LoadedRun
  load (complete worker_id task_id output) seen = load_task_run task_id seen
  load (fail worker_id task_id message retryable) seen = load_task_run task_id seen
  load (cancel run_id reason) seen = load_run run_id seen
  load (fire task_id) seen = load_task_run task_id seen

  -- What the operation asks the repository to append, if anything.
  unfoldable pub changes : (ℕ → String) → Call → ℤ → LoadedRun → Result (Option Changes)
  changes uuid (complete worker_id task_id output) now l =
      complete_task uuid l worker_id task_id output now >>= λ c. ok (some c)
  changes uuid (fail worker_id task_id message retryable) now l =
      fail_task uuid l worker_id task_id message retryable now >>= λ c. ok (some c)
  changes uuid (cancel run_id reason) now l = cancel_run uuid l reason now
  changes uuid (fire task_id) now l = fire_timer uuid l task_id now

  unfoldable pub commit : Db → Option Changes → Result Db
  commit db none = ok db
  commit db (some c) = append_run_changes database c.run c.expected_version c.events c.mutations db

  -- One attempt of the operation, which loads from the tables `seen` and writes to `db`.
  unfoldable pub call_once : (ℕ → String) → Call → ℤ → Db → Db → Result Db
  call_once uuid call now seen db =
      load call seen >>= λ l. changes uuid call now l >>= λ c. commit db c

  -- `StartRun`.
  unfoldable pub start :
      (ℕ → String) → String → String → Raw → Assoc String → ℤ → Db → Result (Db × RunRecord)
  start uuid workflow_name run_id input metadata now db =
      definition_of (definition workflow_name registry) >>= λ d.
      start_run uuid d run_id input metadata now >>= λ new.
      create_run database new.run new.events new.tasks db >>= λ db'. ok (db', new.run)
