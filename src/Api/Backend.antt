-- ===== src/Api/Backend.antt =====
-- The handlers of internal/api/server.go over the engine of internal/engine/service.go and the SQLite
-- tables, where nothing else writes while a request is served.
use go_project.Prelude.{ℕ, String, ◌≡◌, ap, ◌∙◌, ok, ℤ, true}
use go_project.History.Json.{Raw}
use go_project.Workflow.Registry.{Registry, workflows}
use go_project.Engine.Loaded.{LoadedRun}
use go_project.Engine.Runtime.{start, cancel_run_once, complete_task_once, load_task_run}
use go_project.Engine.Runtime.Reports.{ReplayReport, view_run, replay_run}
use go_project.Engine.Runtime.Reports.Matching.{Faithful, complete_task_once-replay_run}
use go_project.Store.Sqlite.{list_runs, get_history}
use go_project.Store.Sqlite.Sequence.{IsNumbered}
use go_project.Store.Tables.{Db}
use go_project.Api.Server.{Service, report, reply, handle, answer}
use go_project.Api.Client.{replay_request}
use go_project.Api.Client.Segments.{is_id}
use go_project.Api.Client.Reached.{client-Reaches}

module _ {Handler : Type 0} (registry : Registry Handler) where
  -- The engine at the time `now`, where the next run gets the id `run_id`.
  unfoldable pub engine_service : (ℕ → String) → String → ℤ → Service Db
  engine_service uuid run_id now = record {
    workflows = workflows registry;
    list_runs = λ limit db. ok (list_runs limit db);
    start_run = λ name input metadata db. start registry uuid name run_id input metadata now db;
    get_run = view_run;
    get_history = λ id db. ok (get_history id db);
    cancel_run = λ id reason db. cancel_run_once registry uuid id reason now db db;
    replay_run = replay_run registry;
  }

  -- After a successful `completeTaskOnce` on numbered tables that nothing else writes to meanwhile,
  -- the client's replay of that run is answered with 200 and a report that the summaries match, with
  -- the stored run and a history as long as its version, if its id is of
  -- letters, digits, dashes and underscores.
  pub replay_request-answered :
      (uuid : ℕ → String) (worker_id task_id : String) (output : Raw) (now later : ℤ)
      (run_id : String) (db : Db) {l : LoadedRun} {db' : Db}
      → IsNumbered db
      → load_task_run registry task_id db ≡ ok l
      → complete_task_once registry uuid worker_id task_id output now db db ≡ ok db'
      → is_id l.run.id ≡ true
      → (found : ReplayReport) × (handle
            (engine_service uuid run_id later)
            (replay_request l.run.id)
            db'
          ≡ (db', reply 200 (report found)))
        × Faithful l.run.id db' found
  unfolding engine_service answer
  replay_request-answered uuid worker_id task_id output now later run_id db {l} {db'} n loaded e
        plain =
      let (found, r, f) =
        complete_task_once-replay_run registry uuid worker_id task_id output now db {l = l} n loaded
          e in
      let reached = client-Reaches (engine_service uuid run_id later) l.run.id "" db' plain in
      (
        found,
        reached.replayed ∙ ap (λ m. (db', answer (engine_service uuid run_id later) report m)) r,
        f,
      )
