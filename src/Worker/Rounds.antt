-- ===== src/Worker/Rounds.antt =====
-- `loop` of internal/worker/worker.go and the calls of `execute` to the engine: the steps of a round,
-- between which other processes write.
use go_project.Prelude.{ℕ, String, List, ℤ, pos, Result}
use go_project.Workflow.Registry.{Registry}
use go_project.Engine.Types.{TaskRecord}
use go_project.Engine.Runtime.{complete_task_once, fail_task_once}
use go_project.Store.Sqlite.{HeartbeatReply, lease_tasks, heartbeat_task}
use go_project.Store.Tables.{Db}
use go_project.Worker.Config.{Config}
use go_project.Worker.Execute.{Failure, Report, completed, failed}

-- The lease of the next task.
unfoldable pub lease_next : Config → ℤ → Db → Result (Db × List TaskRecord)
lease_next c now db = lease_tasks c.queue c.worker_id (pos 1) c.lease.ttl now db

-- A heartbeat of the task.
unfoldable pub beat : Config → String → ℤ → Db → Result (Db × HeartbeatReply)
beat c task_id now db = heartbeat_task task_id c.worker_id c.lease.ttl now db

module _ {Handler : Type 0} (registry : Registry Handler) (message : Failure → String) where
  -- The report of `execute`, as one attempt of the engine that loads from `seen` and writes to `db`.
  -- The texts of the errors are a parameter.
  unfoldable pub report_task : (ℕ → String) → Config → String → Report → ℤ → Db → Db → Result Db
  report_task uuid c task_id (completed output) now seen db =
      complete_task_once registry uuid c.worker_id task_id output now seen db
  report_task uuid c task_id (failed f again) now seen db =
      fail_task_once registry uuid c.worker_id task_id (message f) again now seen db
