-- ===== src/Engine/Loaded.antt =====
-- A loaded run of internal/engine/service.go, the changes that an operation makes of it, and the steps
-- that every operation shares.
use go_project.Prelude.{
  ℕ, ◌+◌, String, Option, none, some, List, [], ◌∷◌, ◌++◌, if◌then◌else◌, ℤ, pos, Result, ok, err,
  unknown_task, ◌>>=◌, Assoc, lookup, length,
}
use go_project.History.Json.{absent, zero_time}
use go_project.History.Payloads.{Payload}
use go_project.History.Events.{Event}
use go_project.Workflow.Types.{Definition}
use go_project.Engine.Types.{
  terminal, TaskStatus, TaskPhase, RunRecord, TaskRecord, TaskMutation, update_task, TaskState,
  RunState,
}
use go_project.Engine.Tasks.{update_task_record}
use go_project.Engine.Progress.{emit, Work}

-- `loadedRun`.
pub record LoadedRun : Type 0 where
  pub run : RunRecord
  pub definition : Definition
  pub events : List Event
  pub state : RunState
  pub task_list : List TaskRecord
  pub tasks : Assoc TaskRecord
  pub events_version : ℕ

-- The arguments of `AppendRunChanges`.
pub record Changes : Type 0 where
  pub run : RunRecord
  pub expected_version : ℕ
  pub events : List Event
  pub mutations : List TaskMutation

-- The work of an operation before its first event.
unfoldable pub begin_work : LoadedRun → Work
begin_work l = record {
  run = l.run;
  definition = l.definition;
  log = record { state = l.state; seq = l.run.version + 1; events = [] };
  tasks = l.tasks;
  mutations = [];
}

-- The zero value, which a read of a missing key gives.
abbrev zero_task : TaskRecord
zero_task = record {
  id = "";
  run_id = "";
  workflow_name = "";
  step_id = "";
  kind = "";
  phase = TaskPhase.forward;
  activity_name = "";
  queue_name = "";
  status = TaskStatus.unset;
  attempt = pos 0;
  max_attempts = pos 0;
  available_at = zero_time;
  lease_owner = "";
  lease_expires_at = none;
  heartbeat_at = none;
  timeout = pos 0;
  input = absent;
  last_error = "";
  created_at = zero_time;
  updated_at = zero_time;
}

-- `loaded.tasks[id]`.
unfoldable pub row_of : Assoc TaskRecord → String → TaskRecord
row_of rows id = elim (lookup id rows) [ none ↦ zero_task | some row ↦ row ]

-- `updateTaskRecord(loaded.tasks[id], loaded.state.Tasks[id], now)`. The state has the task, since
-- an event of it has just been applied; the error stands for the nil pointer.
unfoldable pub task_update : String → ℤ → Work → Result TaskRecord
unfolding row_of
task_update id now w = elim (lookup id w.log.state.tasks) [
  | none ↦ err (unknown_task id)
  | some task ↦ ok (update_task_record (row_of w.tasks id) task now)
]

-- One event of a task, and the row that follows it.
unfoldable pub emit_for_task : TaskState → Payload → ℤ → Work → Result Work
emit_for_task current p now w = emit w.run.id current.step_id current.id p now w.log >>= λ log.
    let w' = record w { log = log } in
    task_update current.id now w' >>= λ row.
    ok (record w' { mutations = w.mutations ++ update_task row ∷ [] })

or_now : Option ℤ → ℤ → Option ℤ
or_now none now = some now
or_now (some t) now = some t

-- The run summary at the end of every operation: version, time stamps, end of the run.
unfoldable pub summary : LoadedRun → ℤ → Work → RunRecord
unfolding or_now
summary l now w =
    let run = w.log.state.run in
    record run {
      version = length l.events + length w.log.events;
      updated_at = now;
      completed_at = if terminal run.status then or_now run.completed_at now else run.completed_at;
    }

unfoldable pub to_changes : LoadedRun → ℤ → Work → Changes
to_changes l now w = record {
  run = summary l now w;
  expected_version = l.events_version;
  events = w.log.events;
  mutations = w.mutations;
}
