-- ===== src/Engine/Tasks.antt =====
-- The task and event builders of internal/engine/service.go. `uuid n` is the string that the
-- generator returns for the task whose `task.scheduled` event has sequence `n`, and `now` what the
-- clock returned at the start of the operation.
use go_project.Prelude.{
  ℕ, ◌/◌, suc, zero, String, Bool, ◌&&◌, none, some, List, [], ◌∷◌, ◌==◌, if◌then◌else◌, ℤ, pos,
  negsuc, ◌+ℤ◌, leb_ℤ, Result, ok, ◌>>=◌, Assoc, lookup, insert,
}
use go_project.History.Json.{
  end, member, text, number, flag, obj, Raw, absent, value, marshal_raw, texts_if_set, raws_if_set,
}
use go_project.History.Payloads.{Payload, scheduled}
use go_project.History.Events.{Event, new}
use go_project.Workflow.Types.{Step, step_kind_activity}
use go_project.Workflow.Retry.{normalize}
use go_project.Engine.Types.{
  TaskStatus, TaskPhase, is_leased, is_compensation, task_kind_activity, task_kind_timer, RunRecord,
  TaskRecord, TaskState, RunState,
}
use go_project.Engine.Effects.{null_json}

abbrev pub timer_queue_name : String
timer_queue_name = "__orchid_timers__"

-- `makeEvent`; the caller counts the sequence up.
unfoldable pub make_event : String → ℕ → String → String → Payload → ℤ → Result Event
make_event run_id seq step_id task_id p now =
    new run_id step_id task_id p now >>= λ e. ok (record e { sequence = seq })

unfoldable pub normalize_json : Raw → Raw
normalize_json absent = null_json
normalize_json r = r

-- The outputs that are present, of the dependencies.
unfoldable pub dependency_outputs : List String → Assoc Raw → Assoc Raw → Assoc Raw
dependency_outputs [] outputs acc = acc
dependency_outputs (dep ∷ deps) outputs acc =
    dependency_outputs deps outputs
      (elim (lookup dep outputs) [ none ↦ acc | some out ↦ insert dep out acc ])

unfoldable pub task_dependencies : RunState → Step → Bool → Assoc Raw
task_dependencies s step compensation =
    let deps = dependency_outputs step.dependencies s.outputs [] in
    if compensation
    then (elim (lookup step.id s.outputs) [ none ↦ deps | some out ↦ insert step.id out deps ])
    else deps

-- `buildTaskInput`: the marshalled `ActivityInput`, and the dependencies.
unfoldable pub build_task_input : RunRecord → RunState → Step → Bool → ℤ → Result (Raw × Assoc Raw)
build_task_input run s step compensation attempt =
    let deps = task_dependencies s step compensation in
    do
      run_input ← marshal_raw (normalize_json run.input)
      rest ← raws_if_set "dependencies" deps (texts_if_set "metadata" step.metadata end)
      ok (
        value (
            obj (
              member "run_id" (text run.id) (
                member "workflow" (text run.workflow_name) (
                  member "step_id" (text step.id) (
                    member "attempt" (number attempt) (
                      member "compensation" (flag compensation)
                        (member "run_input" run_input rest))))))),
        deps,
      )

-- `int(d.Seconds())`, which rounds towards zero.
unfoldable pub whole_seconds : ℤ → ℤ
whole_seconds (pos n) = pos (n / 1_000_000_000)
whole_seconds (negsuc n) = elim (suc n / 1_000_000_000) [ zero ↦ pos 0 | suc s ↦ negsuc s ]

-- The task row that `newTask` fills in, given its input.
unfoldable pub task_row : (ℕ → String) → RunRecord → Step → TaskPhase → ℤ → ℤ → ℕ → Raw → TaskRecord
task_row uuid run step phase attempt now seq input =
    let is_timer = step.kind == task_kind_timer in
    record {
      id = uuid seq;
      run_id = run.id;
      workflow_name = run.workflow_name;
      step_id = step.id;
      kind = step.kind;
      phase = phase;
      activity_name = if is_timer then "" else step.activity;
      queue_name = if is_timer then timer_queue_name else step.queue;
      status = TaskStatus.available;
      attempt = attempt;
      max_attempts = if is_timer then pos 1 else (normalize step.retry).max_attempts;
      available_at = if is_timer then now +ℤ step.delay else now;
      lease_owner = "";
      lease_expires_at = none;
      heartbeat_at = none;
      timeout =
          if leb_ℤ step.timeout (pos 0) && step.kind == task_kind_activity
          then pos 15_000_000_000
          else step.timeout;
      input = input;
      last_error = "";
      created_at = now;
      updated_at = now;
    }

-- The payload that announces a task.
unfoldable pub scheduled_payload : TaskRecord → Assoc Raw → Payload
scheduled_payload task deps = scheduled (record {
  task_id = task.id;
  step_id = task.step_id;
  kind = task.kind;
  queue = task.queue_name;
  activity = task.activity_name;
  attempt = task.attempt;
  max_attempts = task.max_attempts;
  timeout_seconds = whole_seconds task.timeout;
  available_at = task.available_at;
  input = task.input;
  dependencies = deps;
  compensation = is_compensation task.phase;
})

unfoldable pub new_task :
    (ℕ → String) → RunRecord → RunState → Step → TaskPhase → ℤ → ℤ → ℕ → Result (TaskRecord × Event)
unfolding task_row scheduled_payload
new_task uuid run s step phase attempt now seq =
    build_task_input run s step (is_compensation phase) attempt >>= λ built.
    let task = task_row uuid run step phase attempt now seq built.0 in
    make_event run.id seq step.id task.id (scheduled_payload task built.1) now >>= λ event.
    ok (task, event)

-- The step as `newCompensationTask` rewrites it.
unfoldable pub compensation_step : Step → Step
compensation_step step = record step {
  kind = step_kind_activity;
  activity = step.compensation;
  queue = if step.compensation_queue == "" then step.queue else step.compensation_queue;
}

unfoldable pub new_compensation_task :
    (ℕ → String) → RunRecord → RunState → Step → ℤ → ℕ → Result (TaskRecord × Event)
unfolding compensation_step
new_compensation_task uuid run s step now seq =
    new_task uuid run s (compensation_step step) TaskPhase.compensation (pos 1) now seq

unfoldable pub update_task_record : TaskRecord → TaskState → ℤ → TaskRecord
update_task_record task s now =
    let held = is_leased s.status in
    record task {
      status = s.status;
      attempt = s.attempt;
      available_at = s.available_at;
      lease_owner = if held then s.lease_owner else "";
      lease_expires_at = if held then s.lease_expires_at else none;
      heartbeat_at = s.heartbeat_at;
      last_error = s.error;
      updated_at = now;
    }
