-- ===== src/Engine/Effects.antt =====
-- What each event type does to the run state: the cases of `applyEvent` in
-- internal/engine/reducer.go that touch steps and tasks, or start or unwind the run.
use go_project.Prelude.{
  String, true, none, some, List, [], ◌∷◌, ◌++◌, if◌then◌else◌, Result, ok, err, unknown_step,
  unknown_task, lookup, insert, contains,
}
use go_project.History.Json.{Json, Raw, absent, value}
use go_project.History.Payloads.{
  WorkflowStartedPayload, TaskScheduledPayload, TaskLeasedPayload, TaskHeartbeatPayload,
  TaskCompletedPayload, TaskFailedPayload, TaskRetryScheduledPayload, TaskLeaseExpiredPayload,
  TaskCancelledPayload, TimerFiredPayload, RunCompensatingPayload,
}
use go_project.History.Events.{Event}
use go_project.Engine.Types.{
  RunStatus, TaskStatus, TaskPhase, is_forward, StepState, TaskState, RunState,
}

abbrev pub null_json : Raw
null_json = value Json.null

abbrev pub set_task : String → TaskState → RunState → RunState
set_task id task s = record s { tasks = insert id task s.tasks }

abbrev pub set_step : String → StepState → RunState → RunState
set_step id step s = record s { steps = insert id step s.steps }

-- `if !slices.Contains(order, id) { order = append(order, id) }`
abbrev pub append_new : List String → String → List String
append_new order id = if contains order id then order else order ++ id ∷ []

-- `state.Outputs[id] = output`, and the step joins the completed order once.
abbrev pub record_output : String → Raw → RunState → RunState
record_output id output s = record s {
  outputs = insert id output s.outputs;
  completed_order = append_new s.completed_order id;
}

unfoldable pub apply_started : WorkflowStartedPayload → RunState → RunState
apply_started p s = record s {
  run = record s.run {
    workflow_name = p.workflow;
    input = p.input;
    metadata = p.metadata;
    status = RunStatus.running;
  };
  metadata = p.metadata;
}

unfoldable pub apply_scheduled : TaskScheduledPayload → RunState → Result RunState
apply_scheduled p s =
    let task : TaskState = record {
      id = p.task_id;
      step_id = p.step_id;
      kind = p.kind;
      phase = if p.compensation then TaskPhase.compensation else TaskPhase.forward;
      status = TaskStatus.available;
      attempt = p.attempt;
      available_at = p.available_at;
      lease_owner = "";
      lease_expires_at = none;
      heartbeat_at = none;
      output = absent;
      error = "";
    } in
    elim (lookup p.step_id s.steps) [
      | none ↦ err (unknown_step p.step_id)
      | some step ↦ ok (
          set_step p.step_id
            (if p.compensation
              then record step { compensation_scheduled = true; compensation_task_id = p.task_id }
              else record step {
                forward_status = TaskStatus.available;
                forward_task_id = p.task_id;
                forward_attempt = p.attempt;
              })
            (set_task p.task_id task s))
    ]

-- A change of the step's forward status that a missing step or another phase skips.
abbrev pub touch_forward : TaskPhase → String → (StepState → StepState) → RunState → RunState
touch_forward phase id f s = elim (lookup id s.steps) [
  | none ↦ s
  | some step ↦ if is_forward phase then set_step id (f step) s else s
]

unfoldable pub apply_leased : TaskLeasedPayload → RunState → Result RunState
apply_leased p s = elim (lookup p.task_id s.tasks) [
  | none ↦ err (unknown_task p.task_id)
  | some task ↦ ok (
      touch_forward task.phase p.step_id
        (λ step. record step { forward_status = TaskStatus.leased })
        (set_task p.task_id
          (record task {
            status = TaskStatus.leased;
            lease_owner = p.worker_id;
            lease_expires_at = some p.lease_expires_at;
          })
          s))
]

-- The task is the one of the event, not of the payload.
unfoldable pub apply_heartbeat : Event → TaskHeartbeatPayload → RunState → Result RunState
apply_heartbeat e p s = elim (lookup e.task_id s.tasks) [
  | none ↦ err (unknown_task e.task_id)
  | some task ↦ ok (
      set_task e.task_id
        (record task {
          lease_owner = p.worker_id;
          lease_expires_at = some p.lease_expires_at;
          heartbeat_at = some e.created_at;
        })
        s)
]

unfoldable pub apply_completed : TaskCompletedPayload → RunState → Result RunState
apply_completed p s = elim (lookup p.task_id s.tasks) [
  | none ↦ err (unknown_task p.task_id)
  | some task ↦ elim (lookup p.step_id s.steps) [
    | none ↦ err (unknown_step p.step_id)
    | some step ↦
        let s' =
          set_task p.task_id
            (record task {
              status = TaskStatus.completed;
              output = p.output;
              lease_owner = p.worker_id;
              lease_expires_at = none;
            })
            s in
        ok (
          if p.compensation
          then set_step p.step_id
              (record step { compensation_completed = true; compensation_output = p.output }) s'
          else record_output p.step_id p.output (
              set_step p.step_id
                (record step { forward_status = TaskStatus.completed; forward_output = p.output })
                s'))
  ]
]

unfoldable pub apply_failed : TaskFailedPayload → RunState → Result RunState
apply_failed p s = elim (lookup p.task_id s.tasks) [
  | none ↦ err (unknown_task p.task_id)
  | some task ↦ elim (lookup p.step_id s.steps) [
    | none ↦ err (unknown_step p.step_id)
    | some step ↦ ok (
        set_step p.step_id
          (if p.compensation
            then record step { compensation_failed = true; compensation_error = p.error }
            else record step { forward_status = TaskStatus.failed; forward_error = p.error })
          (set_task p.task_id
            (record task {
              status = TaskStatus.failed;
              error = p.error;
              lease_owner = p.worker_id;
              lease_expires_at = none;
            })
            s))
  ]
]

unfoldable pub apply_retry_scheduled : TaskRetryScheduledPayload → RunState → Result RunState
apply_retry_scheduled p s = elim (lookup p.task_id s.tasks) [
  | none ↦ err (unknown_task p.task_id)
  | some task ↦ ok (
      touch_forward task.phase p.step_id
        (λ step. record step {
          forward_status = TaskStatus.available;
          forward_attempt = p.attempt;
          forward_error = p.error;
        })
        (set_task p.task_id
          (record task {
            status = TaskStatus.available;
            attempt = p.attempt;
            available_at = p.available_at;
            error = p.error;
            lease_owner = "";
            lease_expires_at = none;
          })
          s))
]

unfoldable pub apply_lease_expired : TaskLeaseExpiredPayload → RunState → Result RunState
apply_lease_expired p s = elim (lookup p.task_id s.tasks) [
  | none ↦ err (unknown_task p.task_id)
  | some task ↦ ok (
      set_task p.task_id
        (record task {
          status = TaskStatus.failed;
          error = p.error;
          lease_owner = "";
          lease_expires_at = none;
        })
        s)
]

unfoldable pub apply_cancelled : TaskCancelledPayload → RunState → Result RunState
apply_cancelled p s = elim (lookup p.task_id s.tasks) [
  | none ↦ err (unknown_task p.task_id)
  | some task ↦ ok (
      touch_forward (if p.compensation then TaskPhase.compensation else TaskPhase.forward) p.step_id
        (λ step. record step { forward_status = TaskStatus.cancelled; forward_error = p.reason })
        (set_task p.task_id
          (record task {
            status = TaskStatus.cancelled;
            error = p.reason;
            lease_owner = "";
            lease_expires_at = none;
          })
          s))
]

unfoldable pub apply_timer_fired : TimerFiredPayload → RunState → Result RunState
apply_timer_fired p s = elim (lookup p.task_id s.tasks) [
  | none ↦ err (unknown_task p.task_id)
  | some task ↦ elim (lookup p.step_id s.steps) [
    | none ↦ err (unknown_step p.step_id)
    | some step ↦ ok (
        record_output p.step_id null_json (
          set_step p.step_id
            (record step { forward_status = TaskStatus.completed; forward_output = null_json })
            (set_task p.task_id (record task { status = TaskStatus.completed; output = null_json })
              s)))
  ]
]

unfoldable pub apply_compensating : RunCompensatingPayload → RunState → RunState
apply_compensating p s = record s {
  compensating = true;
  run =
      if s.cancel_requested
      then record s.run { status = RunStatus.compensating; cancel_reason = p.reason }
      else record s.run { status = RunStatus.compensating; failure = p.reason };
}
