-- ===== src/Engine/Reducer.antt =====
-- internal/engine/reducer.go: the run state that a history of events derives.
pub mod Fold
pub mod RunFields
pub mod Marks
pub mod Resume
pub mod Order
pub mod Definitions
use go_project.Engine.Effects.{
  null_json, set_task, set_step, append_new, record_output, apply_started, apply_scheduled,
  touch_forward, apply_leased, apply_heartbeat, apply_completed, apply_failed,
  apply_retry_scheduled, apply_lease_expired, apply_cancelled, apply_timer_fired,
  apply_compensating,
}
use go_project.Prelude.{
  String, Bool, true, false, pos, none, some, List, [], ◌∷◌, ◌++◌, ◌==◌, if◌then◌else◌, Result, ok,
  err, unknown_step, unknown_task, ◌>>=◌, Assoc, lookup, insert, contains,
}
use go_project.History.Json.{Json, Raw, absent, value}
use go_project.History.Payloads.{
  WorkflowStartedPayload, TaskScheduledPayload, TaskLeasedPayload, TaskHeartbeatPayload,
  TaskCompletedPayload, TaskFailedPayload, TaskRetryScheduledPayload, TaskLeaseExpiredPayload,
  TaskCancelledPayload, TimerFiredPayload, RunCompensatingPayload, Payload, started, scheduled,
  leased, heartbeat, completed, failed, retry_scheduled, lease_expired, cancelled, timer,
  cancel_requested, compensating, finished, run_failure, run_cancel,
}
use go_project.History.Codec.{decode}
use go_project.History.Events.{Event}
use go_project.Workflow.Types.{Step, Definition, step_of}
use go_project.Engine.Types.{
  RunStatus, TaskStatus, TaskPhase, is_forward, RunRecord, StepState, TaskState, RunState,
}

-- The cases of the switch in `applyEvent`, once the payload is read.
unfoldable pub apply_payload : Event → Payload → RunState → Result RunState
apply_payload e (started p) s = ok (apply_started p s)
apply_payload e (scheduled p) s = apply_scheduled p s
apply_payload e (leased p) s = apply_leased p s
apply_payload e (heartbeat p) s = apply_heartbeat e p s
apply_payload e (completed p) s = apply_completed p s
apply_payload e (failed p) s = apply_failed p s
apply_payload e (retry_scheduled p) s = apply_retry_scheduled p s
apply_payload e (lease_expired p) s = apply_lease_expired p s
apply_payload e (cancelled p) s = apply_cancelled p s
apply_payload e (timer p) s = apply_timer_fired p s
apply_payload e (cancel_requested p) s = ok (record s {
  cancel_requested = true;
  run = record s.run { cancel_reason = p.reason; status = RunStatus.cancelling };
})
apply_payload e (compensating p) s = ok (apply_compensating p s)
apply_payload e (finished p) s = ok (record s {
  run = record s.run {
    status = RunStatus.completed;
    output = p.output;
    completed_at = some e.created_at;
  };
  workflow_finished = true;
})
apply_payload e (run_failure p) s = ok (record s {
  run = record s.run {
    status = RunStatus.failed;
    failure = p.error;
    completed_at = some e.created_at;
  };
  workflow_finished = true;
})
apply_payload e (run_cancel p) s = ok (record s {
  run = record s.run {
    status = RunStatus.cancelled;
    cancel_reason = p.reason;
    completed_at = some e.created_at;
  };
  workflow_finished = true;
})

-- The two writes that `applyEvent` makes before the switch.
abbrev pub stamp : Event → RunState → RunState
stamp e s = record s { run = record s.run { updated_at = e.created_at; version = e.sequence } }

unfoldable pub apply_event : RunState → Event → Result RunState
apply_event s e = decode e.type e.payload >>= λ p. apply_payload e p (stamp e s)

-- The loop of `Replay`.
unfoldable pub apply_events : RunState → List Event → Result RunState
apply_events s [] = ok s
apply_events s (e ∷ es) = apply_event s e >>= λ s'. apply_events s' es

unfoldable pub has_outputs : List String → Assoc Raw → Bool
has_outputs [] outputs = true
has_outputs (dep ∷ deps) outputs = elim (lookup dep outputs) [
  | none ↦ false
  | some output ↦ elim output [ absent ↦ false | _ ↦ has_outputs deps outputs ]
]

unfoldable pub dependencies_completed : Step → RunState → Bool
unfolding has_outputs
dependencies_completed step s = has_outputs step.dependencies s.outputs

unfoldable pub initial_steps : Assoc Step → List String → Assoc StepState → Assoc StepState
initial_steps defs [] acc = acc
initial_steps defs (id ∷ ids) acc =
    let step = step_of defs id in
    initial_steps defs ids (
      insert id
        (record {
          id = step.id;
          forward_status = TaskStatus.unset;
          forward_task_id = "";
          forward_attempt = pos 0;
          forward_output = absent;
          forward_error = "";
          dependencies_satisfied = false;
          compensation_scheduled = false;
          compensation_task_id = "";
          compensation_completed = false;
          compensation_failed = false;
          compensation_output = absent;
          compensation_error = "";
          metadata = step.metadata;
          dependencies = step.dependencies;
          definition = step;
        })
        acc)

abbrev or_running : RunStatus → RunStatus
or_running RunStatus.unset = RunStatus.running
or_running s = s

-- The state that `Replay` starts from.
unfoldable pub initial_state : Definition → RunRecord → RunState
unfolding initial_steps
initial_state d run = record {
  run = record run {
    workflow_name = if run.workflow_name == "" then d.name else run.workflow_name;
    status = or_running run.status;
  };
  metadata = run.metadata;
  steps = initial_steps d.steps d.order [];
  tasks = [];
  outputs = [];
  completed_order = [];
  cancel_requested = false;
  compensating = false;
  workflow_finished = false;
}

mark_steps : RunState → Assoc StepState → Assoc StepState
unfolding dependencies_completed
mark_steps s [] = []
mark_steps s ((id, step) ∷ steps) =
    (id, record step { dependencies_satisfied = dependencies_completed step.definition s })
    ∷ mark_steps s steps

-- The last loop of `Replay`.
unfoldable pub mark_satisfied : RunState → RunState
unfolding mark_steps
mark_satisfied s = record s { steps = mark_steps s s.steps }

unfoldable pub replay : Definition → RunRecord → List Event → Result RunState
unfolding initial_state apply_events mark_satisfied
replay d run events = apply_events (initial_state d run) events >>= λ s. ok (mark_satisfied s)
