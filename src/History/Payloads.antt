-- ===== src/History/Payloads.antt =====
-- The payload structs of internal/history/events.go and the event type that each belongs to.
use go_project.Prelude.{String, Bool, ℤ, Assoc}
use go_project.History.Json.{Raw}

-- `EventType` is a string in the source: `unsupported` is any other one.
pub data EventType : Type 0 where
  workflow_started task_scheduled task_leased task_heartbeat task_completed : EventType
  task_failed task_retry_scheduled task_lease_expired task_cancelled timer_fired : EventType
  run_cancel_requested run_compensating run_completed run_failed run_cancelled : EventType
  unsupported : String → EventType

pub record WorkflowStartedPayload : Type 0 where
  pub workflow : String
  pub input : Raw
  pub metadata : Assoc String

pub record TaskScheduledPayload : Type 0 where
  pub task_id : String
  pub step_id : String
  pub kind : String
  pub queue : String
  pub activity : String
  pub attempt : ℤ
  pub max_attempts : ℤ
  pub timeout_seconds : ℤ
  pub available_at : ℤ
  pub input : Raw
  pub dependencies : Assoc Raw
  pub compensation : Bool

pub record TaskLeasedPayload : Type 0 where
  pub task_id : String
  pub step_id : String
  pub worker_id : String
  pub attempt : ℤ
  pub lease_expires_at : ℤ

pub record TaskHeartbeatPayload : Type 0 where
  pub task_id : String
  pub worker_id : String
  pub lease_expires_at : ℤ

pub record TaskCompletedPayload : Type 0 where
  pub task_id : String
  pub step_id : String
  pub worker_id : String
  pub output : Raw
  pub compensation : Bool

pub record TaskFailedPayload : Type 0 where
  pub task_id : String
  pub step_id : String
  pub worker_id : String
  pub error : String
  pub compensation : Bool

pub record TaskRetryScheduledPayload : Type 0 where
  pub task_id : String
  pub step_id : String
  pub attempt : ℤ
  pub available_at : ℤ
  pub error : String

pub record TaskLeaseExpiredPayload : Type 0 where
  pub task_id : String
  pub step_id : String
  pub error : String

pub record TaskCancelledPayload : Type 0 where
  pub task_id : String
  pub step_id : String
  pub reason : String
  pub compensation : Bool

pub record TimerFiredPayload : Type 0 where
  pub task_id : String
  pub step_id : String

pub record RunCancelRequestedPayload : Type 0 where
  pub reason : String

pub record RunCompensatingPayload : Type 0 where
  pub reason : String

pub record RunCompletedPayload : Type 0 where
  pub output : Raw

pub record RunFailedPayload : Type 0 where
  pub error : String

pub record RunCancelledPayload : Type 0 where
  pub reason : String

-- A payload with the event type that it is written and read under.
pub data Payload : Type 0 where
  started : WorkflowStartedPayload → Payload
  scheduled : TaskScheduledPayload → Payload
  leased : TaskLeasedPayload → Payload
  heartbeat : TaskHeartbeatPayload → Payload
  completed : TaskCompletedPayload → Payload
  failed : TaskFailedPayload → Payload
  retry_scheduled : TaskRetryScheduledPayload → Payload
  lease_expired : TaskLeaseExpiredPayload → Payload
  cancelled : TaskCancelledPayload → Payload
  timer : TimerFiredPayload → Payload
  cancel_requested : RunCancelRequestedPayload → Payload
  compensating : RunCompensatingPayload → Payload
  finished : RunCompletedPayload → Payload
  run_failure : RunFailedPayload → Payload
  run_cancel : RunCancelledPayload → Payload

unfoldable pub event_type : Payload → EventType
event_type (started _) = workflow_started
event_type (scheduled _) = task_scheduled
event_type (leased _) = task_leased
event_type (heartbeat _) = task_heartbeat
event_type (completed _) = task_completed
event_type (failed _) = task_failed
event_type (retry_scheduled _) = task_retry_scheduled
event_type (lease_expired _) = task_lease_expired
event_type (cancelled _) = task_cancelled
event_type (timer _) = timer_fired
event_type (cancel_requested _) = run_cancel_requested
event_type (compensating _) = run_compensating
event_type (finished _) = run_completed
event_type (run_failure _) = run_failed
event_type (run_cancel _) = run_cancelled
