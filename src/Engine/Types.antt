-- ===== src/Engine/Types.antt =====
-- internal/engine/types.go. A nil map is an empty one, and a pointer that may be nil an `Option`.
use go_project.Prelude.{ℕ, String, Bool, true, false, Option, List, ℤ, Assoc}
use go_project.History.Json.{Raw}
use go_project.Workflow.Types.{Step}

-- The statuses are strings in the source: `unset` is the empty one.
pub data RunStatus : Type 0 where
  unset running compensating cancelling completed failed cancelled : RunStatus

-- `RunStatus.Terminal`.
unfoldable pub terminal : RunStatus → Bool
terminal RunStatus.completed = true
terminal RunStatus.failed = true
terminal RunStatus.cancelled = true
terminal _ = false

pub data TaskStatus : Type 0 where
  unset available leased completed failed cancelled : TaskStatus

-- `status == TaskStatus…`, one test for each status.
abbrev pub is_available : TaskStatus → Bool
is_available TaskStatus.available = true
is_available _ = false

abbrev pub is_leased : TaskStatus → Bool
is_leased TaskStatus.leased = true
is_leased _ = false

abbrev pub is_completed : TaskStatus → Bool
is_completed TaskStatus.completed = true
is_completed _ = false

abbrev pub is_failed : TaskStatus → Bool
is_failed TaskStatus.failed = true
is_failed _ = false

abbrev pub is_cancelled : TaskStatus → Bool
is_cancelled TaskStatus.cancelled = true
is_cancelled _ = false

pub data TaskPhase : Type 0 where
  forward compensation : TaskPhase

abbrev pub is_forward : TaskPhase → Bool
is_forward TaskPhase.forward = true
is_forward TaskPhase.compensation = false

abbrev pub is_compensation : TaskPhase → Bool
is_compensation TaskPhase.forward = false
is_compensation TaskPhase.compensation = true

-- `TaskKind` is a string in the source.
abbrev pub task_kind_activity : String
task_kind_activity = "activity"

abbrev pub task_kind_timer : String
task_kind_timer = "timer"

pub record RunRecord : Type 0 where
  pub id : String
  pub workflow_name : String
  pub status : RunStatus
  pub input : Raw
  pub output : Raw
  pub failure : String
  pub cancel_reason : String
  pub metadata : Assoc String
  pub created_at : ℤ
  pub updated_at : ℤ
  pub completed_at : Option ℤ
  pub version : ℕ

pub record TaskRecord : Type 0 where
  pub id : String
  pub run_id : String
  pub workflow_name : String
  pub step_id : String
  pub kind : String
  pub phase : TaskPhase
  pub activity_name : String
  pub queue_name : String
  pub status : TaskStatus
  pub attempt : ℤ
  pub max_attempts : ℤ
  pub available_at : ℤ
  pub lease_owner : String
  pub lease_expires_at : Option ℤ
  pub heartbeat_at : Option ℤ
  pub timeout : ℤ
  pub input : Raw
  pub last_error : String
  pub created_at : ℤ
  pub updated_at : ℤ

pub data TaskMutation : Type 0 where
  insert_task : TaskRecord → TaskMutation
  update_task : TaskRecord → TaskMutation

pub record StepState : Type 0 where
  pub id : String
  pub forward_status : TaskStatus
  pub forward_task_id : String
  pub forward_attempt : ℤ
  pub forward_output : Raw
  pub forward_error : String
  pub dependencies_satisfied : Bool
  pub compensation_scheduled : Bool
  pub compensation_task_id : String
  pub compensation_completed : Bool
  pub compensation_failed : Bool
  pub compensation_output : Raw
  pub compensation_error : String
  pub metadata : Assoc String
  pub dependencies : List String
  pub definition : Step

pub record TaskState : Type 0 where
  pub id : String
  pub step_id : String
  pub kind : String
  pub phase : TaskPhase
  pub status : TaskStatus
  pub attempt : ℤ
  pub available_at : ℤ
  pub lease_owner : String
  pub lease_expires_at : Option ℤ
  pub heartbeat_at : Option ℤ
  pub output : Raw
  pub error : String

pub record RunState : Type 0 where
  pub run : RunRecord
  pub metadata : Assoc String
  pub steps : Assoc StepState
  pub tasks : Assoc TaskState
  pub outputs : Assoc Raw
  pub completed_order : List String
  pub cancel_requested : Bool
  pub compensating : Bool
  pub workflow_finished : Bool
