-- ===== src/Samples/Orders.antt =====
-- An order: the goods are reserved, then charged for, and a timer ends the workflow.
use go_project.Prelude.{
  ℕ, String, false, none, [], ◌∷◌, pos, Result, ok, err, nat_eq, if◌then◌else◌,
}
use go_project.History.Json.{Json, absent, value}
use go_project.Workflow.Types.{Step, Definition, step_kind_activity, step_kind_timer, zero_step}
use go_project.Workflow.Registry.{Registry}
use go_project.Engine.Types.{RunStatus, RunState, TaskPhase, TaskStatus, TaskRecord}
use go_project.Engine.Runtime.Histories.{empty_tables}
use go_project.Engine.Loaded.{LoadedRun, Changes}
use go_project.Engine.Runtime.{load_task_run}
use go_project.Store.Tables.{Db}

abbrev pub ids : ℕ → String
ids n =
    if nat_eq n 2
    then "task-2"
    else if nat_eq n 5
    then "task-5"
    else if nat_eq n 7
    then "task-7"
    else "task-n"

abbrev pub reserve : Step
reserve = record zero_step {
  id = "reserve";
  kind = step_kind_activity;
  activity = "reserve_goods";
  queue = "default";
  retry = record { max_attempts = pos 2; initial_backoff = pos 1_000; max_backoff = pos 4_000 };
  compensation = "release_goods";
}

abbrev pub charge : Step
charge = record zero_step {
  id = "charge";
  kind = step_kind_activity;
  activity = "charge_card";
  queue = "default";
  dependencies = "reserve" ∷ [];
  retry = record { max_attempts = pos 2; initial_backoff = pos 1_000; max_backoff = pos 4_000 };
}

abbrev pub wait : Step
wait = record zero_step {
  id = "wait";
  kind = step_kind_timer;
  delay = pos 500;
  dependencies = "charge" ∷ [];
}

abbrev pub orders : Definition
orders = record {
  name = "orders";
  steps = ("reserve", reserve) ∷ ("charge", charge) ∷ ("wait", wait) ∷ [];
  order = "reserve" ∷ "charge" ∷ "wait" ∷ [];
}

-- A workflow of one timer.
abbrev pub nap : Definition
nap = record {
  name = "nap";
  steps = ("wait", record wait { dependencies = [] }) ∷ [];
  order = "wait" ∷ [];
}

abbrev pub registry : Registry Unit
registry = record { definitions = ("orders", orders) ∷ ("nap", nap) ∷ []; handlers = [] }

abbrev pub no_tables : Db
no_tables = empty_tables

abbrev no_run : LoadedRun
no_run = record {
  run = record {
    id = "";
    workflow_name = "";
    status = RunStatus.unset;
    input = absent;
    output = absent;
    failure = "";
    cancel_reason = "";
    metadata = [];
    created_at = pos 0;
    updated_at = pos 0;
    completed_at = none;
    version = 0;
  };
  definition = orders;
  events = [];
  state = no_state;
  task_list = [];
  tasks = [];
  events_version = 0;
}
  where
    no_state : RunState
    no_state = record {
      run = record {
        id = "";
        workflow_name = "";
        status = RunStatus.unset;
        input = absent;
        output = absent;
        failure = "";
        cancel_reason = "";
        metadata = [];
        created_at = pos 0;
        updated_at = pos 0;
        completed_at = none;
        version = 0;
      };
      metadata = [];
      steps = [];
      tasks = [];
      outputs = [];
      completed_order = [];
      cancel_requested = false;
      compensating = false;
      workflow_finished = false;
    }

abbrev run_or : Result LoadedRun → LoadedRun
run_or (ok l) = l
run_or (err e) = no_run

abbrev pub loaded : String → Db → LoadedRun
loaded task_id db = run_or (load_task_run registry task_id db)

abbrev pub no_changes : Changes
no_changes = record { run = no_run.run; expected_version = 0; events = []; mutations = [] }

-- A task of the first step that no worker has taken.
abbrev pub pending : TaskRecord
pending = record {
  id = "task-1";
  run_id = "run-1";
  workflow_name = "orders";
  step_id = "reserve";
  kind = "activity";
  phase = TaskPhase.forward;
  activity_name = "reserve_goods";
  queue_name = "default";
  status = TaskStatus.available;
  attempt = pos 1;
  max_attempts = pos 2;
  available_at = pos 1_000;
  lease_owner = "";
  lease_expires_at = none;
  heartbeat_at = none;
  timeout = pos 0;
  input = value Json.null;
  last_error = "";
  created_at = pos 1_000;
  updated_at = pos 1_000;
}
