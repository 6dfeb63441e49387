-- ===== src/Samples/Workers.antt =====
-- A worker with one activity, the input of its tasks, and the cases of what it reports.
use go_project.Prelude.{
  String, Bool, true, false, pos, negsuc, ok, err, [], ◌∷◌, ◌≡◌, ◌≢◌, ◌↔◌, refl, Result, Error,
  context_done, version_conflict, none, some, if◌then◌else◌, Assoc,
}
use go_project.History.Json.{Json, obj, end, member, Raw, value, text, absent, marshal_raw}
use go_project.Workflow.Types.{Step, zero_step}
use go_project.Workflow.Registry.{Registry, handler}
use go_project.Engine.Types.{TaskRecord, RunState}
use go_project.Engine.Reducer.{initial_state}
use go_project.Engine.Tasks.{build_task_input}
use go_project.Store.Sqlite.{HeartbeatReply}
use go_project.Worker.Config.{Config, configure, IsUsable, configure-IsUsable}
use go_project.Worker.Input.{
  ActivityInput, zero_input, decode_input, activity_input, decode_input-build_task_input,
}
use go_project.Worker.Execute.{
  HandlerError, from_handler, from_heartbeat, Outcome, returned, raised, Value, plain, completed,
  failed, execute,
}
use go_project.Worker.Execute.Reports.{Completes, execute-completed, execute-retryable, IsTransient}
use go_project.Samples.Orders.{orders, no_changes, pending}

abbrev bare : Config
bare = record {
  worker_id = "w";
  queue = "";
  concurrency = negsuc 0;
  poll_interval = pos 0;
  lease = record { ttl = pos 0; heartbeat_every = pos 0; recovery_interval = pos 0 };
}

configure-IsUsable_example : IsUsable bare (configure bare)
configure-IsUsable_example = configure-IsUsable bare

abbrev charge_card : Step
charge_card = record zero_step {
  id = "charge";
  activity = "charge_card";
  dependencies = "reserve" ∷ [];
  metadata = ("currency", "EUR") ∷ [];
}

abbrev state : RunState
state = record (initial_state orders no_changes.run) {
  outputs = ("reserve", value (text "goods")) ∷ [];
}

abbrev built_or : Result (Raw × Assoc Raw) → Raw × Assoc Raw
built_or (ok b) = b
built_or (err e) = (absent, [])

abbrev built : Raw × Assoc Raw
built = built_or (build_task_input no_changes.run state charge_card false (pos 1))

built-runs : build_task_input no_changes.run state charge_card false (pos 1) ≡ ok built
unfolding build_task_input marshal_raw go_project.Engine.Tasks.normalize_json
    go_project.History.Json.raws_if_set go_project.Engine.Tasks.task_dependencies
    go_project.Engine.Tasks.dependency_outputs go_project.Prelude.lookup go_project.Prelude.insert
built-runs = refl

decode_input-build_task_input_example :
    decode_input built.0 ≡ ok (activity_input no_changes.run state charge_card false (pos 1))
decode_input-build_task_input_example =
    decode_input-build_task_input no_changes.run state charge_card false (pos 1) built-runs

-- A handler that succeeds, one that gives up when its context is cancelled, and one that fails.
data Activity : Type 0 where
  prompt patient flaky : Activity

abbrev gone : HandlerError
gone = record {
  message = "context canceled";
  non_retryable = false;
  is_canceled = true;
  is_run_cancelled = false;
}

abbrev busy : HandlerError
busy = record {
  message = "busy";
  non_retryable = false;
  is_canceled = false;
  is_run_cancelled = false;
}

abbrev call : Activity → ActivityInput → Bool → Outcome Raw
call prompt input lost = returned (plain "done")
call patient input lost = if lost then raised gone else returned (plain "done")
call flaky input lost = raised busy

abbrev encode : Raw → Result Json
encode r = marshal_raw r

abbrev activities : Registry Activity
activities = record {
  definitions = [];
  handlers = ("prompt", prompt) ∷ ("patient", patient) ∷ ("flaky", flaky) ∷ [];
}

abbrev fine : HeartbeatReply
fine = record { lease_expires_at = pos 9; cancel_requested = false }

abbrev done : Raw
done = value (obj (member "value" (text "done") end))

abbrev task_for : String → TaskRecord
task_for name = record pending { activity_name = name; input = value Json.null }

execute-completed_example :
    (execute encode call activities (task_for "prompt") (ok fine ∷ []) ≡ completed done)
    ↔ Completes encode call activities (task_for "prompt") (ok fine ∷ []) done
execute-completed_example =
    execute-completed encode call activities (task_for "prompt") (ok fine ∷ []) done

flaky-fails : execute encode call activities (task_for "flaky") [] ≡ failed (from_handler busy) true
unfolding execute handler go_project.Prelude.lookup go_project.Worker.Execute.is_retryable
flaky-fails = refl

execute-retryable_example : IsTransient (from_handler busy)
execute-retryable_example =
    execute-retryable encode call activities (task_for "flaky") [] (from_handler busy) flaky-fails

patient-found : handler "patient" activities ≡ some patient
unfolding handler go_project.Prelude.lookup
patient-found = refl

null-decoded : decode_input (value Json.null) ≡ ok zero_input
unfolding decode_input
null-decoded = refl
