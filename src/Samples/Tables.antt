-- ===== src/Samples/Tables.antt =====
-- The tables of the order workflow, from empty ones on.
use go_project.Prelude.{
  String, ℕ, pos, ok, err, version_conflict, some, none, List, [], ◌∷◌, ◌≡◌, ◌≢◌, refl, false,
  Result, true, arith, lookup, ℤ, length,
}
use go_project.History.Json.{value, text, absent}
use go_project.History.Events.{Event}
use go_project.Engine.Types.{RunRecord, TaskRecord}
use go_project.Engine.Service.{NewRun, start_run}
use go_project.Store.Sqlite.{
  create_run, append_run_changes, lease_tasks, HeartbeatReply, heartbeat_task,
}
use go_project.Store.Tables.{Db}
use go_project.Engine.Progress.Replays.{AllOf, Consecutive}
use go_project.Store.Sqlite.Sequence.{IsNumbered}
use go_project.Store.Sqlite.Numbering.{append_run_changes-IsNumbered, create_run-Ensures}
use go_project.Store.Sqlite.Leases.{lease_tasks-IsNumbered, heartbeat_task-IsNumbered}
use go_project.Store.Sqlite.Conflicts.{no_lost_update}
use go_project.Engine.Runtime.Histories.{empty_tables-IsNumbered}
use go_project.Samples.Orders.{ids, orders, no_tables, no_changes}

abbrev new_or : Result NewRun → NewRun
new_or (ok new) = new
new_or (err e) = record { run = no_changes.run; events = []; tasks = [] }

abbrev order : NewRun
order = new_or (start_run ids orders "run-1" (value (text "42")) [] (pos 1_000))

abbrev db_or : Result Db → Db
db_or (ok db) = db
db_or (err e) = no_tables

abbrev created : Db
created = db_or (create_run order.run order.events order.tasks no_tables)

abbrev leases_or : Result (Db × List TaskRecord) → Db × List TaskRecord
leases_or (ok r) = r
leases_or (err e) = (no_tables, [])

abbrev leased : Db × List TaskRecord
leased = leases_or (lease_tasks "default" "w" (pos 1) (pos 5_000_000_000) (pos 2_000) created)

abbrev reply_or : Result (Db × HeartbeatReply) → Db × HeartbeatReply
reply_or (ok r) = r
reply_or (err e) = (no_tables, record { lease_expires_at = pos 0; cancel_requested = false })

abbrev beating : Db × HeartbeatReply
beating = reply_or (heartbeat_task "task-2" "w" (pos 9_000_000_000) (pos 3_000) leased.0)

-- A further event of the run, and the version after it.
abbrev event : Event
event = record {
  run_id = "run-1";
  sequence = 3;
  type = go_project.History.Payloads.run_cancel_requested;
  step_id = "";
  task_id = "";
  payload = absent;
  created_at = pos 4_000;
}

abbrev later : RunRecord
later = record order.run { id = "run-1"; version = 3 }

abbrev appended : Db
appended = db_or (append_run_changes later 2 (event ∷ []) [] created)

tables :
    (create_run order.run order.events order.tasks no_tables ≡ ok created)
    × (lease_tasks "default" "w" (pos 1) (pos 5_000_000_000) (pos 2_000) created ≡ ok leased)
    × (heartbeat_task "task-2" "w" (pos 9_000_000_000) (pos 3_000) leased.0 ≡ ok beating)
    × (append_run_changes later 2 (event ∷ []) [] created ≡ ok appended)
unfolding create_run go_project.Store.Tables.insert_run go_project.Prelude.has_key
    go_project.Store.Tables.insert_events start_run go_project.Engine.Tasks.make_event
    go_project.History.Events.new go_project.History.Json.marshal_raw
    go_project.Engine.Tasks.normalize_json go_project.Engine.Reducer.replay
    go_project.Engine.Reducer.apply_event go_project.History.Codec.decode
    go_project.History.Json.as_text go_project.History.Json.field?
    go_project.History.Json.texts_if_set go_project.History.Json.as_texts
    go_project.Engine.Reducer.apply_payload go_project.Engine.Progress.schedule_forward_ready
    go_project.Engine.Progress.schedule_steps go_project.Workflow.Types.step_ids
    go_project.Engine.Progress.schedule_step go_project.Engine.Effects.apply_started
    go_project.Prelude.insert go_project.Engine.Progress.is_ready
    go_project.Engine.Progress.is_started go_project.Workflow.Types.step_of
    go_project.Engine.Tasks.new_task go_project.Engine.Tasks.build_task_input
    go_project.History.Json.raws_if_set go_project.Engine.Tasks.task_dependencies
    go_project.Engine.Tasks.dependency_outputs go_project.Engine.Progress.record_event
    go_project.History.Json.as_number go_project.History.Json.as_time
    go_project.History.Json.as_raws go_project.History.Json.as_flag
    go_project.Engine.Effects.apply_scheduled go_project.Store.Tables.insert_event
    go_project.Store.Tables.event_row go_project.Store.Tables.insert_task_rows
    go_project.Store.Tables.insert_task_row lease_tasks go_project.Store.Sqlite.lease_each
    go_project.Store.Sqlite.lease_candidates go_project.Store.Sqlite.limit_or
    go_project.Prelude.sort_by go_project.Prelude.select go_project.Store.Times.time_le
    go_project.Store.Sqlite.lease_task go_project.Store.Sqlite.append_event
    go_project.Store.Sqlite.next_sequence heartbeat_task go_project.Store.Sqlite.bump_run_version
    append_run_changes go_project.Store.Sqlite.update_run go_project.Store.Tables.run_row
    go_project.Store.Tables.apply_mutations
tables = (refl, refl, refl, refl)

order-numbered :
    AllOf order.run.id order.events
    × Consecutive 1 order.events
    × (order.run.version ≡ length order.events)
unfolding start_run go_project.Engine.Tasks.make_event go_project.History.Events.new
    go_project.History.Json.marshal_raw go_project.Engine.Tasks.normalize_json
    go_project.Engine.Reducer.replay go_project.Engine.Reducer.apply_event
    go_project.History.Codec.decode go_project.History.Json.as_text go_project.History.Json.field?
    go_project.History.Json.texts_if_set go_project.History.Json.as_texts
    go_project.Engine.Reducer.apply_payload go_project.Engine.Progress.schedule_forward_ready
    go_project.Engine.Progress.schedule_steps go_project.Workflow.Types.step_ids
    go_project.Engine.Progress.schedule_step lookup go_project.Engine.Effects.apply_started
    go_project.Prelude.insert go_project.Engine.Progress.is_ready
    go_project.Engine.Progress.is_started go_project.Workflow.Types.step_of
    go_project.Engine.Tasks.new_task go_project.Engine.Tasks.build_task_input
    go_project.History.Json.raws_if_set go_project.Engine.Tasks.task_dependencies
    go_project.Engine.Tasks.dependency_outputs go_project.Engine.Progress.record_event
    go_project.History.Json.as_number go_project.History.Json.as_time
    go_project.History.Json.as_raws go_project.History.Json.as_flag
    go_project.Engine.Effects.apply_scheduled
order-numbered = ((refl, (refl, tt)), (refl, (refl, tt)), refl)

created-IsNumbered : IsNumbered created
created-IsNumbered =
    (create_run-Ensures order.run order.events order.tasks no_tables empty_tables-IsNumbered
        order-numbered.0 order-numbered.1 order-numbered.2).holds
      created tables.0

leased-IsNumbered : IsNumbered leased.0
leased-IsNumbered =
    lease_tasks-IsNumbered "default" "w" (pos 1) (pos 5_000_000_000) (pos 2_000) created
      created-IsNumbered tables.1

lease_tasks-IsNumbered_example : IsNumbered leased.0
lease_tasks-IsNumbered_example =
    lease_tasks-IsNumbered "default" "w" (pos 1) (pos 5_000_000_000) (pos 2_000) created
      created-IsNumbered tables.1

heartbeat_task-IsNumbered_example : IsNumbered beating.0
heartbeat_task-IsNumbered_example =
    heartbeat_task-IsNumbered "task-2" "w" (pos 9_000_000_000) (pos 3_000) leased.0
      leased-IsNumbered tables.2

append_run_changes-IsNumbered_example : IsNumbered appended
append_run_changes-IsNumbered_example =
    append_run_changes-IsNumbered later 2 (event ∷ []) [] created created-IsNumbered (refl, tt)
      (refl, tt) refl tables.3

no_lost_update_example : append_run_changes later 2 [] [] appended ≡ err (version_conflict "run-1")
no_lost_update_example =
    no_lost_update later later 2 (event ∷ []) [] [] [] created tables.3 (ground arith) refl
