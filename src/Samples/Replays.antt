-- ===== src/Samples/Replays.antt =====
-- The replays of what the operations store, on the two workflows.
use go_project.Prelude.{ℤ, pos, ok, [], true, false, ◌≡◌, ◌⊎◌, refl, Result, IsDistinct, String}
use go_project.History.Json.{value, text, absent}
use go_project.Engine.Types.{RunRecord}
use go_project.Engine.Reducer.Order.{replay-IsDistinct}
use go_project.Store.Sqlite.{get_history}
use go_project.Engine.Loaded.{LoadedRun}
use go_project.Engine.Runtime.{
  start, load_run, load_task_run, fail_task_once, cancel_run_once, fire_timer_once,
}
use go_project.Engine.Runtime.Histories.{
  empty_tables, Reachable, initialized, started, Reachable-IsNumbered,
}
use go_project.Engine.Runtime.Stored.{
  IsReplayable, complete_task_once-IsReplayable, fail_task_once-IsReplayable,
  cancel_run_once-IsReplayable, fire_timer_once-IsReplayable,
}
use go_project.Store.Tables.{Db}
use go_project.Samples.Orders.{ids, registry, loaded}
use go_project.Samples.Histories.{first_or, db_or, held, held-Reachable, reserved, order-steps}

-- The order with its first task leased.
abbrev pub order : LoadedRun
order = loaded "task-2" held.0

-- The failure of its first attempt, which is tried again, and its cancellation.
abbrev retried : Db
retried = db_or (fail_task_once registry ids "w" "task-2" "no stock" true (pos 3_000) held.0 held.0)

abbrev called_off : Db
called_off =
    db_or (cancel_run_once registry ids "run-1" "changed my mind" (pos 3_000) held.0 held.0)

pub order-runs :
    (load_task_run registry "task-2" held.0 ≡ ok order)
    × (load_run registry "run-1" held.0 ≡ ok order)
    × (fail_task_once registry ids "w" "task-2" "no stock" true (pos 3_000) held.0 held.0
        ≡ ok retried)
    × (cancel_run_once registry ids "run-1" "changed my mind" (pos 3_000) held.0 held.0
        ≡ ok called_off)
    × (order.state.cancel_requested ≡ false)
    × (order.run.id ≡ "run-1")
unfolding load_task_run go_project.Store.Sqlite.get_task go_project.Prelude.lookup
    go_project.Store.Sqlite.lease_tasks go_project.Store.Sqlite.lease_each
    go_project.Store.Sqlite.lease_candidates go_project.Store.Sqlite.limit_or
    go_project.Prelude.sort_by go_project.Prelude.select start
    go_project.Workflow.Registry.definition go_project.Engine.Service.start_run
    go_project.Engine.Tasks.make_event go_project.History.Events.new
    go_project.History.Json.marshal_raw go_project.Engine.Tasks.normalize_json
    go_project.Engine.Reducer.replay go_project.Engine.Reducer.apply_event
    go_project.History.Codec.decode go_project.History.Json.as_text go_project.History.Json.field?
    go_project.History.Json.texts_if_set go_project.History.Json.as_texts
    go_project.Engine.Reducer.apply_payload go_project.Engine.Progress.schedule_forward_ready
    go_project.Engine.Progress.schedule_steps go_project.Workflow.Types.step_ids
    go_project.Engine.Progress.schedule_step go_project.Engine.Effects.apply_started
    go_project.Prelude.insert go_project.Engine.Progress.is_ready
    go_project.Engine.Progress.is_started go_project.Workflow.Types.step_of
    go_project.Engine.Tasks.new_task go_project.Engine.Tasks.build_task_input
    go_project.History.Json.raws_if_set go_project.Engine.Tasks.task_dependencies
    go_project.Engine.Tasks.dependency_outputs go_project.Engine.Progress.record_event
    go_project.History.Json.as_number go_project.History.Json.as_time
    go_project.History.Json.as_raws go_project.History.Json.as_flag
    go_project.Engine.Effects.apply_scheduled go_project.Store.Sqlite.create_run
    go_project.Store.Tables.insert_run go_project.Prelude.has_key
    go_project.Store.Tables.insert_events go_project.Store.Tables.insert_event
    go_project.Store.Tables.event_row go_project.Store.Tables.insert_task_rows
    go_project.Store.Tables.insert_task_row go_project.Store.Times.time_le
    go_project.Store.Sqlite.lease_task go_project.Store.Sqlite.append_event
    go_project.Store.Sqlite.next_sequence go_project.Store.Sqlite.bump_run_version load_run
    go_project.Store.Sqlite.get_run go_project.Store.Tables.run_row
    go_project.Store.Sqlite.get_history go_project.Engine.Effects.apply_leased
    go_project.Store.Sqlite.list_tasks fail_task_once go_project.Engine.Service.fail_task
    go_project.Engine.Service.holds_lease go_project.Engine.Loaded.emit_for_task
    go_project.Engine.Progress.emit go_project.Engine.Effects.apply_failed
    go_project.Engine.Loaded.begin_work go_project.Engine.Loaded.task_update
    go_project.Engine.Service.may_retry go_project.Workflow.Retry.normalize
    go_project.Engine.Service.retry_task go_project.Engine.Effects.apply_retry_scheduled
    go_project.Engine.Runtime.commit go_project.Store.Sqlite.append_run_changes
    go_project.Store.Sqlite.update_run go_project.Store.Tables.apply_mutations cancel_run_once
    go_project.Engine.Service.cancel_run go_project.Engine.Types.terminal
    go_project.Engine.Service.cancel_tasks go_project.Engine.Service.cancel_task
    go_project.Engine.Service.is_closed go_project.Engine.Effects.apply_cancelled
    go_project.Engine.Progress.begin_compensation_or_finish
    go_project.Engine.Progress.next_compensation_step go_project.Engine.Progress.last_candidate
    go_project.Engine.Progress.finish_run go_project.Engine.Runtime.commit_any
    go_project.Engine.Loaded.to_changes go_project.Engine.Loaded.summary
order-runs = (refl, refl, refl, refl, refl, refl)

-- The workflow of one timer, and the firing of it.
abbrev napping : Db × RunRecord
napping = first_or (start registry ids "nap" "run-2" absent [] (pos 1_000) empty_tables)

abbrev sleeper : LoadedRun
sleeper = loaded "task-2" napping.0

abbrev awake : Db
awake = db_or (fire_timer_once registry ids "task-2" (pos 3_000) napping.0 napping.0)

sleeper-runs :
    (start registry ids "nap" "run-2" absent [] (pos 1_000) empty_tables ≡ ok napping)
    × (load_task_run registry "task-2" napping.0 ≡ ok sleeper)
    × (fire_timer_once registry ids "task-2" (pos 3_000) napping.0 napping.0 ≡ ok awake)
unfolding start go_project.Workflow.Registry.definition go_project.Prelude.lookup
    go_project.Engine.Service.start_run go_project.Engine.Tasks.make_event
    go_project.History.Events.new go_project.History.Json.marshal_raw
    go_project.Engine.Tasks.normalize_json go_project.Engine.Reducer.replay
    go_project.Engine.Reducer.apply_event go_project.History.Codec.decode
    go_project.History.Json.as_text go_project.History.Json.field?
    go_project.History.Json.texts_if_set go_project.History.Json.as_texts
    go_project.Engine.Reducer.apply_payload go_project.Engine.Progress.schedule_forward_ready
    go_project.Engine.Progress.schedule_steps go_project.Workflow.Types.step_ids
    go_project.Engine.Progress.schedule_step go_project.Engine.Effects.apply_started
    go_project.Prelude.insert go_project.Engine.Progress.is_ready
    go_project.Engine.Progress.is_started go_project.Workflow.Types.step_of
    go_project.Engine.Tasks.new_task go_project.Engine.Tasks.build_task_input
    go_project.History.Json.raws_if_set go_project.Engine.Tasks.task_dependencies
    go_project.Engine.Tasks.dependency_outputs go_project.Engine.Progress.record_event
    go_project.History.Json.as_number go_project.History.Json.as_time
    go_project.History.Json.as_raws go_project.History.Json.as_flag
    go_project.Engine.Effects.apply_scheduled go_project.Store.Sqlite.create_run
    go_project.Store.Tables.insert_run go_project.Prelude.has_key
    go_project.Store.Tables.insert_events go_project.Store.Tables.insert_event
    go_project.Store.Tables.event_row go_project.Store.Tables.insert_task_rows
    go_project.Store.Tables.insert_task_row load_task_run go_project.Store.Sqlite.get_task load_run
    go_project.Store.Sqlite.get_run go_project.Store.Tables.run_row
    go_project.Store.Sqlite.get_history go_project.Prelude.sort_by go_project.Prelude.select
    fire_timer_once go_project.Engine.Service.fire_timer go_project.Store.Sqlite.list_tasks
    go_project.Engine.Service.is_due go_project.Engine.Loaded.emit_for_task
    go_project.Engine.Progress.emit go_project.Engine.Effects.apply_timer_fired
    go_project.Engine.Loaded.begin_work go_project.Engine.Loaded.task_update
    go_project.Engine.Progress.post_process go_project.Engine.Progress.complete_if_done
    go_project.Engine.Progress.all_forward_completed go_project.Engine.Progress.add_tasks
    go_project.Engine.Progress.has_open_forward_tasks go_project.Prelude.any_value
    go_project.Engine.Progress.build_run_output go_project.Engine.Runtime.commit_any
    go_project.Store.Sqlite.append_run_changes go_project.Store.Sqlite.update_run
    go_project.Engine.Loaded.to_changes go_project.Engine.Loaded.summary
    go_project.Store.Tables.apply_mutations
sleeper-runs = (refl, refl, refl)

napping-Reachable : Reachable registry napping.0
napping-Reachable =
    started ids "nap" "run-2" absent [] (pos 1_000) napping.1 initialized sleeper-runs.0

complete_task_once-IsReplayable_example : IsReplayable order.definition order.run.id reserved
complete_task_once-IsReplayable_example =
    complete_task_once-IsReplayable registry ids "w" "task-2" (value (text "goods")) (pos 3_000)
      held.0 {l = order} (Reachable-IsNumbered registry held-Reachable) order-runs.0 order-steps.2

fail_task_once-IsReplayable_example : IsReplayable order.definition order.run.id retried
fail_task_once-IsReplayable_example =
    fail_task_once-IsReplayable registry ids "w" "task-2" "no stock" true (pos 3_000) held.0
      {l = order} (Reachable-IsNumbered registry held-Reachable) order-runs.0 order-runs.4
      order-runs.2

cancel_run_once-IsReplayable_example :
    (called_off ≡ held.0) ⊎ IsReplayable order.definition order.run.id called_off
cancel_run_once-IsReplayable_example =
    cancel_run_once-IsReplayable registry ids "run-1" "changed my mind" (pos 3_000) held.0
      {l = order} (Reachable-IsNumbered registry held-Reachable) order-runs.1 order-runs.3

fire_timer_once-IsReplayable_example :
    (awake ≡ napping.0) ⊎ IsReplayable sleeper.definition sleeper.run.id awake
fire_timer_once-IsReplayable_example =
    fire_timer_once-IsReplayable registry ids "task-2" (pos 3_000) napping.0 {l = sleeper}
      (Reachable-IsNumbered registry napping-Reachable) sleeper-runs.1 sleeper-runs.2

reserved-IsReplayable : IsReplayable order.definition order.run.id reserved
reserved-IsReplayable =
    complete_task_once-IsReplayable registry ids "w" "task-2" (value (text "goods")) (pos 3_000)
      held.0 {l = order} (Reachable-IsNumbered registry held-Reachable) order-runs.0 order-steps.2

replay-IsDistinct_example : IsDistinct reserved-IsReplayable.state.completed_order
replay-IsDistinct_example =
    replay-IsDistinct order.definition reserved-IsReplayable.row (get_history order.run.id reserved)
      reserved-IsReplayable.replayed
