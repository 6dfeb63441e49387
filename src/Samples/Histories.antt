-- ===== src/Samples/Histories.antt =====
-- A run that is started, leased, completed in part and swept, and the repetition of an operation.
use go_project.Prelude.{
  ℕ, ◌<◌, String, Bool, true, false, ◌≡◌, refl, pos, ok, err, version_conflict, Result, ltb,
  if◌then◌else◌, [], List, ◌∷◌, arith,
}
use go_project.History.Json.{value, text}
use go_project.Engine.Types.{RunRecord, TaskRecord}
use go_project.Engine.Runtime.{start, complete_task_once, sweep}
use go_project.Engine.Runtime.Histories.{
  empty_tables, Reachable, initialized, started, leased, completed, Reachable-IsNumbered,
}
use go_project.Engine.Runtime.Retry.{
  is_version_conflict, with_optimistic_retry, with_optimistic_retry-first,
  with_optimistic_retry-conflict,
}
use go_project.Store.Sqlite.{lease_tasks}
use go_project.Store.Tables.{Db}
use go_project.Store.Sqlite.Sequence.{IsNumbered}
use go_project.Samples.Orders.{ids, registry, no_changes}

abbrev pub first_or : Result (Db × RunRecord) → Db × RunRecord
first_or (ok r) = r
first_or (err e) = (empty_tables, no_changes.run)

abbrev leases_or : Result (Db × List TaskRecord) → Db × List TaskRecord
leases_or (ok r) = r
leases_or (err e) = (empty_tables, [])

abbrev pub db_or : Result Db → Db
db_or (ok db) = db
db_or (err e) = empty_tables

abbrev begun : Db × RunRecord
begun =
    first_or (start registry ids "orders" "run-1" (value (text "42")) [] (pos 1_000) empty_tables)

abbrev pub held : Db × List TaskRecord
held = leases_or (lease_tasks "default" "w" (pos 1) (pos 5_000_000_000) (pos 2_000) begun.0)

abbrev pub reserved : Db
reserved =
    db_or (
      complete_task_once registry ids "w" "task-2" (value (text "goods")) (pos 3_000) held.0 held.0)

pub order-steps :
    (start registry ids "orders" "run-1" (value (text "42")) [] (pos 1_000) empty_tables ≡ ok begun)
    × (lease_tasks "default" "w" (pos 1) (pos 5_000_000_000) (pos 2_000) begun.0 ≡ ok held)
    × (complete_task_once registry ids "w" "task-2" (value (text "goods")) (pos 3_000) held.0 held.0
        ≡ ok reserved)
unfolding start go_project.Workflow.Registry.definition go_project.Prelude.lookup
    go_project.Engine.Service.start_run go_project.Engine.Tasks.make_event
    go_project.History.Events.new go_project.History.Json.marshal_raw
    go_project.Engine.Tasks.normalize_json go_project.Engine.Reducer.replay
    go_project.Engine.Reducer.apply_event go_project.History.Codec.decode
    go_project.History.Json.as_text go_project.History.Json.field?
    go_project.History.Json.texts_if_set go_project.History.Json.as_texts
    go_project.Engine.Reducer.apply_payload go_project.Engine.Progress.schedule_forward_ready
    go_project.Engine.Progress.schedule_steps go_project.Workflow.Types.step_ids
    go_project.Engine.Progress.schedule_step go_project.Engine.Effects.apply_started
    go_project.Prelude.insert go_project.Engine.Progress.is_ready
    go_project.Engine.Progress.is_started go_project.Workflow.Types.step_of
    go_project.Engine.Tasks.new_task go_project.Engine.Tasks.build_task_input
    go_project.History.Json.raws_if_set go_project.Engine.Tasks.task_dependencies
    go_project.Engine.Tasks.dependency_outputs go_project.Engine.Progress.record_event
    go_project.History.Json.as_number go_project.History.Json.as_time
    go_project.History.Json.as_raws go_project.History.Json.as_flag
    go_project.Engine.Effects.apply_scheduled go_project.Store.Sqlite.create_run
    go_project.Store.Tables.insert_run go_project.Prelude.has_key
    go_project.Store.Tables.insert_events go_project.Store.Tables.insert_event
    go_project.Store.Tables.event_row go_project.Store.Tables.insert_task_rows
    go_project.Store.Tables.insert_task_row lease_tasks go_project.Store.Sqlite.lease_each
    go_project.Store.Sqlite.lease_candidates go_project.Store.Sqlite.limit_or
    go_project.Prelude.sort_by go_project.Prelude.select go_project.Store.Times.time_le
    go_project.Store.Sqlite.lease_task go_project.Store.Sqlite.append_event
    go_project.Store.Sqlite.next_sequence complete_task_once go_project.Engine.Runtime.load_task_run
    go_project.Store.Sqlite.get_task go_project.Store.Sqlite.bump_run_version
    go_project.Engine.Runtime.load_run go_project.Store.Sqlite.get_run
    go_project.Store.Tables.run_row go_project.Store.Sqlite.get_history
    go_project.Engine.Effects.apply_leased go_project.Engine.Service.complete_task
    go_project.Store.Sqlite.list_tasks go_project.Engine.Service.holds_lease
    go_project.Engine.Loaded.emit_for_task go_project.Engine.Progress.emit
    go_project.Engine.Effects.apply_completed go_project.Engine.Loaded.begin_work
    go_project.Engine.Loaded.task_update go_project.Engine.Progress.post_process
    go_project.History.Json.as_raw go_project.Engine.Progress.complete_if_done
    go_project.Engine.Progress.all_forward_completed go_project.Engine.Progress.add_tasks
    go_project.Engine.Progress.add_task go_project.Engine.Runtime.commit
    go_project.Store.Sqlite.append_run_changes go_project.Store.Sqlite.update_run
    go_project.Engine.Loaded.to_changes go_project.Engine.Loaded.summary
    go_project.Store.Tables.apply_mutations go_project.Store.Tables.update_task_row
    go_project.Engine.Tasks.update_task_record
order-steps = (refl, refl, refl)

pub held-Reachable : Reachable registry held.0
held-Reachable =
    leased "default" "w" (pos 1) (pos 5_000_000_000) (pos 2_000) held.1
      (started ids "orders" "run-1" (value (text "42")) [] (pos 1_000) begun.1 initialized
        order-steps.0)
      order-steps.1

reserved-Reachable : Reachable registry reserved
reserved-Reachable =
    completed ids "w" "task-2" (value (text "goods")) (pos 3_000) held-Reachable held-Reachable
      order-steps.2

Reachable-IsNumbered_example : IsNumbered reserved
Reachable-IsNumbered_example = Reachable-IsNumbered registry reserved-Reachable

-- An operation that meets two conflicts, and one that meets nothing else.
abbrev calls : ℕ → Result ℕ
calls n = if ltb n 2 then err (version_conflict "run-1") else ok n

abbrev conflicts : ℕ → Result ℕ
conflicts n = err (version_conflict "run-1")

abbrev never : ℕ → Bool
never n = false

calls-conflict : (i : ℕ) → i < 2 → is_version_conflict (calls i) ≡ true
unfolding is_version_conflict
calls-conflict i h = ground arith

conflicts-conflict :
    (is_version_conflict (with_optimistic_retry 0 conflicts never) ≡ true)
    × (is_version_conflict (calls 2) ≡ false)
unfolding is_version_conflict with_optimistic_retry
conflicts-conflict = (refl, refl)

with_optimistic_retry-first_example : with_optimistic_retry 0 calls never ≡ ok 2
with_optimistic_retry-first_example =
    with_optimistic_retry-first calls never 0 2 (omega arith) calls-conflict (λ i h. refl)
      conflicts-conflict.1

with_optimistic_retry-conflict_example : is_version_conflict (conflicts 4) ≡ true
with_optimistic_retry-conflict_example =
    with_optimistic_retry-conflict conflicts never 0 conflicts-conflict.0 4 (omega arith)
