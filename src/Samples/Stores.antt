-- ===== src/Samples/Stores.antt =====
-- The PostgreSQL tables after the start of an order, with a driver like pgx, and the order's first task,
-- which a worker is refused.
use go_project.Prelude.{
  String, pos, ok, err, statement_refused, [], List, ◌∷◌, false, true, ◌≡◌, ◌⊎◌, refl, Result, some,
  All,
}
use mathlib.Core.List.{Memᴰ}
use go_project.History.Json.{value, text}
use go_project.Engine.Types.{RunRecord, TaskRecord}
use go_project.Store.Sqlite.{rows}
use go_project.Store.Sqlite.Sequence.{IsNumbered}
use go_project.Store.Tables.{Db}
use go_project.Store.Postgres.Columns.{Database}
use go_project.Store.Postgres.Tasks.{lease_tasks}
use go_project.Store.Postgres.Service.{start, cancel, call_once}
use go_project.Store.Postgres.Histories.{no_rows, initialized, started, called, Stored-IsNumbered}
use go_project.Store.Postgres.Refusal.{is_offered, lease_tasks-refused}
use go_project.Samples.Orders.{ids, registry, no_changes, pending}

-- Documents and times come back as they are.
abbrev database : Database
database = record { jsonb = λ j. j; timestamp = λ t. t; while_reading = some statement_refused }

abbrev first_or : Result (Db × RunRecord) → Db × RunRecord
first_or (ok r) = r
first_or (err e) = (no_rows, no_changes.run)

abbrev db_or : Result Db → Db
db_or (ok db) = db
db_or (err e) = no_rows

abbrev begun : Db × RunRecord
begun =
    first_or
      (start database registry ids "orders" "run-1" (value (text "42")) [] (pos 1_000) no_rows)

abbrev called_off : Db
called_off =
    db_or (
      call_once database registry ids (cancel "run-1" "changed my mind") (pos 3_000) begun.0
        begun.0)

begun-runs :
    start database registry ids "orders" "run-1" (value (text "42")) [] (pos 1_000) no_rows
    ≡ ok begun
unfolding start go_project.Prelude.lookup go_project.Prelude.sort_by go_project.Prelude.select
    go_project.Workflow.Registry.definition go_project.Engine.Service.start_run
    go_project.Engine.Tasks.make_event go_project.History.Events.new
    go_project.History.Json.marshal_raw go_project.Engine.Tasks.normalize_json
    go_project.Engine.Reducer.replay go_project.Engine.Reducer.apply_event
    go_project.History.Codec.decode go_project.History.Json.as_text go_project.History.Json.field?
    go_project.History.Json.texts_if_set go_project.History.Json.as_texts
    go_project.Engine.Reducer.apply_payload go_project.Engine.Progress.schedule_forward_ready
    go_project.Engine.Progress.schedule_steps go_project.Workflow.Types.step_ids
    go_project.Engine.Progress.schedule_step go_project.Engine.Effects.apply_started
    go_project.Prelude.insert go_project.Engine.Progress.is_ready
    go_project.Engine.Progress.is_started go_project.Workflow.Types.step_of
    go_project.Engine.Tasks.new_task go_project.Engine.Tasks.build_task_input
    go_project.History.Json.raws_if_set go_project.Engine.Tasks.task_dependencies
    go_project.Engine.Tasks.dependency_outputs go_project.Engine.Progress.record_event
    go_project.History.Json.as_number go_project.History.Json.as_time
    go_project.History.Json.as_raws go_project.History.Json.as_flag
    go_project.Engine.Effects.apply_scheduled go_project.Prelude.has_key
    go_project.Store.Times.time_le go_project.Engine.Effects.apply_leased
    go_project.Engine.Service.holds_lease go_project.Engine.Loaded.emit_for_task
    go_project.Engine.Progress.emit go_project.Engine.Loaded.begin_work
    go_project.Engine.Loaded.task_update go_project.Engine.Runtime.commit
    go_project.Engine.Service.cancel_run go_project.Engine.Types.terminal
    go_project.Engine.Service.cancel_tasks go_project.Engine.Service.cancel_task
    go_project.Engine.Service.is_closed go_project.Engine.Effects.apply_cancelled
    go_project.Engine.Progress.begin_compensation_or_finish
    go_project.Engine.Progress.next_compensation_step go_project.Engine.Progress.last_candidate
    go_project.Engine.Progress.finish_run go_project.Engine.Runtime.commit_any
    go_project.Engine.Loaded.to_changes go_project.Engine.Loaded.summary
    go_project.Engine.Runtime.definition_of go_project.Store.Postgres.Writes.create_run
    go_project.Store.Postgres.Writes.insert_run go_project.Store.Postgres.Writes.insert_events
    go_project.Store.Postgres.Writes.insert_event go_project.Store.Postgres.Writes.insert_task_rows
    go_project.Store.Postgres.Writes.insert_task_row go_project.Store.Postgres.Columns.run_columns
    go_project.Store.Postgres.Columns.event_columns go_project.Store.Postgres.Columns.task_columns
    go_project.Store.Postgres.Columns.json_column go_project.Store.Postgres.Columns.nullable_bytes
begun-runs = refl

called_off-runs :
    call_once database registry ids (cancel "run-1" "changed my mind") (pos 3_000) begun.0 begun.0
    ≡ ok called_off
unfolding call_once start go_project.Prelude.lookup go_project.Prelude.sort_by
    go_project.Prelude.select go_project.Workflow.Registry.definition
    go_project.Engine.Service.start_run go_project.Engine.Tasks.make_event
    go_project.History.Events.new go_project.History.Json.marshal_raw
    go_project.Engine.Tasks.normalize_json go_project.Engine.Reducer.replay
    go_project.Engine.Reducer.apply_event go_project.History.Codec.decode
    go_project.History.Json.as_text go_project.History.Json.field?
    go_project.History.Json.texts_if_set go_project.History.Json.as_texts
    go_project.Engine.Reducer.apply_payload go_project.Engine.Progress.schedule_forward_ready
    go_project.Engine.Progress.schedule_steps go_project.Workflow.Types.step_ids
    go_project.Engine.Progress.schedule_step go_project.Engine.Effects.apply_started
    go_project.Prelude.insert go_project.Engine.Progress.is_ready
    go_project.Engine.Progress.is_started go_project.Workflow.Types.step_of
    go_project.Engine.Tasks.new_task go_project.Engine.Tasks.build_task_input
    go_project.History.Json.raws_if_set go_project.Engine.Tasks.task_dependencies
    go_project.Engine.Tasks.dependency_outputs go_project.Engine.Progress.record_event
    go_project.History.Json.as_number go_project.History.Json.as_time
    go_project.History.Json.as_raws go_project.History.Json.as_flag
    go_project.Engine.Effects.apply_scheduled go_project.Prelude.has_key
    go_project.Store.Times.time_le go_project.Engine.Effects.apply_leased
    go_project.Engine.Service.holds_lease go_project.Engine.Loaded.emit_for_task
    go_project.Engine.Progress.emit go_project.Engine.Loaded.begin_work
    go_project.Engine.Loaded.task_update go_project.Engine.Runtime.commit
    go_project.Engine.Service.cancel_run go_project.Engine.Types.terminal
    go_project.Engine.Service.cancel_tasks go_project.Engine.Service.cancel_task
    go_project.Engine.Service.is_closed go_project.Engine.Effects.apply_cancelled
    go_project.Engine.Progress.begin_compensation_or_finish
    go_project.Engine.Progress.next_compensation_step go_project.Engine.Progress.last_candidate
    go_project.Engine.Progress.finish_run go_project.Engine.Runtime.commit_any
    go_project.Engine.Loaded.to_changes go_project.Engine.Loaded.summary
    go_project.Engine.Runtime.definition_of go_project.Store.Postgres.Writes.create_run
    go_project.Store.Postgres.Writes.insert_run go_project.Store.Postgres.Writes.insert_events
    go_project.Store.Postgres.Writes.insert_event go_project.Store.Postgres.Writes.insert_task_rows
    go_project.Store.Postgres.Writes.insert_task_row go_project.Store.Postgres.Columns.run_columns
    go_project.Store.Postgres.Columns.event_columns go_project.Store.Postgres.Columns.task_columns
    go_project.Store.Postgres.Columns.json_column go_project.Store.Postgres.Columns.nullable_bytes
    go_project.Store.Postgres.Service.load go_project.Store.Postgres.Service.load_run
    go_project.Store.Postgres.Service.changes go_project.Store.Postgres.Service.commit
    go_project.Store.Postgres.Writes.append_run_changes go_project.Store.Postgres.Writes.update_run
    go_project.Store.Postgres.Writes.apply_mutations
    go_project.Store.Postgres.Writes.update_task_row go_project.Store.Postgres.Tasks.list_tasks
    go_project.Store.Sqlite.get_run go_project.Store.Sqlite.get_history
    go_project.Engine.Tasks.update_task_record go_project.History.Json.as_raw
called_off-runs = refl

Stored-IsNumbered_example : IsNumbered called_off
Stored-IsNumbered_example =
    let begin =
      started ids "orders" "run-1" (value (text "42")) [] (pos 1_000) begun.1 initialized
        begun-runs in
    Stored-IsNumbered database registry
      (called ids (cancel "run-1" "changed my mind") (pos 3_000) begin begin called_off-runs)

-- One task that is due.
abbrev stocked : Db
stocked = record { runs = []; events = []; tasks = ("task-1", pending) ∷ [] }

lease_tasks-refused_example :
    (All (λ task. is_offered database [] "default" (pos 2_000) task ≡ false) (rows stocked.tasks)
      × (lease_tasks database [] "default" "w" (pos 1) (pos 5_000_000_000) (pos 2_000) stocked
          ≡ ok (stocked, [])))
    ⊎ ((task : TaskRecord) × Memᴰ task (rows stocked.tasks)
        × (is_offered database [] "default" (pos 2_000) task ≡ true)
        × (lease_tasks database [] "default" "w" (pos 1) (pos 5_000_000_000) (pos 2_000) stocked
            ≡ err statement_refused))
lease_tasks-refused_example =
    lease_tasks-refused database statement_refused [] "default" "w" (pos 1) (pos 5_000_000_000)
      (pos 2_000) stocked refl
