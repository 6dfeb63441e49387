-- ===== src/Samples/Rules.antt =====
-- Concrete cases of the rules for payloads, delays, time stamps and compensation.
use go_project.Prelude.{
  IsDistinct, String, ℕ, pos, ok, err, some, none, List, [], ◌∷◌, ◌≡◌, ◌≢◌, refl, true, false,
  Option, Result, arith, ℤ, map, lookup, leb, ◌<ℤ◌, ap, sym,
}
use go_project.History.Json.{Json, value, text, number, absent, obj, member, end, flag}
use go_project.History.Payloads.{Payload, completed, task_completed}
use go_project.History.Codec.{marshal, decode}
use go_project.History.Codec.RoundTrip.{decode-marshal}
use go_project.Workflow.Types.{RetryPolicy, step_ids}
use go_project.Workflow.Retry.{normalize}
use go_project.Engine.Types.{TaskRecord, StepState, RunState}
use go_project.Engine.Backoff.{backoff_for_attempt}
use go_project.Engine.Backoff.Bounds.{backoff_for_attempt-min, backoff_above_limit}
use go_project.Engine.Reducer.{initial_state}
use go_project.Engine.Progress.{Log, schedule_forward_ready, next_compensation_step}
use go_project.Engine.Progress.Scheduling.{ready_ids, AllKeys, schedule_forward_ready-names}
use go_project.Engine.Progress.Unwinding.{Answer, next_compensation_step-Answer}
use go_project.Store.Times.{time_le}
use go_project.Store.Times.Order.{time_le-fraction}
use go_project.Samples.Orders.{ids, orders, no_changes}

abbrev completion : Payload
completion = completed (record {
  task_id = "task-2";
  step_id = "reserve";
  worker_id = "w";
  output = absent;
  compensation = false;
})

abbrev body_or : Result Json → Json
body_or (ok j) = j
body_or (err e) = Json.null

completion-marshal : marshal completion ≡ ok (body_or (marshal completion))
unfolding marshal go_project.History.Json.marshal_raw
completion-marshal = refl

decode-marshal_example :
    decode task_completed (value (body_or (marshal completion)))
    ≡ ok (
        completed (record {
          task_id = "task-2";
          step_id = "reserve";
          worker_id = "w";
          output = value Json.null;
          compensation = false;
        }))
unfolding go_project.History.Codec.RoundTrip.settle go_project.History.Payloads.event_type
decode-marshal_example = decode-marshal completion (body_or (marshal completion)) completion-marshal

backoff_for_attempt-min_example :
    backoff_for_attempt
      (record { max_attempts = pos 5; initial_backoff = pos 100; max_backoff = pos 350 })
      (pos 3)
    ≡ pos 350
backoff_for_attempt-min_example =
    backoff_for_attempt-min 5 100 350 3 (omega arith) (omega arith) (omega arith) (omega arith)

-- A first delay of eight seconds, and no limit given.
abbrev slow : RetryPolicy
slow = record { max_attempts = pos 3; initial_backoff = pos 8_000_000_000; max_backoff = pos 0 }

backoff_above_limit_example :
    ((normalize slow).max_backoff ≡ pos 5_000_000_000)
    × (backoff_for_attempt slow (pos 1) ≡ pos 8_000_000_000)
    × ((normalize slow).max_backoff <ℤ backoff_for_attempt slow (pos 1))
backoff_above_limit_example = backoff_above_limit slow (ground arith) (ground arith)

time_le-fraction_example : time_le (pos 7_500_000_000) (pos 7_510_000_000) ≡ false
time_le-fraction_example = time_le-fraction 7

-- The state before anything is scheduled.
abbrev fresh : Log
fresh = record { state = initial_state orders no_changes.run; seq = 1; events = [] }

-- Two steps have completed, and the first of them can be undone.
abbrev two_done : RunState
two_done = record fresh.state { completed_order = "reserve" ∷ "charge" ∷ [] }

next_compensation_step-Answer_example :
    Answer two_done.steps ("reserve" ∷ "charge" ∷ []) (next_compensation_step two_done)
next_compensation_step-Answer_example = next_compensation_step-Answer two_done

abbrev ready_or : Result (Log × List TaskRecord) → Log × List TaskRecord
ready_or (ok r) = r
ready_or (err e) = (fresh, [])

abbrev ready : Log × List TaskRecord
ready = ready_or (schedule_forward_ready ids no_changes.run orders (pos 1_000) fresh)

abbrev definition_id : Option StepState → String
definition_id none = ""
definition_id (some step) = step.definition.id

fresh-runs :
    (schedule_forward_ready ids no_changes.run orders (pos 1_000) fresh ≡ ok ready)
    × IsDistinct (step_ids orders)
    × AllKeys fresh.state (step_ids orders)
    × (ready_ids fresh.state (step_ids orders) ≡ "reserve" ∷ [])
unfolding schedule_forward_ready go_project.Engine.Progress.schedule_steps step_ids
    go_project.Engine.Progress.schedule_step lookup initial_state go_project.Prelude.insert
    go_project.Engine.Progress.is_ready go_project.Engine.Progress.is_started
    go_project.Engine.Reducer.dependencies_completed go_project.Workflow.Types.step_of
    go_project.Engine.Tasks.new_task go_project.Engine.Tasks.build_task_input
    go_project.History.Json.marshal_raw go_project.Engine.Tasks.normalize_json
    go_project.History.Json.raws_if_set go_project.Engine.Tasks.task_dependencies
    go_project.Engine.Tasks.dependency_outputs go_project.Engine.Tasks.make_event
    go_project.History.Events.new go_project.Engine.Progress.record_event
    go_project.Engine.Reducer.apply_event decode go_project.History.Json.as_text
    go_project.History.Json.field? go_project.History.Json.as_number go_project.History.Json.as_time
    go_project.History.Json.as_raws go_project.History.Json.as_flag
    go_project.Engine.Reducer.apply_payload go_project.Engine.Effects.apply_scheduled ready_ids
    go_project.Engine.Progress.Scheduling.ready_now
fresh-runs = (
  refl,
  (refl, (refl, (refl, tt))),
  (
    λ step h. ap definition_id (sym h),
    (λ step h. ap definition_id (sym h), (λ step h. ap definition_id (sym h), tt)),
  ),
  refl,
)

schedule_forward_ready-names_example :
    map (λ (task : TaskRecord). task.step_id) ready.1 ≡ ready_ids fresh.state (step_ids orders)
schedule_forward_ready-names_example =
    schedule_forward_ready-names ids no_changes.run orders (pos 1_000) fresh ready.0 ready.1
      fresh-runs.1 fresh-runs.2 fresh-runs.0
