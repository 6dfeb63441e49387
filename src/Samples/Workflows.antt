-- ===== src/Samples/Workflows.antt =====
-- A workflow that is built, one with a cycle, and the concrete cases of the rules for them.
use go_project.Prelude.{
  ◌⊎◌, String, Bool, true, false, ◌≡◌, ◌≢◌, refl, List, [], ◌∷◌, map, ok, err, Result, Assoc,
  lookup, contains, pos, cycle_at, Error, fuel_spent, some, none, if◌then◌else◌,
}
use go_project.History.Events.{Event}
use go_project.Workflow.Types.{Definition, step_ids, step_of}
use go_project.Workflow.Builder.{
  Builder, new, activity, timer, depends_on, with_compensation, Built, started, with_activity,
  with_timer,
}
use go_project.Workflow.Validate.{build}
use go_project.Workflow.Validate.Visits.{Walk}
use go_project.Workflow.Validate.Accepted.{
  IsWellFormed, build-IsWellFormed, build-acyclic, build-cycle, build-ne-fuel_spent,
}
use go_project.Engine.Types.{TaskRecord, StepState, RunState}
use go_project.Engine.Reducer.{dependencies_completed, replay, apply_events, initial_state}
use go_project.Engine.Progress.{Log, is_started, schedule_forward_ready}
use go_project.Engine.Progress.Scheduling.{ready_ids}
use go_project.Engine.Progress.Validated.{has_output, schedule_forward_ready-ready_ids, step_to_go}
use go_project.Samples.Orders.{ids, no_changes}

-- A reservation, a pause after it, and the shipment after both.
abbrev shop : Builder
shop = activity "ship" "ship" (depends_on ("reserve" ∷ "pause" ∷ []) ∷ []) (
    timer "pause" (pos 1_000) (depends_on ("reserve" ∷ []) ∷ [])
      (activity "reserve" "reserve" (with_compensation "release" "" ∷ []) (new "shop")))

shop-Built : Built shop
shop-Built = with_activity _ _ _ (with_timer _ _ _ (with_activity _ _ _ (started "shop")))

abbrev definition_or : Result Definition → Definition
definition_or (ok d) = d
definition_or (err e) = record { name = ""; steps = []; order = [] }

abbrev shop_definition : Definition
shop_definition = record { name = "shop"; steps = shop.steps; order = shop.order }

shop-runs : build shop ≡ ok shop_definition
unfolding build activity go_project.Workflow.Builder.put timer new go_project.Prelude.insert
    with_compensation depends_on go_project.Prelude.has_key
shop-runs = refl

build-IsWellFormed_example : IsWellFormed shop_definition
build-IsWellFormed_example = build-IsWellFormed shop shop_definition shop-Built shop-runs

ship-listed : contains (step_ids shop_definition) "ship" ≡ true
unfolding step_ids activity go_project.Workflow.Builder.put timer new go_project.Prelude.insert
    with_compensation depends_on go_project.Prelude.has_key
ship-listed = refl

build-acyclic_example : ¬ Walk shop_definition.steps "ship" "ship"
build-acyclic_example = build-acyclic shop shop_definition "ship" shop-runs ship-listed

-- The reservation waits for the shipment.
abbrev knot : Builder
knot =
    activity "ship" "ship" (depends_on ("reserve" ∷ []) ∷ [])
      (activity "reserve" "reserve" (depends_on ("ship" ∷ []) ∷ []) (new "knot"))

knot-runs : build knot ≡ err (cycle_at "reserve")
unfolding build activity go_project.Workflow.Builder.put new go_project.Prelude.insert depends_on
    go_project.Prelude.has_key
knot-runs = refl

build-cycle_example : Walk knot.steps "reserve" "reserve"
build-cycle_example = build-cycle knot "reserve" knot-runs

build-ne-fuel_spent_example : build knot ≢ err fuel_spent
build-ne-fuel_spent_example = build-ne-fuel_spent knot

abbrev log_of : RunState → Log
log_of s = record { state = s; seq = 1; events = [] }

abbrev state_or : Result RunState → RunState
state_or (ok s) = s
state_or (err e) = initial_state shop_definition no_changes.run

-- The state before any event.
abbrev blank : RunState
blank = state_or (replay shop_definition no_changes.run [])

abbrev ready_or : Result (Log × List TaskRecord) → Log × List TaskRecord
ready_or (ok r) = r
ready_or (err e) = (log_of blank, [])

abbrev first_tasks : Log × List TaskRecord
first_tasks =
    ready_or (schedule_forward_ready ids no_changes.run shop_definition (pos 1_000) (log_of blank))

blank-runs : replay shop_definition no_changes.run [] ≡ ok blank
unfolding replay
blank-runs = refl

blank-stays : apply_events blank [] ≡ ok blank
unfolding apply_events
blank-stays = refl

first_tasks-runs :
    schedule_forward_ready ids no_changes.run shop_definition (pos 1_000) (log_of blank)
    ≡ ok first_tasks
unfolding schedule_forward_ready activity go_project.Workflow.Builder.put timer new
    go_project.Prelude.insert with_compensation depends_on go_project.Prelude.has_key replay
    go_project.Engine.Progress.schedule_steps step_ids go_project.Engine.Progress.schedule_step
    lookup go_project.Engine.Progress.is_ready go_project.Engine.Progress.is_started
    go_project.Engine.Reducer.dependencies_completed go_project.Workflow.Types.step_of
    go_project.Engine.Tasks.new_task go_project.Engine.Tasks.build_task_input
    go_project.History.Json.marshal_raw go_project.Engine.Tasks.normalize_json
    go_project.History.Json.raws_if_set go_project.Engine.Tasks.task_dependencies
    go_project.Engine.Tasks.dependency_outputs go_project.Engine.Tasks.make_event
    go_project.History.Events.new go_project.Engine.Progress.record_event
    go_project.Engine.Reducer.apply_event go_project.History.Codec.decode
    go_project.History.Json.as_text go_project.History.Json.field? go_project.History.Json.as_number
    go_project.History.Json.as_time go_project.History.Json.as_raws go_project.History.Json.as_flag
    go_project.Engine.Reducer.apply_payload go_project.Engine.Effects.apply_scheduled
    go_project.Workflow.Retry.normalize
first_tasks-runs = refl

blank-undone : has_output blank "ship" ≡ false
unfolding has_output lookup replay
blank-undone = refl

schedule_forward_ready-ready_ids_example :
    map (λ (task : TaskRecord). task.step_id) first_tasks.1
    ≡ ready_ids blank (step_ids shop_definition)
schedule_forward_ready-ready_ids_example =
    schedule_forward_ready-ready_ids ids shop shop_definition no_changes.run [] [] (pos 1_000) blank
      (log_of blank) first_tasks.0 first_tasks.1 shop-Built shop-runs blank-runs blank-stays
      first_tasks-runs

step_to_go_example :
    (next : String) × (step : StepState) × (lookup next blank.steps ≡ some step)
    × (has_output blank next ≡ false)
    × (dependencies_completed (step_of shop_definition.steps next) blank ≡ true)
    × ((is_started step ≡ true)
        ⊎ (contains (ready_ids blank (step_ids shop_definition)) next ≡ true))
step_to_go_example =
    step_to_go shop shop_definition no_changes.run [] blank "ship" shop-Built shop-runs blank-runs
      ship-listed blank-undone
