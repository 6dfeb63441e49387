-- ===== src/Engine/Progress.antt =====
-- How a run moves on after an event: scheduling, compensation and the end of the run, from
-- internal/engine/service.go.
pub mod Replays
pub mod Failure
pub mod Scheduling
pub mod Unwinding
pub mod Validated
use go_project.Prelude.{
  ℕ, ◌+◌, String, Bool, true, false, ◌&&◌, ◌||◌, not, Option, none, some, List, [], ◌∷◌, ◌++◌, ◌==◌,
  if◌then◌else◌, ℤ, pos, Result, ok, err, unknown_step, ◌>>=◌, Assoc, lookup, insert, any_value,
}
use go_project.History.Json.{Raw, value, obj, marshal_raws}
use go_project.History.Payloads.{Payload, compensating, finished, run_failure, run_cancel}
use go_project.History.Events.{Event}
use go_project.Workflow.Types.{Step, Definition, step_ids}
use go_project.Engine.Types.{
  TaskPhase, is_available, is_leased, is_completed, is_failed, is_cancelled, is_forward,
  is_compensation, RunRecord, TaskRecord, TaskMutation, insert_task, StepState, TaskState, RunState,
}
use go_project.Engine.Reducer.{apply_event, dependencies_completed}
use go_project.Engine.Effects.{null_json}
use go_project.Engine.Tasks.{make_event, new_task, new_compensation_task}

-- The state under the events made so far, the next sequence, and those events.
pub record Log : Type 0 where
  pub state : RunState
  pub seq : ℕ
  pub events : List Event

-- `events = append(events, event)` and `applyEvent(state, event)`, for an event that took the next
-- sequence.
unfoldable pub record_event : Event → Log → Result Log
record_event e log = apply_event log.state e >>= λ s.
    ok (record { state = s; seq = log.seq + 1; events = log.events ++ e ∷ [] })

-- `makeEvent`, then the same.
unfoldable pub emit : String → String → String → Payload → ℤ → Log → Result Log
emit run_id step_id task_id p now log =
    make_event run_id log.seq step_id task_id p now >>= λ e. record_event e log

-- The guard of `scheduleForwardReady`: the step has a task, or its forward part has ended.
unfoldable pub is_started : StepState → Bool
is_started step =
    not (step.forward_task_id == "")
    || is_completed step.forward_status
    || is_cancelled step.forward_status
    || is_failed step.forward_status

unfoldable pub is_ready : RunState → StepState → Bool
is_ready s step = not (is_started step) && dependencies_completed step.definition s

-- One round of the loop over the step ids.
unfoldable pub schedule_step :
    (ℕ → String) → RunRecord → ℤ → String → Log × List TaskRecord → Result (Log × List TaskRecord)
schedule_step uuid run now id (log, tasks) = elim (lookup id log.state.steps) [
  | none ↦ err (unknown_step id)
  | some step ↦
      if is_ready log.state step
      then (new_task uuid run log.state step.definition TaskPhase.forward (pos 1) now log.seq
          >>= λ made. record_event made.1 log >>= λ log'. ok (log', tasks ++ made.0 ∷ []))
      else ok (log, tasks)
]

unfoldable pub schedule_steps :
    (ℕ → String)
    → RunRecord
    → ℤ
    → List String
    → Log × List TaskRecord
    → Result (Log × List TaskRecord)
schedule_steps uuid run now [] acc = ok acc
schedule_steps uuid run now (id ∷ ids) acc =
    schedule_step uuid run now id acc >>= λ acc'. schedule_steps uuid run now ids acc'

-- `scheduleForwardReady`: its events are appended to those of the log.
unfoldable pub schedule_forward_ready :
    (ℕ → String) → RunRecord → Definition → ℤ → Log → Result (Log × List TaskRecord)
schedule_forward_ready uuid run d now log = schedule_steps uuid run now (step_ids d) (log, [])

-- What an operation works on: the run and the definition as loaded, the log with the state, the
-- task rows by id, and the mutations collected.
pub record Work : Type 0 where
  pub run : RunRecord
  pub definition : Definition
  pub log : Log
  pub tasks : Assoc TaskRecord
  pub mutations : List TaskMutation

-- A new task row joins the mutations and the rows.
unfoldable pub add_task : TaskRecord → Work → Work
add_task task w = record w {
  mutations = w.mutations ++ insert_task task ∷ [];
  tasks = insert task.id task w.tasks;
}

unfoldable pub add_tasks : List TaskRecord → Work → Work
add_tasks [] w = w
add_tasks (task ∷ tasks) w = add_tasks tasks (add_task task w)

is_open : (TaskPhase → Bool) → TaskState → Bool
is_open in_phase task = in_phase task.phase && (is_available task.status || is_leased task.status)

unfoldable pub has_open_forward_tasks : RunState → Bool
unfolding is_open
has_open_forward_tasks s = any_value (is_open is_forward) s.tasks

unfoldable pub has_open_compensation_tasks : RunState → Bool
unfolding is_open
has_open_compensation_tasks s = any_value (is_open is_compensation) s.tasks

-- The step has a compensation that was neither scheduled nor completed.
unfoldable pub needs_compensation : StepState → Bool
needs_compensation step = not (
    step.definition.compensation == ""
    || step.compensation_completed
    || step.compensation_scheduled)

candidate : Assoc StepState → String → Option Step
candidate steps id = elim (lookup id steps) [
  | none ↦ none
  | some step ↦ if needs_compensation step then some step.definition else none
]

or_else : Option Step → Option Step → Option Step
or_else (some step) other = some step
or_else none other = other

-- The loop of `nextCompensationStep` from the last index down: what is found behind an id wins.
unfoldable pub last_candidate : Assoc StepState → List String → Option Step
unfolding candidate or_else needs_compensation
last_candidate steps [] = none
last_candidate steps (id ∷ ids) = or_else (last_candidate steps ids) (candidate steps id)

unfoldable pub next_compensation_step : RunState → Option Step
next_compensation_step s = last_candidate s.steps s.completed_order

forward_completed : Option StepState → Bool
forward_completed none = false
forward_completed (some step) = is_completed step.forward_status

all_completed : List String → Assoc StepState → Bool
unfolding forward_completed
all_completed [] steps = true
all_completed (id ∷ ids) steps = forward_completed (lookup id steps) && all_completed ids steps

unfoldable pub all_forward_completed : Definition → RunState → Bool
unfolding all_completed
all_forward_completed d s = all_completed (step_ids d) s.steps

unfoldable pub build_run_output : RunState → Result Raw
build_run_output s = elim s.outputs [
  | [] ↦ ok null_json
  | _ ↦ marshal_raws s.outputs >>= λ m. ok (value (obj m))
]

-- `finishRunWithoutCompensation`.
unfoldable pub finish_run : ℤ → Work → Result Work
finish_run now w =
    let s = w.log.state in
    emit w.run.id "" ""
      (if s.cancel_requested
        then run_cancel (record { reason = s.run.cancel_reason })
        else run_failure (record { error = s.run.failure }))
      now w.log
    >>= λ log. ok (record w { log = log })

unfoldable pub schedule_compensation : (ℕ → String) → Step → ℤ → Work → Result Work
schedule_compensation uuid step now w =
    new_compensation_task uuid w.run w.log.state step now w.log.seq >>= λ made.
    record_event made.1 w.log >>= λ log. ok (add_task made.0 (record w { log = log }))

abbrev compensation_reason : RunState → String
compensation_reason s = if s.cancel_requested then s.run.cancel_reason else s.run.failure

unfoldable pub begin_compensation_or_finish : (ℕ → String) → ℤ → Work → Result Work
begin_compensation_or_finish uuid now w = elim (next_compensation_step w.log.state) [
  | some step ↦
      emit w.run.id "" "" (compensating (record { reason = compensation_reason w.log.state })) now
        w.log
      >>= λ log. schedule_compensation uuid step now (record w { log = log })
  | none ↦ finish_run now w
]

unfoldable pub advance_compensation : (ℕ → String) → ℤ → Work → Result Work
advance_compensation uuid now w =
    if has_open_compensation_tasks w.log.state
    then ok w
    else (elim (next_compensation_step w.log.state) [
      | some step ↦ schedule_compensation uuid step now w
      | none ↦ finish_run now w
    ])

-- The end of `postProcess`: a run whose forward steps are all done is completed.
unfoldable pub complete_if_done : ℤ → Work → Result Work
complete_if_done now w =
    let s = w.log.state in
    if all_forward_completed w.definition s && not (has_open_forward_tasks s)
    then (build_run_output s >>= λ output.
        emit w.run.id "" "" (finished (record { output = output })) now w.log >>= λ log.
        ok (record w { log = log }))
    else ok w

unfoldable pub post_process : (ℕ → String) → ℤ → Work → Result Work
post_process uuid now w =
    if w.log.state.compensating
    then advance_compensation uuid now w
    else (schedule_forward_ready uuid w.run w.definition now w.log >>= λ ready.
        complete_if_done now (add_tasks ready.1 (record w { log = ready.0 })))
