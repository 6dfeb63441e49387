-- ===== src/Engine/Progress/Scheduling.antt =====
-- The tasks that `scheduleForwardReady` of internal/engine/service.go makes, against the steps that are
-- ready.
use go_project.Prelude.{
  IsDistinct, ℕ, String, ◌≡◌, refl, sym, ap, ◌∙◌, subst, Bool, true, false, Option, none, some,
  List, [], ◌∷◌, ◌++◌, map, ◌==◌, if◌then◌else◌, eq_iff, ℤ, ok, Assoc, lookup, insert,
  lookup-insert, contains, arith, Ensures, Ensures-ok, Ensures-err, Ensures-bind, Ensures-bind-eq,
  Ensures-if, Ensures-elim, append_assoc, append-nil, map-append,
}
use go_project.History.Json.{Raw}
use go_project.History.Payloads.{TaskScheduledPayload}
use go_project.History.Codec.{decode}
use go_project.History.Codec.RoundTrip.{settle}
use go_project.History.Events.{Event}
use go_project.Workflow.Types.{Step, Definition, step_ids}
use go_project.Engine.Types.{TaskStatus, TaskPhase, RunRecord, TaskRecord, StepState, RunState}
use go_project.Engine.Reducer.{apply_payload, apply_event, stamp, dependencies_completed}
use go_project.Engine.Effects.{apply_scheduled}
use go_project.Engine.Tasks.{make_event, task_row, build_task_input, new_task, scheduled_payload}
use go_project.Engine.Progress.{
  Log, record_event, is_ready, schedule_step, schedule_steps, schedule_forward_ready,
}
use go_project.Engine.Progress.Failure.{make_event-decode}

-- What a scheduled forward task changes of the steps.
pub record Scheduled (task_id step_id : String) (s t : RunState) : Type 0 where
  pub before : StepState
  pub after : StepState
  pub found : lookup step_id s.steps ≡ some before
  pub steps : t.steps ≡ insert step_id after s.steps
  pub definition : after.definition ≡ before.definition
  pub task : after.forward_task_id ≡ task_id
  pub outputs : t.outputs ≡ s.outputs

apply_scheduled-Scheduled :
    (p : TaskScheduledPayload) (s : RunState)
    → p.compensation ≡ false
    → Ensures (Scheduled p.task_id p.step_id s) (apply_scheduled p s)
unfolding apply_scheduled
apply_scheduled-Scheduled p s h =
    Ensures-elim (lookup p.step_id s.steps) (λ _. Ensures-err _)
      λ step found. Ensures-ok (record {
        before = step;
        after = record step {
          forward_status = TaskStatus.available;
          forward_task_id = p.task_id;
          forward_attempt = p.attempt;
        };
        found = found;
        steps = rw h refl;
        definition = refl;
        task = refl;
        outputs = refl;
      })

-- The event that comes with a new task announces that task.
pub record Announces (step : Step) (phase : TaskPhase) (id : String) (task : TaskRecord) (e : Event)
    : Type 0 where
  pub dependencies : Assoc Raw
  pub payload : decode e.type e.payload ≡ ok (settle (scheduled_payload task dependencies))
  pub step_id : task.step_id ≡ step.id
  pub phase_kept : task.phase ≡ phase
  pub task_id : task.id ≡ id

new_task-Announces :
    (uuid : ℕ → String) (run : RunRecord) (s : RunState) (step : Step) (phase : TaskPhase)
    (attempt now : ℤ) (seq : ℕ)
    → Ensures
        (λ made. Announces step phase (uuid seq) made.0 made.1)
        (new_task uuid run s step phase attempt now seq)
unfolding new_task task_row
new_task-Announces uuid run s step phase attempt now seq =
    Ensures-bind-eq (build_task_input run s step _ attempt) λ built _.
      let task = task_row uuid run step phase attempt now seq built.0 in
      Ensures-bind-eq (make_event run.id seq step.id task.id (scheduled_payload task built.1) now)
        λ e he. Ensures-ok (record {
          dependencies = built.1;
          payload = make_event-decode run.id seq step.id task.id _ now he;
          step_id = refl;
          phase_kept = refl;
          task_id = refl;
        })

unstamp :
    {task_id step_id : String} {t : RunState} (e : Event) (s : RunState)
    → Scheduled task_id step_id (stamp e s) t
    → Scheduled task_id step_id s t
unstamp e s x = record {
  before = x.before;
  after = x.after;
  found = x.found;
  steps = x.steps;
  definition = x.definition;
  task = x.task;
  outputs = x.outputs;
}

record_event-Scheduled :
    {step : Step} {id : String} {task : TaskRecord} (e : Event) (log : Log)
    → Announces step TaskPhase.forward id task e
    → Ensures (λ (log' : Log). Scheduled id step.id log.state log'.state) (record_event e log)
unfolding record_event apply_event settle scheduled_payload apply_payload
record_event-Scheduled {step} {id} {task} e log a = rw a.payload (
    Ensures-bind (apply_scheduled _ (stamp e log.state))
      (apply_scheduled-Scheduled _ (stamp e log.state) (rw a.phase_kept))
      λ t _ x. Ensures-ok (rw (← a.step_id, ← a.task_id) (unstamp e log.state x)))

-- Nothing but the step `id` has changed, and no output.
pub record Frame (id : String) (s t : RunState) : Type 0 where
  pub outputs : t.outputs ≡ s.outputs
  pub others : (j : String) → (id == j) ≡ false → lookup j t.steps ≡ lookup j s.steps

Scheduled-Frame : {task_id id : String} {s t : RunState} → Scheduled task_id id s t → Frame id s t
Scheduled-Frame {task_id} {id} {s} x = record {
  outputs = x.outputs;
  others = λ j h. rw x.steps (lookup-insert id j x.after s.steps ∙ rw h refl);
}

Frame-refl : (id : String) (s : RunState) → Frame id s s
Frame-refl id s = record { outputs = refl; others = λ j h. refl }

found_ready : RunState → Option StepState → Bool
found_ready s none = false
found_ready s (some step) = is_ready s step

-- The step `id` is there and ready to be scheduled.
unfoldable pub ready_now : RunState → String → Bool
unfolding found_ready
ready_now s id = found_ready s (lookup id s.steps)

-- The steps among `ids` that are ready in the state `s`.
unfoldable pub ready_ids : RunState → List String → List String
ready_ids s [] = []
ready_ids s (id ∷ ids) = if ready_now s id then id ∷ ready_ids s ids else ready_ids s ids

-- The definition of a step carries the id that the step is stored under.
abbrev pub KeyAt : RunState → String → Type 0
KeyAt s id = (step : StepState) → lookup id s.steps ≡ some step → step.definition.id ≡ id

abbrev pub AllKeys : RunState → List String → Type 0
AllKeys s [] = Unit
AllKeys s (id ∷ ids) = KeyAt s id × AllKeys s ids

abbrev step_names : List TaskRecord → List String
step_names tasks = map (λ (task : TaskRecord). task.step_id) tasks

record Outcome (id : String) (acc acc' : Log × List TaskRecord) : Type 0 where
  frame : Frame id acc.0.state acc'.0.state
  names : step_names acc'.1 ≡ step_names acc.1 ++ (if ready_now acc.0.state id then id ∷ [] else [])

ready_now_found :
    (id : String) (s : RunState) {step : StepState}
    → lookup id s.steps ≡ some step
    → ready_now s id ≡ is_ready s step
unfolding ready_now
ready_now_found id s h = rw h refl

schedule_step-Outcome :
    (uuid : ℕ → String) (run : RunRecord) (now : ℤ) (id : String) (log : Log)
    (tasks : List TaskRecord)
    → KeyAt log.state id
    → Ensures (Outcome id (log, tasks)) (schedule_step uuid run now id (log, tasks))
unfolding schedule_step
schedule_step-Outcome uuid run now id log tasks key =
    Ensures-elim (lookup id log.state.steps) (λ _. Ensures-err _)
      λ step found.
        Ensures-if (is_ready log.state step)
          (λ r.
            Ensures-bind (new_task uuid run log.state step.definition _ _ now log.seq)
              (new_task-Announces uuid run log.state step.definition TaskPhase.forward _ now
                log.seq)
              λ made _ a.
                Ensures-bind (record_event made.1 log) (record_event-Scheduled made.1 log a)
                  λ log' _ x. Ensures-ok (record {
                    frame =
                        subst (λ k. Frame k log.state log'.state) (key step found)
                          (Scheduled-Frame x);
                    names =
                        rw (ready_now_found id log.state found, r, map-append)
                          (ap (λ k. step_names tasks ++ k ∷ []) (a.step_id ∙ key step found));
                  }))
          (λ r. Ensures-ok (record {
            frame = Frame-refl id log.state;
            names = rw (ready_now_found id log.state found, r, append-nil);
          }))

-- Readiness of the other steps does not change with a frame.
is_ready-Frame :
    {id : String} {s t : RunState} (step : StepState)
    → Frame id s t
    → is_ready t step ≡ is_ready s step
unfolding is_ready dependencies_completed
is_ready-Frame step f = rw f.outputs

ready_now-Frame :
    {id : String} {s t : RunState} (j : String)
    → Frame id s t
    → (id == j) ≡ false
    → ready_now t j ≡ ready_now s j
unfolding ready_now
ready_now-Frame {id} {s} {t} j f h = rw (f.others j h) (go (lookup j s.steps))
  where
    go : (o : Option StepState) → found_ready t o ≡ found_ready s o
    go none = refl
    go (some step) = is_ready-Frame step f

ready_ids-Frame :
    {id : String} {s t : RunState} (ids : List String)
    → Frame id s t
    → contains ids id ≡ false
    → ready_ids t ids ≡ ready_ids s ids
unfolding ready_ids
ready_ids-Frame [] f h = refl
ready_ids-Frame {id} {s} {t} (j ∷ ids) f h = rw (
  ready_now-Frame j f (ground (arith, eq_iff j id, eq_iff id j)),
  ready_ids-Frame ids f (ground arith),
)

AllKeys-Frame :
    {id : String} {s t : RunState} (ids : List String)
    → Frame id s t
    → contains ids id ≡ false
    → AllKeys s ids
    → AllKeys t ids
AllKeys-Frame [] f h k = tt
AllKeys-Frame {id} (j ∷ ids) f h (k, ks) = (
  λ step found. k step (sym (f.others j (ground (arith, eq_iff j id, eq_iff id j))) ∙ found),
  AllKeys-Frame ids f (ground arith) ks,
)

join_names :
    (ready : Bool) (id : String) (old rest : List String) {new : List String}
    → new ≡ old ++ (if ready then id ∷ [] else [])
    → new ++ rest ≡ old ++ (if ready then id ∷ rest else rest)
join_names true id old rest h = rw h (append_assoc old (id ∷ []) rest)
join_names false id old rest h = rw (h, append-nil)

schedule_steps-names :
    (uuid : ℕ → String) (run : RunRecord) (now : ℤ) (ids : List String) (log : Log)
    (tasks : List TaskRecord)
    → IsDistinct ids
    → AllKeys log.state ids
    → Ensures
        (λ acc. step_names acc.1 ≡ step_names tasks ++ ready_ids log.state ids)
        (schedule_steps uuid run now ids (log, tasks))
unfolding schedule_steps ready_ids
schedule_steps-names uuid run now [] log tasks d k = Ensures-ok (rw append-nil)
schedule_steps-names uuid run now (id ∷ ids) log tasks d k =
    Ensures-bind (schedule_step uuid run now id (log, tasks))
      (schedule_step-Outcome uuid run now id log tasks k.0)
      λ acc' _ o. rest acc' o (
        schedule_steps-names uuid run now ids acc'.0 acc'.1 d.1 (AllKeys-Frame ids o.frame d.0 k.1))
  where
    rest :
        (acc' : Log × List TaskRecord)
        → Outcome id (log, tasks) acc'
        → Ensures
            (λ acc. step_names acc.1 ≡ step_names acc'.1 ++ ready_ids acc'.0.state ids)
            (schedule_steps uuid run now ids acc')
        → Ensures
            (λ acc.
              step_names acc.1
              ≡ step_names tasks
                ++ (if ready_now log.state id
                    then id ∷ ready_ids log.state ids
                    else ready_ids log.state ids))
            (schedule_steps uuid run now ids acc')
    rest acc' o ih = record {
      holds = λ acc h.
          ih.holds acc h
          ∙ rw (ready_ids-Frame ids o.frame d.0) (
              join_names (ready_now log.state id) id (step_names tasks) (ready_ids log.state ids)
                o.names);
    }

-- `scheduleForwardReady` makes a task for exactly the steps of the definition that are ready in the
-- state it is called with, in the order of the definition, if no step id stands twice there and
-- every step carries its own id.
pub schedule_forward_ready-names :
    (uuid : ℕ → String) (run : RunRecord) (d : Definition) (now : ℤ) (log log' : Log)
    (tasks : List TaskRecord)
    → IsDistinct (step_ids d)
    → AllKeys log.state (step_ids d)
    → schedule_forward_ready uuid run d now log ≡ ok (log', tasks)
    → map (λ (task : TaskRecord). task.step_id) tasks ≡ ready_ids log.state (step_ids d)
unfolding schedule_forward_ready
schedule_forward_ready-names uuid run d now log log' tasks distinct keys h =
    (schedule_steps-names uuid run now (step_ids d) log [] distinct keys).holds (log', tasks) h
