-- ===== src/Engine/Progress/Replays.antt =====
-- The log of an operation of internal/engine/service.go: its events against its state and sequences.
use go_project.Prelude.{
  ℕ, ◌+◌, String, ◌≡◌, refl, ◌∙◌, lookup, ◌&&◌, List, [], ◌∷◌, ◌++◌, arith, ℤ, ok, length,
  length-append, Ensures, Ensures-ok, Ensures-bind, Ensures-bind-eq, Ensures-if, Ensures-elim,
  Ensures-err,
}
use go_project.History.Events.{Event, new}
use go_project.History.Payloads.{Payload}
use go_project.History.Codec.{marshal}
use go_project.Workflow.Types.{Step, Definition, step_ids}
use go_project.Engine.Types.{TaskPhase, RunState, RunRecord, TaskRecord}
use go_project.Engine.Reducer.{apply_event, apply_events}
use go_project.Engine.Reducer.Fold.{apply_events-snoc}
use go_project.Engine.Tasks.{make_event, build_task_input, new_task, new_compensation_task}
use go_project.Engine.Progress.{
  Log, record_event, emit, is_ready, schedule_step, schedule_steps, schedule_forward_ready, Work,
  add_task, add_tasks, has_open_compensation_tasks, next_compensation_step, all_forward_completed,
  build_run_output, finish_run, schedule_compensation, begin_compensation_or_finish,
  advance_compensation, complete_if_done, post_process,
}

-- The sequences of `es` are `n`, `n + 1`, …
abbrev pub Consecutive : ℕ → List Event → Type 0
Consecutive n [] = Unit
Consecutive n (e ∷ es) = (e.sequence ≡ n) × Consecutive (n + 1) es

Consecutive-snoc :
    (n : ℕ) (es : List Event) (e : Event)
    → Consecutive n es
    → e.sequence ≡ n + length es
    → Consecutive n (es ++ e ∷ [])
Consecutive-snoc n [] e h k = omega arith
Consecutive-snoc n (f ∷ es) e h k = (h.0, Consecutive-snoc (n + 1) es e h.1 (omega arith))

-- All events of `es` are of the run `id`.
abbrev pub AllOf : String → List Event → Type 0
AllOf id [] = Unit
AllOf id (e ∷ es) = (e.run_id ≡ id) × AllOf id es

AllOf-snoc :
    (id : String) (es : List Event) (e : Event)
    → AllOf id es
    → e.run_id ≡ id
    → AllOf id (es ++ e ∷ [])
AllOf-snoc id [] e h own = (own, tt)
AllOf-snoc id (f ∷ es) e h own = (h.0, AllOf-snoc id es e h.1 own)

-- What is known of the events of a log and of its state, and goes on under further events.
abbrev pub IsClosed : (List Event → RunState → Type 0) → Type 0
IsClosed reached =
    (es : List Event) (e : Event) (t u : RunState)
    → reached es t
    → apply_event t e ≡ ok u
    → reached (es ++ e ∷ []) u

-- A log of the run `id` that began at sequence `n`.
pub record Extends (id : String) (Reached : List Event → RunState → Type 0) (n : ℕ) (log : Log)
    : Type 0 where
  pub closed : IsClosed Reached
  pub reached : Reached log.events log.state
  pub numbered : Consecutive n log.events
  pub owned : AllOf id log.events
  pub counted : log.seq ≡ n + length log.events

-- The events lead from the state `s` to the state of the log.
abbrev pub From : RunState → List Event → RunState → Type 0
From s es t = apply_events s es ≡ ok t

pub From-IsClosed : (s : RunState) → IsClosed (From s)
From-IsClosed s es e t u h k = apply_events-snoc s es e h k

pub record_event-Extends :
    {id : String} {R : List Event → RunState → Type 0} {n : ℕ} (e : Event) (log : Log)
    → Extends id R n log
    → (e.sequence ≡ log.seq) × (e.run_id ≡ id)
    → Ensures (Extends id R n) (record_event e log)
unfolding record_event
record_event-Extends {id} {R} {n} e log x (q, own) =
    Ensures-bind-eq (apply_event log.state e) λ t ht. Ensures-ok (record {
      closed = x.closed;
      reached = x.closed log.events e log.state t x.reached ht;
      numbered = Consecutive-snoc n log.events e x.numbered (omega (arith, x.counted));
      owned = AllOf-snoc id log.events e x.owned own;
      counted = omega (arith, x.counted, length-append log.events (e ∷ []));
    })

pub new-run_id :
    (run_id step_id task_id : String) (p : Payload) (now : ℤ)
    → Ensures (λ (e : Event). e.run_id ≡ run_id) (new run_id step_id task_id p now)
unfolding new
new-run_id run_id step_id task_id p now = Ensures-bind-eq (marshal p) λ body _. Ensures-ok refl

-- An event that `makeEvent` returns has the sequence that it was asked for, and is of the run.
pub make_event-sequence :
    {id : String} (run_id : String) (seq : ℕ) (step_id task_id : String) (p : Payload) (now : ℤ)
    → run_id ≡ id
    → Ensures
        (λ e. (e.sequence ≡ seq) × (e.run_id ≡ id))
        (make_event run_id seq step_id task_id p now)
unfolding make_event
make_event-sequence run_id seq step_id task_id p now own =
    Ensures-bind (new run_id step_id task_id p now) (new-run_id run_id step_id task_id p now)
      λ e _ h. Ensures-ok (refl, h ∙ own)

pub emit-Extends :
    {id : String} {R : List Event → RunState → Type 0} {n : ℕ} (run_id step_id task_id : String)
    (p : Payload) (now : ℤ) (log : Log)
    → run_id ≡ id
    → Extends id R n log
    → Ensures (Extends id R n) (emit run_id step_id task_id p now log)
unfolding emit
emit-Extends run_id step_id task_id p now log own x =
    Ensures-bind (make_event run_id log.seq step_id task_id p now)
      (make_event-sequence run_id log.seq step_id task_id p now own)
      λ e he q. record_event-Extends e log x q

new_task-sequence :
    {id : String} (uuid : ℕ → String) (run : RunRecord) (s : RunState) (step : Step)
    (phase : TaskPhase) (attempt now : ℤ) (seq : ℕ)
    → run.id ≡ id
    → Ensures
        (λ made. (made.1.sequence ≡ seq) × (made.1.run_id ≡ id))
        (new_task uuid run s step phase attempt now seq)
unfolding new_task
new_task-sequence uuid run s step phase attempt now seq own =
    Ensures-bind-eq (build_task_input run s step _ attempt) λ built hb.
      Ensures-bind (make_event run.id seq step.id _ _ now)
        (make_event-sequence run.id seq step.id _ _ now own) λ e he q. Ensures-ok q

schedule_step-Extends :
    {id : String} {R : List Event → RunState → Type 0} {n : ℕ} (uuid : ℕ → String) (run : RunRecord)
    (now : ℤ) (step_id : String) (acc : Log × List TaskRecord)
    → run.id ≡ id
    → Extends id R n acc.0
    → Ensures (λ acc'. Extends id R n acc'.0) (schedule_step uuid run now step_id acc)
unfolding schedule_step
schedule_step-Extends uuid run now step_id (log, tasks) own x =
    Ensures-elim (lookup step_id log.state.steps) (λ _. Ensures-err _)
      λ step _.
        Ensures-if (is_ready log.state step)
          (λ _.
            Ensures-bind (new_task uuid run log.state step.definition _ _ now log.seq)
              (new_task-sequence uuid run log.state step.definition _ _ now log.seq own)
              λ made _ q.
                Ensures-bind (record_event made.1 log) (record_event-Extends made.1 log x q)
                  λ log' _ x'. Ensures-ok x')
          (λ _. Ensures-ok x)

schedule_steps-Extends :
    {id : String} {R : List Event → RunState → Type 0} {n : ℕ} (uuid : ℕ → String) (run : RunRecord)
    (now : ℤ) (ids : List String) (acc : Log × List TaskRecord)
    → run.id ≡ id
    → Extends id R n acc.0
    → Ensures (λ acc'. Extends id R n acc'.0) (schedule_steps uuid run now ids acc)
unfolding schedule_steps
schedule_steps-Extends uuid run now [] acc own x = Ensures-ok x
schedule_steps-Extends uuid run now (step ∷ ids) acc own x =
    Ensures-bind (schedule_step uuid run now step acc)
      (schedule_step-Extends uuid run now step acc own x)
      λ acc' _ x'. schedule_steps-Extends uuid run now ids acc' own x'

pub schedule_forward_ready-Extends :
    {id : String} {R : List Event → RunState → Type 0} {n : ℕ} (uuid : ℕ → String) (run : RunRecord)
    (d : Definition) (now : ℤ) (log : Log)
    → run.id ≡ id
    → Extends id R n log
    → Ensures (λ ready. Extends id R n ready.0) (schedule_forward_ready uuid run d now log)
unfolding schedule_forward_ready
schedule_forward_ready-Extends uuid run d now log own x =
    schedule_steps-Extends uuid run now (step_ids d) (log, []) own x

add_tasks-log :
    (tasks : List TaskRecord) (w : Work)
    → ((add_tasks tasks w).log ≡ w.log) × ((add_tasks tasks w).run ≡ w.run)
unfolding add_tasks add_task
add_tasks-log [] w = (refl, refl)
add_tasks-log (task ∷ tasks) w = add_tasks-log tasks (add_task task w)

-- The same of what an operation on the run `id` works on.
abbrev pub Carries : String → (List Event → RunState → Type 0) → ℕ → Work → Type 0
Carries id R n w = Extends id R n w.log × (w.run.id ≡ id)

module _ {id : String} {R : List Event → RunState → Type 0} {n : ℕ} (uuid : ℕ → String) (now : ℤ)
    (w : Work) (x : Carries id R n w) where
  pub finish_run-Extends : Ensures (Carries id R n) (finish_run now w)
  unfolding finish_run
  finish_run-Extends =
      Ensures-bind (emit w.run.id "" "" _ now w.log)
        (emit-Extends w.run.id "" "" _ now w.log x.1 x.0) λ log _ x'. Ensures-ok (x', x.1)

  pub schedule_compensation-Extends :
      (step : Step) → Ensures (Carries id R n) (schedule_compensation uuid step now w)
  unfolding schedule_compensation new_compensation_task add_task
  schedule_compensation-Extends step =
      Ensures-bind (new_task uuid w.run w.log.state _ _ _ now w.log.seq)
        (new_task-sequence uuid w.run w.log.state _ _ _ now w.log.seq x.1)
        λ made _ q.
          Ensures-bind (record_event made.1 w.log) (record_event-Extends made.1 w.log x.0 q)
            λ log _ x'. Ensures-ok (x', x.1)

  complete_if_done-Extends : Ensures (Carries id R n) (complete_if_done now w)
  unfolding complete_if_done
  complete_if_done-Extends =
      Ensures-if (all_forward_completed w.definition w.log.state && _)
        (λ _. Ensures-bind-eq (build_run_output w.log.state) λ output _.
          Ensures-bind (emit w.run.id "" "" _ now w.log)
            (emit-Extends w.run.id "" "" _ now w.log x.1 x.0) λ log _ x'. Ensures-ok (x', x.1))
        (λ _. Ensures-ok x)

module _ {id : String} {R : List Event → RunState → Type 0} {n : ℕ} (uuid : ℕ → String) (now : ℤ)
    (w : Work) (x : Carries id R n w) where
  pub advance_compensation-Extends : Ensures (Carries id R n) (advance_compensation uuid now w)
  unfolding advance_compensation
  advance_compensation-Extends =
      Ensures-if (has_open_compensation_tasks w.log.state) (λ _. Ensures-ok x)
        (λ _.
          Ensures-elim (next_compensation_step w.log.state) (λ _. finish_run-Extends uuid now w x)
            λ step _. schedule_compensation-Extends uuid now w x step)

  pub begin_compensation_or_finish-Extends :
      Ensures (Carries id R n) (begin_compensation_or_finish uuid now w)
  unfolding begin_compensation_or_finish
  begin_compensation_or_finish-Extends =
      Ensures-elim (next_compensation_step w.log.state) (λ _. finish_run-Extends uuid now w x)
        λ step _.
          Ensures-bind (emit w.run.id "" "" _ now w.log)
            (emit-Extends w.run.id "" "" _ now w.log x.1 x.0)
            λ log _ x'.
              schedule_compensation-Extends uuid now (record w { log = log }) (x', x.1) step

  pub post_process-Extends : Ensures (Carries id R n) (post_process uuid now w)
  unfolding post_process
  post_process-Extends =
      Ensures-if w.log.state.compensating (λ _. advance_compensation-Extends)
        (λ _.
          Ensures-bind (schedule_forward_ready uuid w.run w.definition now w.log)
            (schedule_forward_ready-Extends uuid w.run w.definition now w.log x.1 x.0)
            λ ready _ x'.
              complete_if_done-Extends uuid now (add_tasks ready.1 (record w { log = ready.0 })) (
                rw
                  (
                    (add_tasks-log ready.1 (record w { log = ready.0 })).0,
                    (add_tasks-log ready.1 (record w { log = ready.0 })).1,
                  )
                  (x', x.1)))
