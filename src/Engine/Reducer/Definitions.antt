-- ===== src/Engine/Reducer/Definitions.antt =====
-- The steps of the run state in internal/engine/reducer.go, and the definition that each carries.
use go_project.Prelude.{
  String, Bool, true, false, ◌≡◌, refl, ◌∙◌, subst, Option, none, some, List, [], ◌∷◌, ◌==◌,
  if◌then◌else◌, eq_iff, eq_refl, arith, ok, Assoc, lookup, insert, lookup-insert, contains,
  Bool-cases, Option-cases, inl, inr, Ensures, Ensures-ok, Ensures-err, Ensures-bind,
  Ensures-bind-eq, Ensures-elim, Ensures-map,
}
use go_project.History.Payloads.{
  Payload, started, scheduled, leased, heartbeat, completed, failed, retry_scheduled, lease_expired,
  cancelled, timer, cancel_requested, compensating, finished, run_failure, run_cancel,
}
use go_project.History.Codec.{decode}
use go_project.History.Events.{Event}
use go_project.Workflow.Types.{Step, Definition, step_of, step_ids}
use go_project.Engine.Types.{TaskPhase, is_forward, RunRecord, StepState, RunState}
use go_project.Engine.Effects.{
  touch_forward, apply_started, apply_scheduled, apply_leased, apply_heartbeat, apply_completed,
  apply_failed, apply_retry_scheduled, apply_lease_expired, apply_cancelled, apply_timer_fired,
  apply_compensating,
}
use go_project.Engine.Reducer.{
  apply_payload, apply_event, apply_events, initial_state, initial_steps, mark_satisfied,
  mark_steps, replay, stamp,
}

abbrev definition_of : Option StepState → Option Step
definition_of none = none
definition_of (some step) = some step.definition

-- The definition that the step `id` of a state carries.
abbrev pub definition_at : Assoc StepState → String → Option Step
definition_at steps id = definition_of (lookup id steps)

-- Two states whose steps carry the same definitions.
pub record SameSteps (s t : RunState) : Type 0 where
  pub at : (id : String) → definition_at t.steps id ≡ definition_at s.steps id

insert-definition :
    (id : String) (old new : StepState) (steps : Assoc StepState)
    → lookup id steps ≡ some old
    → new.definition ≡ old.definition
    → (k : String) → definition_at (insert id new steps) k ≡ definition_at steps k
insert-definition id old new steps found same k =
    ground (arith, lookup-insert id k new steps, eq_iff id k)

either :
    (b : Bool) (x y z : StepState)
    → x.definition ≡ z.definition
    → y.definition ≡ z.definition
    → (if b then x else y).definition ≡ z.definition
either true x y z p q = p
either false x y z p q = q

touch_forward-SameSteps :
    (phase : TaskPhase) (id : String) (f : StepState → StepState) (s t : RunState)
    → t.steps ≡ s.steps
    → ((step : StepState) → (f step).definition ≡ step.definition)
    → SameSteps s (touch_forward phase id f t)
touch_forward-SameSteps phase id f s t e kept = elim (Option-cases (lookup id t.steps)) [
  | inl missing ↦ rw (missing, touch_forward) (record { at = λ k. rw e refl })
  | inr (step, found) ↦
      rw (found, touch_forward)
        (elim (Bool-cases (is_forward phase)) [
          | inl forward ↦ rw forward (record {
            at = λ k. insert-definition id step (f step) t.steps found (kept step) k ∙ rw e refl;
          })
          | inr back ↦ rw back (record { at = λ k. rw e refl })
        ])
]

apply_payload-SameSteps :
    (e : Event) (p : Payload) (s : RunState) → Ensures (SameSteps s) (apply_payload e p s)
unfolding apply_payload apply_started apply_scheduled apply_leased apply_heartbeat apply_completed
    apply_failed apply_retry_scheduled apply_lease_expired apply_cancelled apply_timer_fired
    apply_compensating
apply_payload-SameSteps e (started p) s = Ensures-ok (record { at = λ id. refl })
apply_payload-SameSteps e (scheduled p) s =
    Ensures-elim (lookup p.step_id s.steps) (λ _. Ensures-err _)
      λ step found. Ensures-ok (record {
        at =
            insert-definition p.step_id step _ s.steps found
              (either p.compensation _ _ step refl refl);
      })
apply_payload-SameSteps e (leased p) s =
    Ensures-elim (lookup p.task_id s.tasks) (λ _. Ensures-err _)
      λ task _. Ensures-ok (touch_forward-SameSteps task.phase p.step_id _ s _ refl (λ step. refl))
apply_payload-SameSteps e (heartbeat p) s =
    Ensures-elim (lookup e.task_id s.tasks) (λ _. Ensures-err _)
      λ task _. Ensures-ok (record { at = λ id. refl })
apply_payload-SameSteps e (completed p) s =
    Ensures-elim (lookup p.task_id s.tasks) (λ _. Ensures-err _)
      λ task _.
        Ensures-elim (lookup p.step_id s.steps) (λ _. Ensures-err _)
          λ step found. elim (Bool-cases p.compensation) [
            | inl back ↦
                rw back (
                  Ensures-ok
                    (record { at = insert-definition p.step_id step _ s.steps found refl }))
            | inr forth ↦
                rw forth (
                  Ensures-ok
                    (record { at = insert-definition p.step_id step _ s.steps found refl }))
          ]
apply_payload-SameSteps e (failed p) s =
    Ensures-elim (lookup p.task_id s.tasks) (λ _. Ensures-err _)
      λ task _.
        Ensures-elim (lookup p.step_id s.steps) (λ _. Ensures-err _)
          λ step found. Ensures-ok (record {
            at =
                insert-definition p.step_id step _ s.steps found
                  (either p.compensation _ _ step refl refl);
          })
apply_payload-SameSteps e (retry_scheduled p) s =
    Ensures-elim (lookup p.task_id s.tasks) (λ _. Ensures-err _)
      λ task _. Ensures-ok (touch_forward-SameSteps task.phase p.step_id _ s _ refl (λ step. refl))
apply_payload-SameSteps e (lease_expired p) s =
    Ensures-elim (lookup p.task_id s.tasks) (λ _. Ensures-err _)
      λ task _. Ensures-ok (record { at = λ id. refl })
apply_payload-SameSteps e (cancelled p) s =
    Ensures-elim (lookup p.task_id s.tasks) (λ _. Ensures-err _)
      λ task _. Ensures-ok (touch_forward-SameSteps _ p.step_id _ s _ refl (λ step. refl))
apply_payload-SameSteps e (timer p) s =
    Ensures-elim (lookup p.task_id s.tasks) (λ _. Ensures-err _)
      λ task _.
        Ensures-elim (lookup p.step_id s.steps) (λ _. Ensures-err _)
          λ step found.
            Ensures-ok (record { at = insert-definition p.step_id step _ s.steps found refl })
apply_payload-SameSteps e (cancel_requested p) s = Ensures-ok (record { at = λ id. refl })
apply_payload-SameSteps e (compensating p) s = Ensures-ok (record { at = λ id. refl })
apply_payload-SameSteps e (finished p) s = Ensures-ok (record { at = λ id. refl })
apply_payload-SameSteps e (run_failure p) s = Ensures-ok (record { at = λ id. refl })
apply_payload-SameSteps e (run_cancel p) s = Ensures-ok (record { at = λ id. refl })

pub apply_event-SameSteps : (s : RunState) (e : Event) → Ensures (SameSteps s) (apply_event s e)
unfolding apply_event
apply_event-SameSteps s e =
    Ensures-bind-eq (decode e.type e.payload)
      λ p _. Ensures-map (apply_payload-SameSteps e p (stamp e s)) λ t _ h. record { at = h.at }

pub apply_events-SameSteps :
    (s : RunState) (es : List Event) → Ensures (SameSteps s) (apply_events s es)
unfolding apply_events
apply_events-SameSteps s [] = Ensures-ok (record { at = λ id. refl })
apply_events-SameSteps s (e ∷ es) =
    Ensures-bind (apply_event s e) (apply_event-SameSteps s e) λ t _ h.
      Ensures-map (apply_events-SameSteps t es) λ u _ k. record { at = λ id. k.at id ∙ h.at id }

definition-join :
    (defs : Assoc Step) (ids : List String) (acc : Assoc StepState) (id k : String)
    (new : StepState)
    → new.definition ≡ step_of defs id
    → (if contains ids k then some (step_of defs k) else definition_at (insert id new acc) k)
      ≡ (if contains (id ∷ ids) k then some (step_of defs k) else definition_at acc k)
definition-join defs ids acc id k new same = elim (Bool-cases (id == k)) [
  | inl now ↦
      subst
        (λ j.
          (if contains ids j then some (step_of defs j) else definition_at (insert id new acc) j)
          ≡ (if contains (id ∷ ids) j then some (step_of defs j) else definition_at acc j))
        ((eq_iff id k).0 now) (ground (arith, lookup-insert id id new acc, eq_refl id))
  | inr later ↦ ground (arith, lookup-insert id k new acc)
]

initial_steps-definition :
    (defs : Assoc Step) (ids : List String) (acc : Assoc StepState) (k : String)
    → definition_at (initial_steps defs ids acc) k
      ≡ (if contains ids k then some (step_of defs k) else definition_at acc k)
unfolding initial_steps
initial_steps-definition defs [] acc k = refl
initial_steps-definition defs (id ∷ ids) acc k =
    initial_steps-definition defs ids (insert id _ acc) k ∙ definition-join defs ids acc id k _ refl

mark_steps-definition :
    (s : RunState) (steps : Assoc StepState) (k : String)
    → definition_at (mark_steps s steps) k ≡ definition_at steps k
unfolding mark_steps lookup
mark_steps-definition s [] k = refl
mark_steps-definition s ((id, step) ∷ steps) k = ground (arith, mark_steps-definition s steps k)

-- A replayed state has exactly the steps of the definition, and each of them carries its definition.
pub replay-definitions :
    (d : Definition) (run : RunRecord) (es : List Event) {s : RunState} (id : String)
    → replay d run es ≡ ok s
    → definition_at s.steps id
      ≡ (if contains (step_ids d) id then some (step_of d.steps id) else none)
unfolding replay mark_satisfied initial_state step_ids lookup
replay-definitions d run es {s} id e =
    (Ensures-bind
        {Q = λ (t : RunState).
          definition_at t.steps id
          ≡ (if contains d.order id then some (step_of d.steps id) else none)}
        (apply_events (initial_state d run) es) (apply_events-SameSteps (initial_state d run) es)
        λ t _ h. Ensures-ok (
          mark_steps-definition t t.steps id
          ∙ h.at id
          ∙ initial_steps-definition d.steps d.order [] id)).holds
      s e
