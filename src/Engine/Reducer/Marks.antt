-- ===== src/Engine/Reducer/Marks.antt =====
-- The `DependenciesSatisfied` marks that `Replay` (internal/engine/reducer.go) sets last, under further
-- events.
use go_project.Prelude.{
  String, ◌≡◌, refl, ap, sym, ◌∙◌, Bool, Option, none, some, List, [], ◌∷◌, arith, ok, ◌>>=◌,
  >>=-eq-ok, ok-injective, Result-cases, inl, inr, Assoc, lookup, insert,
}
use go_project.History.Payloads.{Payload, started}
use go_project.History.Codec.{decode}
use go_project.History.Events.{Event}
use go_project.Workflow.Types.{Step}
use go_project.Engine.Types.{StepState, RunState}
use go_project.Engine.Reducer.{
  apply_payload, apply_event, apply_events, stamp, mark_satisfied, mark_steps,
  dependencies_completed,
}
use go_project.Engine.Effects.{
  apply_started, apply_scheduled, apply_leased, apply_heartbeat, apply_completed, apply_failed,
  apply_retry_scheduled, apply_lease_expired, apply_cancelled, apply_timer_fired,
  apply_compensating,
}

-- Marks that depend on the definition of a step.
abbrev mark_step : (Step → Bool) → StepState → StepState
mark_step g step = record step { dependencies_satisfied = g step.definition }

pub mark_all : (Step → Bool) → Assoc StepState → Assoc StepState
mark_all g [] = []
mark_all g ((id, step) ∷ steps) = (id, mark_step g step) ∷ mark_all g steps

abbrev pub marked : (Step → Bool) → RunState → RunState
marked g s = record s { steps = mark_all g s.steps }

abbrev mark_found : (Step → Bool) → Option StepState → Option StepState
mark_found g none = none
mark_found g (some step) = some (mark_step g step)

lookup-mark_all :
    (g : Step → Bool) (id : String) (steps : Assoc StepState)
    → lookup id (mark_all g steps) ≡ mark_found g (lookup id steps)
unfolding lookup mark_all
lookup-mark_all g id [] = refl
lookup-mark_all g id ((k, step) ∷ steps) = ground (arith, lookup-mark_all g id steps)

insert-mark_all :
    (g : Step → Bool) (id : String) (step : StepState) (steps : Assoc StepState)
    → insert id (mark_step g step) (mark_all g steps) ≡ mark_all g (insert id step steps)
unfolding insert mark_all
insert-mark_all g id step [] = refl
insert-mark_all g id step ((k, old) ∷ steps) = ground (arith, insert-mark_all g id step steps)

module _ (g : Step → Bool) (e : Event) where
  apply_payload-marked :
      (p : Payload) (s : RunState)
      → apply_payload e p (marked g s) ≡ (apply_payload e p s >>= λ t. ok (marked g t))
  unfolding apply_payload apply_started apply_scheduled apply_leased apply_heartbeat apply_completed
      apply_failed apply_retry_scheduled apply_lease_expired apply_cancelled apply_timer_fired
      apply_compensating
  apply_payload-marked (started p) s = refl
  apply_payload-marked p s = grind (arith, lookup-mark_all, insert-mark_all)

  apply_event-marked :
      (s : RunState) → apply_event (marked g s) e ≡ (apply_event s e >>= λ t. ok (marked g t))
  unfolding apply_event
  apply_event-marked s = elim (Result-cases (decode e.type e.payload)) [
    | inl (p, h) ↦ rw h (apply_payload-marked p (stamp e s))
    | inr (x, h) ↦ rw h
  ]

apply_events-marked :
    (g : Step → Bool) (s : RunState) (es : List Event)
    → apply_events (marked g s) es ≡ (apply_events s es >>= λ t. ok (marked g t))
unfolding apply_events
apply_events-marked g s [] = refl
apply_events-marked g s (e ∷ es) = elim (Result-cases (apply_event s e)) [
  | inl (t, h) ↦ rw (apply_event-marked g e s, h, apply_events-marked g t es)
  | inr (x, h) ↦ rw (apply_event-marked g e s, h)
]

mark_steps-mark_all :
    (s : RunState) (steps : Assoc StepState)
    → mark_steps s steps ≡ mark_all (λ step. dependencies_completed step s) steps
unfolding mark_steps mark_all
mark_steps-mark_all s [] = refl
mark_steps-mark_all s ((id, step) ∷ steps) =
    ap (λ r. (id, mark_step (λ d. dependencies_completed d s) step) ∷ r)
      (mark_steps-mark_all s steps)

mark_steps-marked :
    (g : Step → Bool) (t : RunState) (steps : Assoc StepState)
    → mark_steps (marked g t) (mark_all g steps) ≡ mark_steps t steps
unfolding mark_steps mark_all
mark_steps-marked g t [] = refl
mark_steps-marked g t ((id, step) ∷ steps) =
    ap (λ r. (id, mark_step (λ d. dependencies_completed d t) step) ∷ r)
      (mark_steps-marked g t steps)

mark_satisfied-marked :
    (s : RunState) → mark_satisfied s ≡ marked (λ step. dependencies_completed step s) s
unfolding mark_satisfied
mark_satisfied-marked s = ap (λ r. record s { steps = r }) (mark_steps-mark_all s s.steps)

mark_satisfied_again :
    (g : Step → Bool) (t : RunState) → mark_satisfied (marked g t) ≡ mark_satisfied t
unfolding mark_satisfied
mark_satisfied_again g t = ap (λ r. record t { steps = r }) (mark_steps-marked g t t.steps)

-- From a state that `Replay` has marked, a history leads where it leads from the unmarked state,
-- up to the marks, which marking again sets anew.
pub apply_events-mark_satisfied :
    (s : RunState) (es : List Event) {u : RunState}
    → apply_events (mark_satisfied s) es ≡ ok u
    → (t : RunState) × (apply_events s es ≡ ok t)
      × (t.run ≡ u.run)
      × (mark_satisfied t ≡ mark_satisfied u)
apply_events-mark_satisfied s es {u} h =
    let g : Step → Bool = λ d. dependencies_completed d s in
    let (t, ht, hu) =
      >>=-eq-ok (apply_events s es) (λ t. ok (marked g t))
        (sym (apply_events-marked g s es)
          ∙ ap (λ r. apply_events r es) (sym (mark_satisfied-marked s))
          ∙ h) in
    (
      t,
      ht,
      ap (λ (r : RunState). r.run) (ok-injective hu),
      sym (mark_satisfied_again g t) ∙ ap mark_satisfied (ok-injective hu),
    )
