-- ===== src/Engine/Progress/Unwinding.antt =====
-- The order in which `nextCompensationStep` of internal/engine/service.go unwinds a run.
use go_project.Prelude.{
  String, ◌≡◌, refl, ap, true, false, Option, none, some, List, [], ◌∷◌, ◌++◌, Assoc, lookup, arith,
  inl, inr, if◌then◌else◌, Bool-cases,
}
use go_project.Workflow.Types.{Step}
use go_project.Engine.Types.{StepState, RunState}
use go_project.Engine.Progress.{
  needs_compensation, candidate, or_else, last_candidate, next_compensation_step,
}

-- None of the steps `ids` has a compensation left to schedule.
abbrev pub AllUnwound : Assoc StepState → List String → Type 0
AllUnwound steps [] = Unit
AllUnwound steps (id ∷ ids) =
    ((step : StepState) → lookup id steps ≡ some step → needs_compensation step ≡ false)
    × AllUnwound steps ids

-- `step` is the definition of the last id in `order` that has a compensation left.
pub record IsLast (steps : Assoc StepState) (order : List String) (step : Step) : Type 0 where
  pub before : List String
  pub id : String
  pub after : List String
  pub state : StepState
  pub split : order ≡ before ++ id ∷ after
  pub found : lookup id steps ≡ some state
  pub needed : needs_compensation state ≡ true
  pub definition : state.definition ≡ step
  pub rest : AllUnwound steps after

-- What an answer says of the completed steps.
abbrev pub Answer : Assoc StepState → List String → Option Step → Type 0
Answer steps order none = AllUnwound steps order
Answer steps order (some step) = IsLast steps order step

candidate-Answer :
    (steps : Assoc StepState) (id : String) (ids : List String)
    → AllUnwound steps ids
    → Answer steps (id ∷ ids) (candidate steps id)
unfolding candidate
candidate-Answer steps id ids h = go (lookup id steps) refl
  where
    go :
        (o : Option StepState)
        → lookup id steps ≡ o
        → Answer steps (id ∷ ids) (elim o [
          | none ↦ none
          | some step ↦ if needs_compensation step then some step.definition else none
        ])
    go none e = (λ step f. ground arith, h)
    go (some state) e = elim (Bool-cases (needs_compensation state)) [
      | inl needed ↦ rw needed (record {
        before = [];
        id = id;
        after = ids;
        state = state;
        split = refl;
        found = e;
        needed = needed;
        definition = refl;
        rest = h;
      })
      | inr done ↦ rw done (λ step f. ground arith, h)
    ]

or_else-Answer :
    (steps : Assoc StepState) (id : String) (ids : List String) (o : Option Step)
    → Answer steps ids o
    → Answer steps (id ∷ ids) (or_else o (candidate steps id))
unfolding or_else
or_else-Answer steps id ids none h = candidate-Answer steps id ids h
or_else-Answer steps id ids (some step) h = record {
  before = id ∷ h.before;
  id = h.id;
  after = h.after;
  state = h.state;
  split = ap (λ r. id ∷ r) h.split;
  found = h.found;
  needed = h.needed;
  definition = h.definition;
  rest = h.rest;
}

last_candidate-Answer :
    (steps : Assoc StepState) (order : List String)
    → Answer steps order (last_candidate steps order)
unfolding last_candidate
last_candidate-Answer steps [] = tt
last_candidate-Answer steps (id ∷ ids) =
    or_else-Answer steps id ids (last_candidate steps ids) (last_candidate-Answer steps ids)

-- `nextCompensationStep` answers with the last step, in the order of completion, that has a
-- compensation which is neither scheduled nor completed, and with none only where no completed step
-- has one.
pub next_compensation_step-Answer :
    (s : RunState) → Answer s.steps s.completed_order (next_compensation_step s)
unfolding next_compensation_step
next_compensation_step-Answer s = last_candidate-Answer s.steps s.completed_order
