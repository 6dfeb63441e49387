-- ===== src/Workflow/Types.antt =====
-- `RetryPolicy`, `Step` and `Definition` of pkg/workflow/workflow.go, and the lookups of a
-- definition. Durations and `int` settings are signed, since the code tests them for `<= 0`.
use go_project.Prelude.{
  String, Bool, Option, none, some, List, [], ◌∷◌, if◌then◌else◌, ℤ, pos, Assoc, lookup, contains,
}

-- `StepKind` is a string in the source.
abbrev pub step_kind_activity : String
step_kind_activity = "activity"

abbrev pub step_kind_timer : String
step_kind_timer = "timer"

pub record RetryPolicy : Type 0 where
  pub max_attempts : ℤ
  pub initial_backoff : ℤ
  pub max_backoff : ℤ

pub record Step : Type 0 where
  pub id : String
  pub kind : String
  pub activity : String
  pub queue : String
  pub delay : ℤ
  pub timeout : ℤ
  pub dependencies : List String
  pub retry : RetryPolicy
  pub compensation : String
  pub compensation_queue : String
  pub metadata : Assoc String

-- The zero value, which a read of a missing key gives.
abbrev pub zero_step : Step
zero_step = record {
  id = "";
  kind = "";
  activity = "";
  queue = "";
  delay = pos 0;
  timeout = pos 0;
  dependencies = [];
  retry = record { max_attempts = pos 0; initial_backoff = pos 0; max_backoff = pos 0 };
  compensation = "";
  compensation_queue = "";
  metadata = [];
}

pub record Definition : Type 0 where
  pub name : String
  pub steps : Assoc Step
  pub order : List String

or_zero : Option Step → Step
or_zero none = zero_step
or_zero (some step) = step

-- `def.Steps[id]`.
unfoldable pub step_of : Assoc Step → String → Step
unfolding lookup or_zero
step_of steps id = or_zero (lookup id steps)

unfoldable pub step_ids : Definition → List String
step_ids d = d.order

abbrev is_empty : List String → Bool
is_empty [] = Bool.true
is_empty (x ∷ xs) = Bool.false

roots_of : Assoc Step → List String → List Step
unfolding step_of
roots_of steps [] = []
roots_of steps (id ∷ ids) =
    let rest = roots_of steps ids in
    let step = step_of steps id in if is_empty step.dependencies then step ∷ rest else rest

unfoldable pub root_steps : Definition → List Step
unfolding roots_of
root_steps d = roots_of d.steps d.order

dependents_of : Assoc Step → String → List String → List Step
unfolding step_of
dependents_of steps target [] = []
dependents_of steps target (id ∷ ids) =
    let rest = dependents_of steps target ids in
    let step = step_of steps id in if contains step.dependencies target then step ∷ rest else rest

unfoldable pub dependents : Definition → String → List Step
unfolding dependents_of
dependents d target = dependents_of d.steps target d.order
