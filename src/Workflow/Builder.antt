-- ===== src/Workflow/Builder.antt =====
-- `Builder` of pkg/workflow/workflow.go and its step options. The builder mutates itself and is
-- returned by each call; here each call returns the new one.
pub mod Kept
use go_project.Prelude.{
  String, List, [], ◌∷◌, ◌++◌, ◌==◌, ◌&&◌, if◌then◌else◌, ℤ, pos, Assoc, insert, has_key,
}
use go_project.Workflow.Types.{RetryPolicy, Step, zero_step, step_kind_activity, step_kind_timer}
use go_project.Workflow.Retry.{normalize}

pub record Builder : Type 0 where
  pub name : String
  pub steps : Assoc Step
  pub order : List String

unfoldable pub new : String → Builder
new name = record { name = name; steps = []; order = [] }

-- `StepOption` is any function on the step.
abbrev pub StepOption : Type 0
StepOption = Step → Step

unfoldable pub depends_on : List String → StepOption
depends_on ids step = record step { dependencies = step.dependencies ++ ids }

unfoldable pub with_queue : String → StepOption
with_queue name step = record step { queue = name }

unfoldable pub with_retry : RetryPolicy → StepOption
with_retry policy step = record step { retry = policy }

unfoldable pub with_timeout : ℤ → StepOption
with_timeout timeout step = record step { timeout = timeout }

unfoldable pub with_compensation : String → String → StepOption
with_compensation activity queue step = record step {
  compensation = activity;
  compensation_queue = queue;
}

unfoldable pub with_metadata : String → String → StepOption
with_metadata key new step = record step { metadata = insert key new step.metadata }

pub apply_options : List StepOption → Step → Step
apply_options [] step = step
apply_options (option ∷ options) step = apply_options options (option step)

pub default_queue : Step → Step
default_queue step =
    if step.queue == "" && step.kind == step_kind_activity
    then record step { queue = "default" }
    else step

-- `put` before the write to the map.
pub completed_step : Step → Step
unfolding default_queue
completed_step step =
    let queued = default_queue step in record queued { retry = normalize queued.retry }

unfoldable pub put : Step → Builder → Builder
unfolding completed_step
put step b = record b {
  order = if has_key step.id b.steps then b.order else b.order ++ step.id ∷ [];
  steps = insert step.id (completed_step step) b.steps;
}

pub activity_step : String → String → Step
activity_step id name = record zero_step {
  id = id;
  kind = step_kind_activity;
  activity = name;
  queue = "default";
  retry = record {
    max_attempts = pos 3;
    initial_backoff = pos 250_000_000;
    max_backoff = pos 3_000_000_000;
  };
}

unfoldable pub activity : String → String → List StepOption → Builder → Builder
unfolding apply_options activity_step
activity id name options b = put (apply_options options (activity_step id name)) b

pub timer_step : String → ℤ → Step
timer_step id delay = record zero_step {
  id = id;
  kind = step_kind_timer;
  delay = delay;
  retry = record {
    max_attempts = pos 1;
    initial_backoff = pos 250_000_000;
    max_backoff = pos 250_000_000;
  };
}

unfoldable pub timer : String → ℤ → List StepOption → Builder → Builder
unfolding apply_options timer_step
timer id delay options b = put (apply_options options (timer_step id delay)) b

-- The builders that a program can make.
pub data Built : Builder → Type 0 where
  started : (name : String) → Built (new name)
  with_activity :
      (id name : String) (options : List StepOption) {b : Builder}
      → Built b
      → Built (activity id name options b)
  with_timer :
      (id : String) (delay : ℤ) (options : List StepOption) {b : Builder}
      → Built b
      → Built (timer id delay options b)
