-- ===== src/Workflow/Builder/Kept.antt =====
-- What `Builder.put` of pkg/workflow/workflow.go keeps of the steps and their order.
use go_project.Prelude.{
  String, ◌≡◌, ◌≢◌, refl, ap, subst, ◌∙◌, some, List, [], ◌∷◌, ◌++◌, ◌==◌, ◌||◌, ◌&&◌, eq_iff,
  arith, pos, ◌≤ℤ◌, lookup, has_key, lookup-insert, contains, IsDistinct, IsDistinct-append,
  Bool-cases, inl, inr,
}
use go_project.Workflow.Types.{RetryPolicy, Step, step_kind_activity}
use go_project.Workflow.Retry.{normalize}
use go_project.Workflow.Builder.{
  Builder, new, put, completed_step, default_queue, activity, timer, Built, started, with_activity,
  with_timer,
}

-- A policy that `Normalize` has filled in.
pub record IsNormal (r : RetryPolicy) : Type 0 where
  pub attempts : pos 1 ≤ℤ r.max_attempts
  pub initial : pos 1 ≤ℤ r.initial_backoff
  pub limit : pos 1 ≤ℤ r.max_backoff

normalize-IsNormal : (r : RetryPolicy) → IsNormal (normalize r)
unfolding normalize
normalize-IsNormal r = ground arith

-- A step as the map of a builder holds it under `id`.
pub record IsFilled (id : String) (step : Step) : Type 0 where
  pub own_id : step.id ≡ id
  pub queued : step.kind ≡ step_kind_activity → step.queue ≢ ""
  pub retries : IsNormal step.retry

default_queue_lem :
    (step : Step)
    → ((default_queue step).id ≡ step.id)
      × ((default_queue step).kind ≡ step_kind_activity → (default_queue step).queue ≢ "")
unfolding default_queue
default_queue_lem step = elim (Bool-cases (step.queue == "" && step.kind == step_kind_activity)) [
  | inl filled ↦ rw filled (refl, λ k e. cc (ap (λ (q : String). q == "") e))
  | inr kept ↦ rw kept (
    refl,
    λ k e. absurd (ground (arith, eq_iff step.queue "", eq_iff step.kind step_kind_activity)),
  )
]

completed_step-IsFilled : (step : Step) → IsFilled step.id (completed_step step)
unfolding completed_step
completed_step-IsFilled step =
    let (same, queue) = default_queue_lem step in
    record {
      own_id = same;
      queued = queue;
      retries = normalize-IsNormal (default_queue step).retry;
    }

pub record IsKept (b : Builder) : Type 0 where
  pub distinct : IsDistinct b.order
  pub same_keys : (id : String) → contains b.order id ≡ has_key id b.steps
  pub filled : (id : String) (step : Step) → lookup id b.steps ≡ some step → IsFilled id step

contains-append_one :
    (ids : List String) (id k : String) → contains (ids ++ id ∷ []) k ≡ (contains ids k || id == k)
contains-append_one [] id k = ground arith
contains-append_one (j ∷ ids) id k = ground (arith, contains-append_one ids id k)

put-IsKept : (step : Step) (b : Builder) → IsKept b → IsKept (put step b)
unfolding put has_key
put-IsKept step b k = record {
  distinct = elim (Bool-cases (has_key step.id b.steps)) [
    | inl old ↦ rw old k.distinct
    | inr fresh ↦
        rw fresh (IsDistinct-append b.order step.id k.distinct (k.same_keys step.id ∙ fresh))
  ];
  same_keys = λ x. elim (Bool-cases (has_key step.id b.steps)) [
    | inl old ↦ ground (
      arith,
      lookup-insert step.id x (completed_step step) b.steps,
      k.same_keys x,
      eq_iff step.id x,
      old,
    )
    | inr fresh ↦ ground (
      arith,
      lookup-insert step.id x (completed_step step) b.steps,
      contains-append_one b.order step.id x,
      k.same_keys x,
      fresh,
    )
  ];
  filled = λ x found h. elim (Bool-cases (step.id == x)) [
    | inl same ↦
        let e : completed_step step ≡ found =
          ground (arith, lookup-insert step.id x (completed_step step) b.steps) in
        subst (λ y. IsFilled y found) ((eq_iff step.id x).0 same)
          (subst (IsFilled step.id) e (completed_step-IsFilled step))
    | inr other ↦
        k.filled x found (ground (arith, lookup-insert step.id x (completed_step step) b.steps))
  ];
}

pub Built-IsKept : {b : Builder} → Built b → IsKept b
unfolding new activity timer has_key lookup
Built-IsKept (started name) = record {
  distinct = tt;
  same_keys = λ id. refl;
  filled = λ id step h. cc;
}
Built-IsKept (with_activity id name options built) = put-IsKept _ _ (Built-IsKept built)
Built-IsKept (with_timer id delay options built) = put-IsKept _ _ (Built-IsKept built)
