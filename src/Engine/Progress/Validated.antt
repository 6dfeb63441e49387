-- ===== src/Engine/Progress/Validated.antt =====
-- `scheduleForwardReady` of internal/engine/service.go on the workflows that `Builder.Build` of
-- pkg/workflow/workflow.go returns.
use go_project.Prelude.{
  String, Bool, true, false, ◌≡◌, refl, sym, ◌∙◌, subst, ap, Option, none, some, List, [], ◌∷◌, map,
  ◌==◌, ◌&&◌, if◌then◌else◌, eq_iff, eq_refl, arith, ok, ℕ, ℤ, Assoc, lookup, contains, Bool-cases,
  Option-cases, inl, inr, ◌⊎◌,
}
use mathlib.Core.WellFounded.{Acc}
use go_project.History.Json.{Raw, absent}
use go_project.History.Events.{Event}
use go_project.Workflow.Types.{Step, Definition, step_of, step_ids}
use go_project.Workflow.Builder.{Builder, Built}
use go_project.Workflow.Validate.{build}
use go_project.Workflow.Validate.Visits.{Dependency}
use go_project.Workflow.Validate.Accepted.{IsWellFormed, build-IsWellFormed}
use go_project.Engine.Types.{RunRecord, TaskRecord, StepState, RunState}
use go_project.Engine.Reducer.{replay, apply_events, has_outputs, dependencies_completed}
use go_project.Engine.Reducer.Definitions.{
  definition_at, replay-definitions, apply_events-SameSteps,
}
use go_project.Engine.Progress.{Log, is_started, is_ready, schedule_forward_ready}
use go_project.Engine.Progress.Scheduling.{
  ready_now, ready_ids, KeyAt, AllKeys, schedule_forward_ready-names,
}

-- A state of a run of `d`: the replayed one, or one with some more events applied.
record Follows (d : Definition) (s : RunState) : Type 0 where
  definitions :
      (id : String)
      → definition_at s.steps id
        ≡ (if contains (step_ids d) id then some (step_of d.steps id) else none)

replay-Follows :
    (d : Definition) (row : RunRecord) (es more : List Event) (s t : RunState)
    → replay d row es ≡ ok s
    → apply_events s more ≡ ok t
    → Follows d t
replay-Follows d row es more s t r a = record {
  definitions =
      λ id. ((apply_events-SameSteps s more).holds t a).at id ∙ replay-definitions d row es id r;
}

Follows-step :
    {d : Definition} {s : RunState} (id : String)
    → Follows d s
    → contains (step_ids d) id ≡ true
    → (step : StepState) × (lookup id s.steps ≡ some step) × (step.definition ≡ step_of d.steps id)
Follows-step {d} {s} id f m = elim (Option-cases (lookup id s.steps)) [
  | inl missing ↦ absurd (ground (arith, f.definitions id))
  | inr (step, found) ↦ (step, found, ground (arith, f.definitions id))
]

AllKeys-each :
    (s : RunState) (ids : List String)
    → ((id : String) → contains ids id ≡ true → KeyAt s id)
    → AllKeys s ids
AllKeys-each s [] each = tt
AllKeys-each s (id ∷ ids) each =
    (each id (ground (arith, eq_refl id)), AllKeys-each s ids (λ k m. each k (ground arith)))

Follows-AllKeys :
    (d : Definition) (s : RunState) → IsWellFormed d → Follows d s → AllKeys s (step_ids d)
Follows-AllKeys d s w f = AllKeys-each s (step_ids d) λ id m step found.
    let definition : step.definition ≡ step_of d.steps id = ground (arith, f.definitions id) in
    ap (λ (x : Step). x.id) definition ∙ (w.filled id m).own_id

-- For a workflow that `Build` returns: in the state of a replayed run, or after further events,
-- `scheduleForwardReady` makes a task for exactly the steps that are ready, in the order of the
-- definition.
pub schedule_forward_ready-ready_ids :
    (uuid : ℕ → String) (b : Builder) (d : Definition) (row : RunRecord) (es more : List Event)
    (now : ℤ) (s : RunState) (log log' : Log) (tasks : List TaskRecord)
    → Built b
    → build b ≡ ok d
    → replay d row es ≡ ok s
    → apply_events s more ≡ ok log.state
    → schedule_forward_ready uuid row d now log ≡ ok (log', tasks)
    → map (λ (task : TaskRecord). task.step_id) tasks ≡ ready_ids log.state (step_ids d)
schedule_forward_ready-ready_ids uuid b d row es more now s log log' tasks made built r a h =
    let w = build-IsWellFormed b d made built in
    schedule_forward_ready-names uuid row d now log log' tasks w.distinct
      (Follows-AllKeys d log.state w (replay-Follows d row es more s log.state r a)) h

present : Option Raw → Bool
present none = false
present (some absent) = false
present (some output) = true

-- The step has an output that is not nil.
unfoldable pub has_output : RunState → String → Bool
unfolding present
has_output s id = present (lookup id s.outputs)

has_outputs-cons :
    (outputs : Assoc Raw) (dep : String) (deps : List String)
    → has_outputs (dep ∷ deps) outputs ≡ (present (lookup dep outputs) && has_outputs deps outputs)
unfolding has_outputs present
has_outputs-cons outputs dep deps = go (lookup dep outputs)
  where
    go :
        (o : Option Raw)
        → elim o [
          | none ↦ false
          | some output ↦ elim output [ absent ↦ false | _ ↦ has_outputs deps outputs ]
        ]
          ≡ (present o && has_outputs deps outputs)
    go none = refl
    go (some absent) = refl
    go (some output) = refl

missing_output :
    (s : RunState) (deps : List String)
    → has_outputs deps s.outputs ≡ false
    → (dep : String) × (contains deps dep ≡ true) × (has_output s dep ≡ false)
unfolding has_output
missing_output s [] h = unfold has_outputs in cc
missing_output s (dep ∷ deps) h = elim (Bool-cases (present (lookup dep s.outputs))) [
  | inl there ↦
      let (k, m, o) = missing_output s deps (ground (arith, has_outputs-cons s.outputs dep deps)) in
      (k, ground arith, o)
  | inr none_yet ↦ (dep, ground (arith, eq_refl dep), none_yet)
]

mem-ready_ids :
    (s : RunState) (ids : List String) (id : String)
    → contains ids id ≡ true
    → ready_now s id ≡ true
    → contains (ready_ids s ids) id ≡ true
unfolding ready_ids
mem-ready_ids s [] id m r = cc
mem-ready_ids s (j ∷ ids) id m r = elim (Bool-cases (j == id)) [
  | inl same ↦ rw (subst (λ k. ready_now s k ≡ true) (sym ((eq_iff j id).0 same)) r) (ground arith)
  | inr other ↦ ground (arith, mem-ready_ids s ids id)
]

-- A step without an output whose dependencies have theirs.
record Next (d : Definition) (s : RunState) (id : String) : Type 0 where
  listed : contains (step_ids d) id ≡ true
  undone : has_output s id ≡ false
  supplied : dependencies_completed (step_of d.steps id) s ≡ true

first_supplied :
    (d : Definition) (s : RunState) (id : String)
    → IsWellFormed d
    → Acc (Dependency d.steps) id
    → contains (step_ids d) id ≡ true
    → has_output s id ≡ false
    → (next : String) × Next d s next
unfolding dependencies_completed
first_supplied d s id w (Acc.intro _ below) m undone =
    elim (Bool-cases (has_outputs (step_of d.steps id).dependencies s.outputs)) [
      | inl all ↦ (id, record { listed = m; undone = undone; supplied = all })
      | inr some_missing ↦
          let (dep, edge, open_) =
            missing_output s (step_of d.steps id).dependencies some_missing in
          first_supplied d s dep w (below dep edge) (w.closed dep id m edge) open_
    ]

started_or_ready :
    (d : Definition) (s : RunState) (id : String) (step : StepState)
    → lookup id s.steps ≡ some step
    → step.definition ≡ step_of d.steps id
    → Next d s id
    → (is_started step ≡ true) ⊎ (contains (ready_ids s (step_ids d)) id ≡ true)
unfolding ready_now is_ready
started_or_ready d s id step found same n = elim (Bool-cases (is_started step)) [
  | inl begun ↦ inl begun
  | inr idle ↦ inr (mem-ready_ids s (step_ids d) id n.listed (rw (found, idle, same) n.supplied))
]

-- For a workflow that `Build` returns: as long as a step of the replayed state has no output, there is
-- a step without an output whose dependencies all have theirs, and which has been started before (it
-- may have failed since) or is one that `scheduleForwardReady` would make a task for.
pub step_to_go :
    (b : Builder) (d : Definition) (row : RunRecord) (es : List Event) (s : RunState) (id : String)
    → Built b
    → build b ≡ ok d
    → replay d row es ≡ ok s
    → contains (step_ids d) id ≡ true
    → has_output s id ≡ false
    → (next : String) × (step : StepState) × (lookup next s.steps ≡ some step)
      × (has_output s next ≡ false)
      × (dependencies_completed (step_of d.steps next) s ≡ true)
      × ((is_started step ≡ true) ⊎ (contains (ready_ids s (step_ids d)) next ≡ true))
step_to_go b d row es s id made built r m undone =
    let w = build-IsWellFormed b d made built in
    let f : Follows d s = record { definitions = λ k. replay-definitions d row es k r } in
    let (next, n) = first_supplied d s id w (w.founded id m) m undone in
    let (step, found, same) = Follows-step next f n.listed in
    (next, step, found, n.undone, n.supplied, started_or_ready d s next step found same n)
