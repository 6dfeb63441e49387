-- ===== src/Workflow/Validate/Checks.antt =====
-- The checks of `validateSteps` in pkg/workflow/workflow.go on each step, and what its errors say.
use go_project.Prelude.{
  Settles, Settles-bind, Settles-map, String, true, false, ◌≡◌, ◌≢◌, ap, subst, List, [], ◌∷◌, ◌==◌,
  eq_iff, arith, leb_ℤ, pos, Assoc, has_key, contains, Bool-cases, inl, inr, Error, cycle_at,
  fuel_spent,
}
use go_project.Workflow.Types.{Step, step_of, step_kind_activity, step_kind_timer}
use go_project.Workflow.Validate.{check_kind, check_dependencies, check_step, check_steps}
use go_project.Workflow.Validate.Visits.{Walk}

-- An activity step has an activity, and a timer a positive delay.
pub data IsRunnable (step : Step) : Type 0 where
  runs : step.kind ≡ step_kind_activity → step.activity ≢ "" → IsRunnable step
  waits : step.kind ≡ step_kind_timer → leb_ℤ step.delay (pos 0) ≡ false → IsRunnable step

-- An error that a check, and not the search, gives.
abbrev pub IsFault : Error → Type 0
IsFault (cycle_at id) = ⊥
IsFault fuel_spent = ⊥
IsFault e = Unit

-- What an error of `validateSteps` says.
pub data Explains (steps : Assoc Step) : Error → Type 0 where
  cycle : {id : String} → Walk steps id id → Explains steps (cycle_at id)
  fault : {e : Error} → IsFault e → Explains steps e

pub record IsChecked (steps : Assoc Step) (step : Step) : Type 0 where
  pub runnable : IsRunnable step
  pub named : step.id ≢ ""
  pub known : (dep : String) → contains step.dependencies dep ≡ true → has_key dep steps ≡ true

check_kind-Settles : (step : Step) → Settles (λ _. IsRunnable step) IsFault (check_kind step)
unfolding check_kind
check_kind-Settles step = elim (Bool-cases (step.kind == step_kind_activity)) [
  | inl activity ↦ elim (Bool-cases (step.activity == "")) [
    | inl missing ↦ rw (activity, missing) tt
    | inr given ↦
        rw (activity, given)
          (runs ((eq_iff _ _).0 activity) (λ e. cc (ap (λ (a : String). a == "") e)))
  ]
  | inr other ↦ elim (Bool-cases (step.kind == step_kind_timer)) [
    | inl timer ↦ elim (Bool-cases (leb_ℤ step.delay (pos 0))) [
      | inl early ↦ rw (other, timer, early) tt
      | inr late ↦ rw (other, timer, late) (waits ((eq_iff _ _).0 timer) late)
    ]
    | inr unknown ↦ rw (other, unknown) tt
  ]
]

check_dependencies-Settles :
    (steps : Assoc Step) (id : String) (deps : List String)
    → Settles
        (λ _. (dep : String) → contains deps dep ≡ true → has_key dep steps ≡ true)
        IsFault
        (check_dependencies steps id deps)
unfolding check_dependencies
check_dependencies-Settles steps id [] = λ dep h. cc
check_dependencies-Settles steps id (d ∷ deps) = elim (Bool-cases (d == id)) [
  | inl self ↦ rw self tt
  | inr other ↦ elim (Bool-cases (has_key d steps)) [
    | inl known ↦
        rw (other, known)
          (Settles-map (λ _. (dep : String) → contains deps dep ≡ true → has_key dep steps ≡ true)
            (λ _. (dep : String) → contains (d ∷ deps) dep ≡ true → has_key dep steps ≡ true)
            IsFault (check_dependencies steps id deps) (check_dependencies-Settles steps id deps)
            λ _ rest dep m. elim (Bool-cases (d == dep)) [
              | inl same ↦ subst (λ k. has_key k steps ≡ true) ((eq_iff d dep).0 same) known
              | inr more ↦ rest dep (ground arith)
            ])
    | inr unknown ↦ rw (other, unknown) tt
  ]
]

check_step-Settles :
    (steps : Assoc Step) (step : Step)
    → Settles (λ _. IsChecked steps step) IsFault (check_step steps step)
unfolding check_step
check_step-Settles steps step = elim (Bool-cases (step.id == "")) [
  | inl missing ↦ rw missing tt
  | inr named ↦ rw named (
      Settles-bind (λ _. IsRunnable step) (λ _. IsChecked steps step) IsFault (check_kind step)
        (λ _. check_dependencies steps step.id step.dependencies) (check_kind-Settles step)
        λ _ runnable.
          Settles-map _ (λ _. IsChecked steps step) IsFault
            (check_dependencies steps step.id step.dependencies)
            (check_dependencies-Settles steps step.id step.dependencies)
            λ _ known. record {
              runnable = runnable;
              named = λ e. cc (ap (λ (a : String). a == "") e);
              known = known;
            })
]

pub check_steps-Settles :
    (steps : Assoc Step) (order : List String)
    → Settles
        (λ _. (id : String) → contains order id ≡ true → IsChecked steps (step_of steps id))
        IsFault
        (check_steps steps order)
unfolding check_steps
check_steps-Settles steps [] = λ id m. cc
check_steps-Settles steps (j ∷ order) =
    Settles-bind _ _ IsFault (check_step steps (step_of steps j)) (λ _. check_steps steps order)
      (check_step-Settles steps (step_of steps j))
      λ _ one.
        Settles-map _ _ IsFault (check_steps steps order) (check_steps-Settles steps order)
          λ _ rest id m. elim (Bool-cases (j == id)) [
            | inl same ↦ subst (λ k. IsChecked steps (step_of steps k)) ((eq_iff j id).0 same) one
            | inr more ↦ rest id (ground arith)
          ]
