-- ===== src/Workflow/Validate/Accepted.antt =====
-- `Builder.Build` of pkg/workflow/workflow.go: the definitions that it returns, and its errors.
use go_project.Prelude.{
  Settles, Settles-bind, Settles-errors, ◌⊎◌, String, true, ◌≡◌, ◌≢◌, refl, sym, ap, subst, ◌∙◌,
  List, [], ◌==◌, arith, Assoc, lookup, has_key, contains, IsDistinct, Bool-cases, inl, inr, suc,
  Error, ok, err, cycle_at, fuel_spent, length, nat_eq, Option-cases,
}
use mathlib.Core.WellFounded.{Acc}
use go_project.Workflow.Types.{Step, Definition, step_of, step_ids}
use go_project.Workflow.Builder.{Builder, Built}
use go_project.Workflow.Builder.Kept.{IsFilled, IsKept, Built-IsKept}
use go_project.Workflow.Validate.{check_steps, validate_steps, build, visit_all, visit}
use go_project.Workflow.Validate.Checks.{
  IsFault, Explains, cycle, fault, IsChecked, check_steps-Settles,
}
use go_project.Workflow.Validate.Visits.{
  Dependency, Walk, edge, longer, Lies, on_cycle, IsCleared, search-Settles,
}

record Accepts (steps : Assoc Step) (order : List String) : Type 0 where
  checked : (id : String) → contains order id ≡ true → IsChecked steps (step_of steps id)
  founded : (id : String) → contains order id ≡ true → Acc (Dependency steps) id

Lies-Explains : (steps : Assoc Step) (e : Error) → Lies steps e → Explains steps e
Lies-Explains steps _ (on_cycle walk) = cycle walk

validate_steps-Settles :
    (steps : Assoc Step) (order : List String)
    → Settles (λ _. Accepts steps order) (Explains steps) (validate_steps steps order)
unfolding validate_steps
validate_steps-Settles steps order =
    Settles-bind _ (λ _. Accepts steps order) (Explains steps) (check_steps steps order) _
      (Settles-errors _ IsFault (Explains steps) (check_steps steps order)
        (check_steps-Settles steps order) (λ e f. fault f))
      λ _ checked.
        Settles-bind (IsCleared steps order) (λ _. Accepts steps order) (Explains steps)
          (visit_all (visit steps (suc (length steps))) order []) (λ _. ok tt)
          (Settles-errors (IsCleared steps order) (Lies steps) (Explains steps)
            (visit_all (visit steps (suc (length steps))) order []) (search-Settles steps order)
            (Lies-Explains steps))
          λ c cleared. record { checked = checked; founded = cleared.founded }

-- A definition whose steps are complete and whose dependencies have an order.
pub record IsWellFormed (d : Definition) : Type 0 where
  pub named : d.name ≢ ""
  pub distinct : IsDistinct (step_ids d)
  pub checked :
      (id : String) → contains (step_ids d) id ≡ true → IsChecked d.steps (step_of d.steps id)
  pub filled : (id : String) → contains (step_ids d) id ≡ true → IsFilled id (step_of d.steps id)
  pub closed :
      (dep id : String)
      → contains (step_ids d) id ≡ true
      → Dependency d.steps dep id
      → contains (step_ids d) dep ≡ true
  pub founded : (id : String) → contains (step_ids d) id ≡ true → Acc (Dependency d.steps) id

-- What `Build` settles for any builder.
record Outcome (b : Builder) (d : Definition) : Type 0 where
  same : d ≡ record { name = b.name; steps = b.steps; order = b.order }
  named : b.name ≢ ""
  accepts : Accepts b.steps b.order

build-Settles : (b : Builder) → Settles (Outcome b) (Explains b.steps) (build b)
unfolding build
build-Settles b = elim (Bool-cases (b.name == "")) [
  | inl missing ↦ rw missing (fault tt)
  | inr named ↦ elim (Bool-cases (nat_eq (length b.steps) 0)) [
    | inl empty ↦ rw (named, empty) (fault tt)
    | inr steps ↦
        rw (named, steps)
          (Settles-bind (λ _. Accepts b.steps b.order) (Outcome b) (Explains b.steps)
            (validate_steps b.steps b.order) _ (validate_steps-Settles b.steps b.order)
            λ _ accepts. record {
              same = refl;
              named = λ e. cc (ap (λ (a : String). a == "") e);
              accepts = accepts;
            })
  ]
]

build-ok : (b : Builder) (d : Definition) → build b ≡ ok d → Outcome b d
build-ok b d h = subst (Settles (Outcome b) (Explains b.steps)) h (build-Settles b)

build-err : (b : Builder) (e : Error) → build b ≡ err e → Explains b.steps e
build-err b e h = subst (Settles (Outcome b) (Explains b.steps)) h (build-Settles b)

step_of-IsFilled :
    (b : Builder) (id : String)
    → IsKept b
    → contains b.order id ≡ true
    → IsFilled id (step_of b.steps id)
unfolding step_of has_key
step_of-IsFilled b id k m = elim (Option-cases (lookup id b.steps)) [
  | inl missing ↦ absurd (ground (arith, k.same_keys id))
  | inr (step, found) ↦ rw found (k.filled id step found)
]

-- A definition that `Build` returns for a builder made by the package has a name, distinct step ids,
-- steps that carry their own id and pass every check, dependencies that are steps of it, and no
-- step from which dependencies can be followed for ever.
pub build-IsWellFormed : (b : Builder) (d : Definition) → Built b → build b ≡ ok d → IsWellFormed d
unfolding step_ids
build-IsWellFormed b d built h =
    let o = build-ok b d h in
    let k = Built-IsKept built in
    subst IsWellFormed (sym o.same) (record {
      named = o.named;
      distinct = k.distinct;
      checked = o.accepts.checked;
      filled = λ id m. step_of-IsFilled b id k m;
      closed = λ dep id m e. k.same_keys dep ∙ (o.accepts.checked id m).known dep e;
      founded = o.accepts.founded;
    })

-- The first edge of a walk.
Walk-first :
    {steps : Assoc Step} {from to : String}
    → Walk steps from to
    → (next : String) × Dependency steps next from × ((next ≡ to) ⊎ Walk steps next to)
Walk-first {to = to} (edge dep) = (to, dep, inl refl)
Walk-first {steps} {to = to} (longer walk dep) =
    let (next, first, rest) = Walk-first walk in
    (
      next,
      first,
      elim rest [
        | inl last ↦ inr (edge (subst (Dependency steps to) (sym last) dep))
        | inr more ↦ inr (longer more dep)
      ],
    )

Acc-acyclic : {steps : Assoc Step} {id : String} → Acc (Dependency steps) id → ¬ Walk steps id id
Acc-acyclic {steps} (Acc.intro id below) walk =
    let (next, first, rest) = Walk-first walk in
    Acc-acyclic (below next first) (elim rest [
      | inl last ↦ edge (subst (Dependency steps next) (sym last) first)
      | inr more ↦ longer more first
    ])

Explains-cycle :
    {steps : Assoc Step} {id : String} → Explains steps (cycle_at id) → Walk steps id id
Explains-cycle (cycle walk) = walk
Explains-cycle (fault f) = absurd f

Explains-fuel_spent : {steps : Assoc Step} → ¬ Explains steps fuel_spent
Explains-fuel_spent (fault f) = f

-- In a definition that `Build` returns no walk along dependencies leads from a step back to it.
pub build-acyclic :
    (b : Builder) (d : Definition) (id : String)
    → build b ≡ ok d
    → contains (step_ids d) id ≡ true
    → ¬ Walk d.steps id id
unfolding step_ids
build-acyclic b d id h m =
    let o = build-ok b d h in
    let ids = subst (λ (x : Definition). contains x.order id ≡ true) o.same m in
    subst (λ (x : Definition). ¬ Walk x.steps id id) (sym o.same)
      (Acc-acyclic (o.accepts.founded id ids))

-- A step that the error of `Build` says is on a cycle reaches itself along dependencies.
pub build-cycle : (b : Builder) (id : String) → build b ≡ err (cycle_at id) → Walk b.steps id id
build-cycle b id h = Explains-cycle (build-err b (cycle_at id) h)

-- The recursive visit of `Build` ends within the fuel: one call more than there are steps.
pub build-ne-fuel_spent : (b : Builder) → build b ≢ err fuel_spent
build-ne-fuel_spent b h = Explains-fuel_spent (build-err b fuel_spent h)
