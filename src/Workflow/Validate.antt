-- ===== src/Workflow/Validate.antt =====
-- `validateSteps` of pkg/workflow/workflow.go and `Builder.Build`. The recursive `visit` takes fuel,
-- one more than there are steps.
pub mod Colors
pub mod Visits
pub mod Checks
pub mod Accepted
use go_project.Prelude.{
  ℕ, zero, suc, String, Bool, Option, none, some, List, [], ◌∷◌, ◌==◌, if◌then◌else◌, leb_ℤ, pos,
  nat_eq, Result, ok, err, ◌>>=◌, Assoc, lookup, insert, has_key, length, name_required, no_steps,
  step_id_required, missing_activity, non_positive_delay, unsupported_kind, depends_on_itself,
  unknown_dependency, cycle_at, fuel_spent,
}
use go_project.Workflow.Types.{Step, Definition, step_of, step_kind_activity, step_kind_timer}
use go_project.Workflow.Builder.{Builder}

-- The switch on the kind of a step.
unfoldable pub check_kind : Step → Result (Unit {0})
check_kind step =
    if step.kind == step_kind_activity
    then (if step.activity == "" then err (missing_activity step.id) else ok tt)
    else if step.kind == step_kind_timer
    then (if leb_ℤ step.delay (pos 0) then err (non_positive_delay step.id) else ok tt)
    else err (unsupported_kind step.id step.kind)

unfoldable pub check_dependencies : Assoc Step → String → List String → Result (Unit {0})
check_dependencies steps id [] = ok tt
check_dependencies steps id (dep ∷ deps) =
    let rest = check_dependencies steps id deps in
    if dep == id
    then err (depends_on_itself id)
    else if has_key dep steps
    then rest
    else err (unknown_dependency id dep)

unfoldable pub check_step : Assoc Step → Step → Result (Unit {0})
unfolding check_kind check_dependencies
check_step steps step =
    if step.id == ""
    then err step_id_required
    else (check_kind step >>= λ _. check_dependencies steps step.id step.dependencies)

unfoldable pub check_steps : Assoc Step → List String → Result (Unit {0})
unfolding check_step step_of
check_steps steps [] = ok tt
check_steps steps (id ∷ ids) = check_step steps (step_of steps id) >>= λ _. check_steps steps ids

-- The map `color`: 0 is unvisited, 1 is being visited, 2 is done.
abbrev pub Colors : Type 0
Colors = Assoc ℕ

abbrev or_unvisited : Option ℕ → ℕ
or_unvisited none = 0
or_unvisited (some c) = c

abbrev pub color_of : Colors → String → ℕ
color_of colors id = or_unvisited (lookup id colors)

-- A loop that stops at the first error.
unfoldable pub visit_all : (String → Colors → Result Colors) → List String → Colors → Result Colors
visit_all visit_one [] colors = ok colors
visit_all visit_one (id ∷ ids) colors = visit_one id colors >>= visit_all visit_one ids

unfoldable pub visit : Assoc Step → ℕ → String → Colors → Result Colors
unfolding visit_all step_of
visit steps zero id colors = err fuel_spent
visit steps (suc fuel) id colors =
    if nat_eq (color_of colors id) 1
    then err (cycle_at id)
    else if nat_eq (color_of colors id) 2
    then ok colors
    else (visit_all (visit steps fuel) (step_of steps id).dependencies (insert id 1 colors)
        >>= λ done. ok (insert id 2 done))

unfoldable pub validate_steps : Assoc Step → List String → Result (Unit {0})
unfolding visit check_steps
validate_steps steps order = check_steps steps order >>= λ _.
    visit_all (visit steps (suc (length steps))) order [] >>= λ _. ok tt

unfoldable pub build : Builder → Result Definition
unfolding validate_steps
build b =
    if b.name == ""
    then err name_required
    else if nat_eq (length b.steps) 0
    then err no_steps
    else (validate_steps b.steps b.order >>= λ _.
        ok (record { name = b.name; steps = b.steps; order = b.order }))
