-- ===== src/Workflow/Validate/Colors.antt =====
-- The map `color` of `validateSteps` in pkg/workflow/workflow.go: its writes, and the count of the
-- steps that are not visited yet.
use go_project.Prelude.{
  ℕ, ◌+◌, ◌≤◌, ◌<◌, String, Bool, true, false, ◌||◌, not, ◌≡◌, refl, List, [], ◌∷◌, ◌==◌,
  if◌then◌else◌, nat_eq, Assoc, lookup, insert, lookup-insert, contains, length, map, eq_iff, arith,
  Bool-cases, ◌⊎◌, inl, inr,
}
use go_project.Workflow.Types.{Step, step_of}
use go_project.Workflow.Validate.{Colors, color_of}

pub color_of-insert :
    (id x : String) (c : ℕ) (colors : Colors)
    → color_of (insert id c colors) x ≡ (if id == x then c else color_of colors x)
color_of-insert id x c colors = ground (arith, lookup-insert id x c colors)

abbrev is_unvisited : ℕ → Bool
is_unvisited c = not (nat_eq c 1 || nat_eq c 2)

abbrev one_if : Bool → ℕ
one_if true = 1
one_if false = 0

unfoldable pub unvisited : List String → Colors → ℕ
unvisited [] colors = 0
unvisited (id ∷ ids) colors = one_if (is_unvisited (color_of colors id)) + unvisited ids colors

-- A write of a colour leaves no more steps unvisited.
pub unvisited-insert :
    (ids : List String) (id : String) (c : ℕ) (colors : Colors)
    → is_unvisited c ≡ false
    → unvisited ids (insert id c colors) ≤ unvisited ids colors
unfolding unvisited
unvisited-insert [] id c colors h = omega arith
unvisited-insert (j ∷ ids) id c colors h = elim (Bool-cases (id == j)) [
  | inl same ↦
      rw (color_of-insert id j c colors, same, h)
        (omega (arith, unvisited-insert ids id c colors h))
  | inr other ↦
      rw (color_of-insert id j c colors, other) (omega (arith, unvisited-insert ids id c colors h))
]

-- A first visit leaves one fewer.
pub unvisited-insert_new :
    (ids : List String) (id : String) (c : ℕ) (colors : Colors)
    → is_unvisited c ≡ false
    → is_unvisited (color_of colors id) ≡ true
    → contains ids id ≡ true
    → unvisited ids (insert id c colors) < unvisited ids colors
unfolding unvisited
unvisited-insert_new [] id c colors h new m = cc
unvisited-insert_new (j ∷ ids) id c colors h new m = elim (Bool-cases (id == j)) [
  | inl same ↦
      let e = (eq_iff id j).0 same in
      rw (color_of-insert id j c colors, same, h, ← e, new)
        (omega (arith, unvisited-insert ids id c colors h))
  | inr other ↦
      rw (color_of-insert id j c colors, other)
        (omega (
          arith,
          unvisited-insert_new ids id c colors h new (ground (arith, eq_iff j id, eq_iff id j)),
        ))
]

abbrev pub keys : Assoc Step → List String
keys steps = map (λ (entry : String × Step). entry.0) steps

pub length-unvisited :
    (steps : Assoc Step) (colors : Colors) → unvisited (keys steps) colors ≤ length steps
unfolding unvisited
length-unvisited [] colors = omega arith
length-unvisited ((id, step) ∷ steps) colors = ground (arith, length-unvisited steps colors)

-- A step without an entry has no dependencies.
pub key_or_free :
    (steps : Assoc Step) (id : String)
    → (contains (keys steps) id ≡ true) ⊎ ((step_of steps id).dependencies ≡ [])
unfolding step_of lookup
key_or_free [] id = inr refl
key_or_free ((j, step) ∷ steps) id = elim (Bool-cases (j == id)) [
  | inl same ↦ inl (rw same refl)
  | inr other ↦ rw other (key_or_free steps id)
]
