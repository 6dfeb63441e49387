-- ===== src/Prelude/Maps.antt =====
-- Go's `map[string]V` as an association list: a write replaces in place, or appends.
use Prim.Native.String.{String}
use mathlib.Core.Path.{◌≡◌, refl}
use mathlib.Core.Bool.{Bool, true, false, ◌||◌}
use mathlib.Core.Option.{Option, none, some}
use mathlib.Core.List.{List, [], ◌∷◌}
use native.Mathlib.Omega.{arith}
use text.Mathlib.Text.{◌==◌}
use text.Mathlib.TextEquality.{eq_iff}
use text.Mathlib.TextPositions.{eq_refl}
use go_project.Prelude.Tests.{if◌then◌else◌}

abbrev pub Assoc {ℓ} : Type ℓ → Type ℓ
Assoc V = List (String × V)

module _ {ℓ} {V : Type ℓ} where
  unfoldable pub lookup : String → Assoc V → Option V
  lookup key [] = none
  lookup key ((name, found) ∷ rest) = if name == key then some found else lookup key rest

  unfoldable pub insert : String → V → Assoc V → Assoc V
  insert key new [] = (key, new) ∷ []
  insert key new ((name, old) ∷ rest) =
      if name == key then (key, new) ∷ rest else (name, old) ∷ insert key new rest

  abbrev is_present : Option V → Bool
  is_present none = false
  is_present (some v) = true

  unfoldable pub has_key : String → Assoc V → Bool
  unfolding lookup
  has_key k m = is_present (lookup k m)

  -- `for _, v := range m`, asking for one that passes a test.
  unfoldable pub any_value : (V → Bool) → Assoc V → Bool
  any_value p [] = false
  any_value p ((k, v) ∷ m) = p v || any_value p m

  -- A read after a write.
  pub lookup-insert :
      (written read : String) (new : V) (m : Assoc V)
      → lookup read (insert written new m) ≡ (if written == read then some new else lookup read m)
  unfolding lookup insert
  lookup-insert written read new [] = refl
  lookup-insert written read new ((name, old) ∷ rest) = ground (
    eq_iff name written,
    eq_iff name read,
    eq_iff written read,
    lookup-insert written read new rest,
    arith,
  )

  pub lookup-insert_self :
      (key : String) (new : V) (m : Assoc V) → lookup key (insert key new m) ≡ some new
  lookup-insert_self key new m = simp (eq_refl, lookup-insert)
