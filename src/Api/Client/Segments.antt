-- ===== src/Api/Client/Segments.antt =====
-- The run ids that a path of pkg/client/client.go can carry, and the parts that internal/api/server.go
-- takes such a path into. A run id is one of letters, digits, dashes and
-- underscores, as the service generates them: of other ids a URL is refused, or the path is cleaned or
-- taken apart in another way.
use Prim.Native.Char.{Char, code}
use go_project.Prelude.{
  String, Bool, true, false, ◌&&◌, ◌||◌, not, ◌≡◌, refl, ap, sym, ◌∙◌, [], ◌∷◌, ◌==◌, nat_eq, leb,
  eq_iff, arith, Bool-cases, inl, inr,
}
use go_project.Api.Paths.{append, trim_left, trim_right, trim, split, is_blank}

-- A letter, a digit, a dash or an underscore, as in a generated id.
is_plain : Char → Bool
is_plain c =
    (leb b'a' (code c) && leb (code c) b'z')
    || (leb b'A' (code c) && leb (code c) b'Z')
    || (leb b'0' (code c) && leb (code c) b'9')
    || nat_eq (code c) b'-'
    || nat_eq (code c) b'_'

all_plain : String → Bool
unfolding is_plain
all_plain String.[] = true
all_plain (String.◌∷◌ c s) = is_plain c && all_plain s

-- A run id that a path can carry.
unfoldable pub is_id : String → Bool
unfolding all_plain is_blank
is_id s = not (is_blank s) && all_plain s

trim_right-append :
    (id rest : String)
    → all_plain id ≡ true
    → trim_right (append id rest) ≡ append id (trim_right rest)
unfolding trim_right append all_plain
trim_right-append String.[] rest h = refl
trim_right-append (String.◌∷◌ c id) rest h = ground (arith, trim_right-append id rest)

split-append :
    (id rest : String) → all_plain id ≡ true → split (append id (append "/" rest)) ≡ id ∷ split rest
unfolding split append all_plain
split-append String.[] rest h = refl
split-append (String.◌∷◌ c id) rest h = ground (arith, split-append id rest)

split-plain : (id : String) → all_plain id ≡ true → split id ≡ id ∷ []
unfolding split all_plain
split-plain String.[] h = refl
split-plain (String.◌∷◌ c id) h = ground (arith, split-plain id)

trim_left-plain : (id rest : String) → is_id id ≡ true → trim_left (append id rest) ≡ append id rest
unfolding trim_left append is_id
trim_left-plain String.[] rest h = absurd (ground arith)
trim_left-plain (String.◌∷◌ c id) rest h = ground arith

append-empty : (s : String) → append s "" ≡ s
unfolding append
append-empty String.[] = refl
append-empty (String.◌∷◌ c s) = ap (λ t. String.◌∷◌ c t) (append-empty s)

is_id-plain : (id : String) → is_id id ≡ true → all_plain id ≡ true
unfolding is_id
is_id-plain id h = ground arith

pub is_id-named : (id : String) → is_id id ≡ true → (id == "") ≡ false
unfolding is_id
is_id-named id h = elim (Bool-cases (id == "")) [
  | inl blank ↦ cc (sym h ∙ ap (λ s. is_id s) ((eq_iff id "").0 blank))
  | inr named ↦ named
]

pub parts-id : (id : String) → is_id id ≡ true → split (trim id) ≡ id ∷ []
unfolding trim
parts-id id h =
    ap (λ s. split (trim_right s))
      (ap (λ s. trim_left s) (sym (append-empty id)) ∙ trim_left-plain id "" h)
    ∙ ap (λ s. split s)
        (trim_right-append id "" (is_id-plain id h) ∙ unfold trim_right in append-empty id)
    ∙ split-plain id (is_id-plain id h)

pub parts-action :
    (id action : String)
    → is_id id ≡ true
    → trim_right (append "/" action) ≡ append "/" action
    → split action ≡ action ∷ []
    → split (trim (append id (append "/" action))) ≡ id ∷ action ∷ []
unfolding trim
parts-action id action h kept whole =
    ap (λ s. split (trim_right s)) (trim_left-plain id (append "/" action) h)
    ∙ ap (λ s. split s)
        (trim_right-append id (append "/" action) (is_id-plain id h) ∙ ap (λ s. append id s) kept)
    ∙ split-append id action (is_id-plain id h)
    ∙ ap (λ parts. id ∷ parts) whole
