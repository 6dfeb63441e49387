-- ===== src/Api/Paths.antt =====
-- The texts that internal/api/server.go takes paths apart with: `strings.TrimPrefix`, `strings.Trim`
-- and `strings.Split` at slashes, and `strconv.Atoi`.
use Prim.Native.Char.{Char, code}
use go_project.Prelude.{
  ℕ, zero, suc, ◌+◌, ◌-◌, ◌*◌, ◌^◌, String, Bool, true, false, ◌&&◌, Option, none, some, List, [],
  ◌∷◌, if◌then◌else◌, nat_eq, leb, ltb, ℤ, pos, negsuc,
}

unfoldable pub is_slash : Char → Bool
is_slash c = nat_eq (code c) b'/'

-- `s + t`.
unfoldable pub append : String → String → String
append String.[] t = t
append (String.◌∷◌ c s) t = String.◌∷◌ c (append s t)

-- The rest behind a prefix.
unfoldable pub strip : String → String → Option String
strip String.[] s = some s
strip (String.◌∷◌ c p) String.[] = none
strip (String.◌∷◌ c p) (String.◌∷◌ d s) =
    let rest = strip p s in if nat_eq (code c) (code d) then rest else none

or_whole : String → Option String → String
or_whole s none = s
or_whole s (some rest) = rest

unfoldable pub trim_prefix : String → String → String
unfolding strip or_whole
trim_prefix p s = or_whole s (strip p s)

unfoldable pub is_blank : String → Bool
is_blank String.[] = true
is_blank (String.◌∷◌ c s) = false

unfoldable pub trim_left : String → String
unfolding is_slash
trim_left String.[] = ""
trim_left (String.◌∷◌ c s) = let rest = trim_left s in if is_slash c then rest else String.◌∷◌ c s

unfoldable pub trim_right : String → String
unfolding is_slash is_blank
trim_right String.[] = ""
trim_right (String.◌∷◌ c s) =
    let rest = trim_right s in if is_blank rest && is_slash c then "" else String.◌∷◌ c rest

-- `strings.Trim(s, "/")`.
unfoldable pub trim : String → String
unfolding trim_left trim_right
trim s = trim_right (trim_left s)

unfoldable pub extend : Char → List String → List String
extend c [] = String.◌∷◌ c "" ∷ []
extend c (s ∷ parts) = String.◌∷◌ c s ∷ parts

-- `strings.Split(s, "/")`.
unfoldable pub split : String → List String
unfolding is_slash extend
split String.[] = "" ∷ []
split (String.◌∷◌ c s) = let parts = split s in if is_slash c then "" ∷ parts else extend c parts

-- The whole path is `p`.
unfoldable pub is_path : String → String → Bool
unfolding strip is_blank
is_path p s = elim (strip p s) [ none ↦ false | some rest ↦ is_blank rest ]

unfoldable pub is_below : String → String → Bool
unfolding strip
is_below p s = elim (strip p s) [ none ↦ false | some rest ↦ true ]

unfoldable pub digits : ℕ → String → Option ℕ
digits n String.[] = some n
digits n (String.◌∷◌ c s) =
    let rest = digits (n * 10 + (code c - b'0')) s in
    if leb b'0' (code c) && leb (code c) b'9' then rest else none

some_digits : String → Option ℕ
unfolding digits
some_digits String.[] = none
some_digits s = digits 0 s

in_range : ℕ → Option ℕ → Option ℤ
in_range limit none = none
in_range limit (some n) = if ltb n limit then some (pos n) else none

negated : Option ℕ → Option ℤ
negated none = none
negated (some zero) = some (pos 0)
negated (some (suc n)) = if ltb n (2 ^ 63) then some (negsuc n) else none

-- `strconv.Atoi`, on 64 bits.
unfoldable pub atoi : String → Option ℤ
unfolding some_digits in_range negated
atoi String.[] = none
atoi (String.◌∷◌ c s) =
    if nat_eq (code c) b'-'
    then negated (some_digits s)
    else if nat_eq (code c) b'+'
    then in_range (2 ^ 63) (some_digits s)
    else in_range (2 ^ 63) (some_digits (String.◌∷◌ c s))
