-- ===== src/Store/Times.antt =====
-- The order of time stamps in the SQLite tables: internal/store/sqlite/store.go keeps a time as
-- its text in the layout time.RFC3339Nano, in UTC, and compares the texts. An instant is counted
-- in nanoseconds from the zero time on. Up to the year 9999, to which the model is limited, the texts
-- of the seconds have one length and fixed places, so that their order is taken as that of the
-- seconds; a later year has a longer text, which is not modelled.
pub mod Order
use go_project.Prelude.{
  ℕ, zero, suc, ◌+◌, ◌*◌, ◌/◌, ◌%◌, ◌^◌, Bool, true, false, List, [], ◌∷◌, if◌then◌else◌, nat_eq,
  ltb, ℤ, pos_part,
}

abbrev pub second : ℕ
second = 1_000_000_000

-- The digits of a fraction of `k` places and the `Z` behind them, trailing zeros left out.
unfoldable pub fraction_digits : ℕ → ℕ → List ℕ
fraction_digits zero f = b'Z' ∷ []
fraction_digits (suc k) f =
    let rest = f % 10 ^ k in
    let more = fraction_digits k rest in
    (b'0' + f / 10 ^ k) ∷ (if nat_eq rest 0 then b'Z' ∷ [] else more)

-- What stands behind the seconds: no point where the fraction is zero.
unfoldable pub fraction_text : ℕ → List ℕ
unfolding fraction_digits
fraction_text f = if nat_eq f 0 then b'Z' ∷ [] else b'.' ∷ fraction_digits 9 f

unfoldable pub text_le : List ℕ → List ℕ → Bool
text_le [] ys = true
text_le (x ∷ xs) [] = false
text_le (x ∷ xs) (y ∷ ys) = if nat_eq x y then text_le xs ys else ltb x y

-- `a <= b` between two time columns.
unfoldable pub time_le : ℤ → ℤ → Bool
unfolding fraction_text text_le
time_le a b =
    let m = pos_part a in
    let n = pos_part b in
    if nat_eq (m / second) (n / second)
    then text_le (fraction_text (m % second)) (fraction_text (n % second))
    else ltb (m / second) (n / second)
