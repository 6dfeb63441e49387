-- ===== src/Store/Times/Order.antt =====
-- The text order of time stamps against the order of the instants.
use go_project.Prelude.{ℕ, ◌+◌, ◌*◌, ◌≡◌, false, pos, arith}
use go_project.Store.Times.{second, time_le}

-- Within a second the comparison of the texts can be wrong: in no second does half a second stand
-- before 51 hundredths.
pub time_le-fraction :
    (s : ℕ) → time_le (pos (s * second + 500_000_000)) (pos (s * second + 510_000_000)) ≡ false
unfolding time_le
time_le-fraction s = ground arith
