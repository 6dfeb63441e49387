-- ===== src/Engine/Backoff.antt =====
-- `BackoffForAttempt` of internal/engine/reducer.go. A `time.Duration` is an int64: its doubling
-- wraps around.
pub mod Bounds
use go_project.Prelude.{
  ℕ, zero, suc, ◌-◌, ◌*◌, ◌%◌, ◌^◌, if◌then◌else◌, ltb, ℤ, pos, negsuc, pos_part, leb_ℤ,
}
use go_project.Workflow.Types.{RetryPolicy}
use go_project.Workflow.Retry.{normalize}

-- The bits of an int64 and back.
abbrev to_bits : ℤ → ℕ
to_bits (pos n) = n % 2 ^ 64
to_bits (negsuc n) = 2 ^ 64 - 1 - n % 2 ^ 64

abbrev of_bits : ℕ → ℤ
of_bits v = if ltb v (2 ^ 63) then pos v else negsuc (2 ^ 64 - 1 - v)

-- `backoff *= 2`
unfoldable pub double64 : ℤ → ℤ
double64 b = of_bits ((2 * to_bits b) % 2 ^ 64)

-- The rounds of `for i := 1; i < attempt; i++`.
unfoldable pub backoff_loop : ℕ → ℤ → ℤ → ℤ
unfolding double64
backoff_loop zero backoff cap = backoff
backoff_loop (suc rounds) backoff cap =
    let doubled = double64 backoff in
    let rest = backoff_loop rounds doubled cap in if leb_ℤ cap doubled then cap else rest

unfoldable pub backoff_for_attempt : RetryPolicy → ℤ → ℤ
unfolding backoff_loop normalize
backoff_for_attempt policy attempt =
    let p = normalize policy in backoff_loop (pos_part attempt - 1) p.initial_backoff p.max_backoff
