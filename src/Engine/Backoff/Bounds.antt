-- ===== src/Engine/Backoff/Bounds.antt =====
-- The delays of `BackoffForAttempt` (internal/engine/reducer.go) against a closed form.
use Prim.Native.Nat.{min}
use native.Mathlib.Nat.{pow-suc, pow-succ'}
use go_project.Prelude.{
  ℕ, zero, suc, ◌-◌, ◌*◌, ◌^◌, ◌≤◌, ◌<◌, ◌≡◌, ap, inl, inr, Bool-cases, ◌∙◌, leb_ℤ, arith, pos,
  ◌<ℤ◌,
}
use go_project.Workflow.Types.{RetryPolicy}
use go_project.Workflow.Retry.{normalize}
use go_project.Engine.Backoff.{double64, backoff_loop, backoff_for_attempt}

double64_small : (b : ℕ) → b < 2 ^ 62 → double64 (pos b) ≡ pos (2 * b)
unfolding double64
double64_small b h = ground arith

pow_pos : (n : ℕ) → 1 ≤ 2 ^ n
pow_pos zero = omega arith
pow_pos (suc n) = rw pow-suc (omega (arith, pow_pos n))

-- One more doubling reaches at least as far, and the same place from the doubled start.
doubled_reach : (b n : ℕ) → (2 * b ≤ b * 2 ^ suc n) × (2 * b * 2 ^ n ≡ b * 2 ^ suc n)
doubled_reach b n = rw pow-succ' (grind (arith, pow_pos n), omega arith)

-- The loop gives the smaller of the power and the limit, as long as the limit is below 2^62.
pub backoff_loop-min :
    (rounds b limit : ℕ)
    → b ≤ limit
    → limit < 2 ^ 62
    → backoff_loop rounds (pos b) (pos limit) ≡ pos (min (b * 2 ^ rounds) limit)
unfolding backoff_loop
backoff_loop-min zero b limit h k = ap pos (omega arith)
backoff_loop-min (suc n) b limit h k =
    rw (double64_small b (omega arith)) (elim (Bool-cases (leb_ℤ (pos limit) (pos (2 * b)))) [
      | inl reached ↦ rw reached (ap pos (ground (arith, doubled_reach b n)))
      | inr below ↦ rw below (
          backoff_loop-min n (2 * b) limit (ground arith) k
          ∙ ap (λ v. pos (min v limit)) (doubled_reach b n).1)
    ])

abbrev policy : ℕ → ℕ → ℕ → RetryPolicy
policy attempts initial limit = record {
  max_attempts = pos attempts;
  initial_backoff = pos initial;
  max_backoff = pos limit;
}

-- A policy with positive settings and a limit of at least the first delay is normal.
normalize_positive :
    (attempts initial limit : ℕ)
    → 0 < attempts
    → 0 < initial
    → initial ≤ limit
    → normalize (policy attempts initial limit) ≡ policy attempts initial limit
unfolding normalize
normalize_positive attempts initial limit a i h = ground arith

-- The delay before the attempt after `attempt` is the first delay doubled `attempt - 1` times, cut
-- at the policy's limit, for a policy with positive settings whose limit is at least the first
-- delay and below 2^62 nanoseconds.
pub backoff_for_attempt-min :
    (attempts initial limit attempt : ℕ)
    → 0 < attempts
    → 0 < initial
    → initial ≤ limit
    → limit < 2 ^ 62
    → backoff_for_attempt
        (record {
          max_attempts = pos attempts;
          initial_backoff = pos initial;
          max_backoff = pos limit;
        })
        (pos attempt)
      ≡ pos (min (initial * 2 ^ (attempt - 1)) limit)
unfolding backoff_for_attempt
backoff_for_attempt-min attempts initial limit attempt a i h k =
    rw (normalize_positive attempts initial limit a i h)
      (backoff_loop-min (attempt - 1) initial limit h k)

-- A policy whose limit is below its first delay gets five seconds as the limit, and where the
-- first delay is longer than that, the first retry waits for longer than the limit in force.
pub backoff_above_limit :
    (p : RetryPolicy)
    → pos 5_000_000_000 <ℤ p.initial_backoff
    → p.max_backoff <ℤ p.initial_backoff
    → ((normalize p).max_backoff ≡ pos 5_000_000_000)
      × (backoff_for_attempt p (pos 1) ≡ p.initial_backoff)
      × ((normalize p).max_backoff <ℤ backoff_for_attempt p (pos 1))
unfolding backoff_for_attempt backoff_loop normalize
backoff_above_limit p h k = (ground arith, ground arith, ground arith)
