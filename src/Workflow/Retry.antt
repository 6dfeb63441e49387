-- ===== src/Workflow/Retry.antt =====
-- `RetryPolicy.Normalize` of pkg/workflow/workflow.go. Durations are in nanoseconds.
use go_project.Prelude.{pos, leb_ℤ, ltb_ℤ, ◌||◌, if◌then◌else◌}
use go_project.Workflow.Types.{RetryPolicy}

normalize_attempts : RetryPolicy → RetryPolicy
normalize_attempts r = if leb_ℤ r.max_attempts (pos 0) then record r { max_attempts = pos 1 } else r

normalize_initial : RetryPolicy → RetryPolicy
normalize_initial r =
    if leb_ℤ r.initial_backoff (pos 0) then record r { initial_backoff = pos 250_000_000 } else r

normalize_max : RetryPolicy → RetryPolicy
normalize_max r =
    if leb_ℤ r.max_backoff (pos 0) || ltb_ℤ r.max_backoff r.initial_backoff
    then record r { max_backoff = pos 5_000_000_000 }
    else r

unfoldable pub normalize : RetryPolicy → RetryPolicy
unfolding normalize_attempts normalize_initial normalize_max
normalize r = normalize_max (normalize_initial (normalize_attempts r))
