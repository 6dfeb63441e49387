-- ===== src/Worker/Config.antt =====
-- `LeaseConfig.Normalize` of internal/queue/queue.go and the defaults that `New` of
-- internal/worker/worker.go fills in. Durations are in nanoseconds.
use go_project.Prelude.{
  ◌/◌, String, ◌≡◌, ◌≢◌, refl, ◌==◌, if◌then◌else◌, ℤ, pos, negsuc, leb_ℤ, ◌≤ℤ◌, ◌<ℤ◌, arith,
  Bool-cases, inl, inr, ap,
}

pub record LeaseConfig : Type 0 where
  pub ttl : ℤ
  pub heartbeat_every : ℤ
  pub recovery_interval : ℤ

-- A third of a positive duration.
third : ℤ → ℤ
third (pos n) = pos (n / 3)
third (negsuc n) = negsuc n

fill_ttl : LeaseConfig → LeaseConfig
fill_ttl c = if leb_ℤ c.ttl (pos 0) then record c { ttl = pos 10_000_000_000 } else c

fill_heartbeat : LeaseConfig → LeaseConfig
unfolding third
fill_heartbeat c =
    if leb_ℤ c.heartbeat_every (pos 0) then record c { heartbeat_every = third c.ttl } else c

fill_recovery : LeaseConfig → LeaseConfig
fill_recovery c =
    if leb_ℤ c.recovery_interval (pos 0)
    then record c { recovery_interval = pos 500_000_000 }
    else c

unfoldable pub normalize : LeaseConfig → LeaseConfig
unfolding fill_ttl fill_heartbeat fill_recovery
normalize c = fill_recovery (fill_heartbeat (fill_ttl c))

pub record Config : Type 0 where
  pub worker_id : String
  pub queue : String
  pub concurrency : ℤ
  pub poll_interval : ℤ
  pub lease : LeaseConfig

-- The configuration that `New` gives the pool.
unfoldable pub configure : Config → Config
configure c = record c {
  lease = normalize c.lease;
  concurrency = if leb_ℤ c.concurrency (pos 0) then pos 1 else c.concurrency;
  poll_interval = if leb_ℤ c.poll_interval (pos 0) then pos 150_000_000 else c.poll_interval;
  queue = if c.queue == "" then "default" else c.queue;
}

-- What a pool can rely on. A lease of three nanoseconds or more leaves time for a heartbeat.
pub record IsUsable (given c : Config) : Type 0 where
  pub workers : pos 1 ≤ℤ c.concurrency
  pub polls : pos 1 ≤ℤ c.poll_interval
  pub named : c.queue ≢ ""
  pub holds : pos 1 ≤ℤ c.lease.ttl
  pub recovers : pos 1 ≤ℤ c.lease.recovery_interval
  pub beats : pos 3 ≤ℤ c.lease.ttl → pos 1 ≤ℤ c.lease.heartbeat_every
  pub in_time : given.lease.heartbeat_every ≤ℤ pos 0 → c.lease.heartbeat_every <ℤ c.lease.ttl

normalize-ttl : (c : LeaseConfig) → pos 1 ≤ℤ (normalize c).ttl
unfolding normalize
normalize-ttl c = ground arith

normalize-recovery : (c : LeaseConfig) → pos 1 ≤ℤ (normalize c).recovery_interval
unfolding normalize
normalize-recovery c = ground arith

third-pos : (d : ℤ) → pos 3 ≤ℤ d → pos 1 ≤ℤ third d
unfolding third
third-pos (pos n) h = omega arith
third-pos (negsuc n) h = absurd (omega arith)

third-lt : (d : ℤ) → pos 1 ≤ℤ d → third d <ℤ d
unfolding third
third-lt (pos n) h = omega arith
third-lt (negsuc n) h = absurd (omega arith)

fill_heartbeat-beats :
    (c : LeaseConfig) → pos 3 ≤ℤ c.ttl → pos 1 ≤ℤ (fill_heartbeat c).heartbeat_every
unfolding fill_heartbeat
fill_heartbeat-beats c h = ground (arith, third-pos c.ttl)

fill_heartbeat-in_time :
    (c : LeaseConfig)
    → pos 1 ≤ℤ c.ttl
    → c.heartbeat_every ≤ℤ pos 0
    → (fill_heartbeat c).heartbeat_every <ℤ c.ttl
unfolding fill_heartbeat
fill_heartbeat-in_time c h k = ground (arith, third-lt c.ttl)

normalize_lem : (c : LeaseConfig) → normalize c ≡ fill_recovery (fill_heartbeat (fill_ttl c))
unfolding normalize
normalize_lem c = refl

fill_recovery-ttl : (c : LeaseConfig) → (fill_recovery c).ttl ≡ c.ttl
unfolding fill_recovery
fill_recovery-ttl c = ground arith

fill_recovery-heartbeat : (c : LeaseConfig) → (fill_recovery c).heartbeat_every ≡ c.heartbeat_every
unfolding fill_recovery
fill_recovery-heartbeat c = ground arith

fill_heartbeat-ttl : (c : LeaseConfig) → (fill_heartbeat c).ttl ≡ c.ttl
unfolding fill_heartbeat
fill_heartbeat-ttl c = ground arith

fill_ttl-heartbeat : (c : LeaseConfig) → (fill_ttl c).heartbeat_every ≡ c.heartbeat_every
unfolding fill_ttl
fill_ttl-heartbeat c = ground arith

fill_ttl-ttl : (c : LeaseConfig) → pos 1 ≤ℤ (fill_ttl c).ttl
unfolding fill_ttl
fill_ttl-ttl c = ground arith

normalize-beats :
    (c : LeaseConfig) → pos 3 ≤ℤ (normalize c).ttl → pos 1 ≤ℤ (normalize c).heartbeat_every
normalize-beats c h =
    rw (normalize_lem, fill_recovery-heartbeat)
      (fill_heartbeat-beats (fill_ttl c)
        (rw (normalize_lem, fill_recovery-ttl, fill_heartbeat-ttl) at h))

normalize-in_time :
    (c : LeaseConfig)
    → c.heartbeat_every ≤ℤ pos 0
    → (normalize c).heartbeat_every <ℤ (normalize c).ttl
normalize-in_time c h =
    rw (normalize_lem, fill_recovery-heartbeat, fill_recovery-ttl, fill_heartbeat-ttl)
      (fill_heartbeat-in_time (fill_ttl c) (fill_ttl-ttl c) (rw fill_ttl-heartbeat h))

default_name : (queue : String) → (if queue == "" then "default" else queue) ≢ ""
default_name queue = elim (Bool-cases (queue == "")) [
  | inl missing ↦ rw missing (λ e. cc (ap (λ (q : String). q == "") e))
  | inr given ↦ rw given (λ e. cc)
]

-- The configuration of a new pool has at least one worker, a positive poll interval, a queue, a
-- positive lease and recovery interval, a positive heartbeat interval if the lease is three
-- nanoseconds or longer, and, if none was given, a heartbeat interval shorter than the lease.
pub configure-IsUsable : (c : Config) → IsUsable c (configure c)
unfolding configure
configure-IsUsable c = record {
  workers = ground arith;
  polls = ground arith;
  named = default_name c.queue;
  holds = normalize-ttl c.lease;
  recovers = normalize-recovery c.lease;
  beats = normalize-beats c.lease;
  in_time = normalize-in_time c.lease;
}
