-- ===== src/Engine/Reducer/RunFields.antt =====
-- The run summary under the reducer of internal/engine/reducer.go, as a patch that a history makes.
use go_project.Prelude.{
  ℕ, String, ◌≡◌, refl, ap, Bool, true, Option, none, some, List, [], ◌∷◌, arith, if◌then◌else◌, ℤ,
  ok, err, ◌>>=◌, >>=-eq-ok, Assoc, ◌∙◌, sym, ok-injective,
}
use go_project.History.Json.{Raw}
use go_project.History.Payloads.{
  Payload, started, compensating, cancel_requested, finished, run_failure, run_cancel,
}
use go_project.History.Codec.{decode}
use go_project.History.Events.{Event}
use go_project.Engine.Types.{RunStatus, RunRecord, RunState}
use go_project.Engine.Reducer.{apply_payload, apply_event, apply_events, stamp}
use go_project.Engine.Effects.{
  apply_started, apply_scheduled, apply_leased, apply_heartbeat, apply_completed, apply_failed,
  apply_retry_scheduled, apply_lease_expired, apply_cancelled, apply_timer_fired,
  apply_compensating,
}

-- The fields that are written, with their values.
pub record Patch : Type 0 where
  pub workflow_name : Option String
  pub status : Option RunStatus
  pub input : Option Raw
  pub output : Option Raw
  pub failure : Option String
  pub cancel_reason : Option String
  pub metadata : Option (Assoc String)
  pub updated_at : Option ℤ
  pub completed_at : Option (Option ℤ)
  pub version : Option ℕ

abbrev pub or_keep {ℓ} : {A : Type ℓ} → Option A → A → A
or_keep none a = a
or_keep (some b) a = b

abbrev pub overwrite : Patch → RunRecord → RunRecord
overwrite p r = record r {
  workflow_name = or_keep p.workflow_name r.workflow_name;
  status = or_keep p.status r.status;
  input = or_keep p.input r.input;
  output = or_keep p.output r.output;
  failure = or_keep p.failure r.failure;
  cancel_reason = or_keep p.cancel_reason r.cancel_reason;
  metadata = or_keep p.metadata r.metadata;
  updated_at = or_keep p.updated_at r.updated_at;
  completed_at = or_keep p.completed_at r.completed_at;
  version = or_keep p.version r.version;
}

-- What every event writes.
abbrev stamp_patch : Event → Patch
stamp_patch e = record {
  workflow_name = none;
  status = none;
  input = none;
  output = none;
  failure = none;
  cancel_reason = none;
  metadata = none;
  updated_at = some e.created_at;
  completed_at = none;
  version = some e.sequence;
}

-- What a payload writes besides; `cancelled` says that a cancellation was requested before.
unfoldable pub payload_patch : Event → Payload → Bool → Patch
payload_patch e (started p) cancelled = record (stamp_patch e) {
  workflow_name = some p.workflow;
  input = some p.input;
  metadata = some p.metadata;
  status = some RunStatus.running;
}
payload_patch e (cancel_requested p) cancelled = record (stamp_patch e) {
  cancel_reason = some p.reason;
  status = some RunStatus.cancelling;
}
payload_patch e (compensating p) cancelled =
    if cancelled
    then record (stamp_patch e) {
      status = some RunStatus.compensating;
      cancel_reason = some p.reason;
    }
    else record (stamp_patch e) { status = some RunStatus.compensating; failure = some p.reason }
payload_patch e (finished p) cancelled = record (stamp_patch e) {
  status = some RunStatus.completed;
  output = some p.output;
  completed_at = some (some e.created_at);
}
payload_patch e (run_failure p) cancelled = record (stamp_patch e) {
  status = some RunStatus.failed;
  failure = some p.error;
  completed_at = some (some e.created_at);
}
payload_patch e (run_cancel p) cancelled = record (stamp_patch e) {
  status = some RunStatus.cancelled;
  cancel_reason = some p.reason;
  completed_at = some (some e.created_at);
}
payload_patch e p cancelled = stamp_patch e

-- The state with another run summary and other metadata.
abbrev pub with_run : RunRecord → Assoc String → RunState → RunState
with_run r m s = record s { run = r; metadata = m }

abbrev patched : Patch → RunRecord → Assoc String → RunState → RunState
patched q r m = with_run (overwrite q r) (or_keep q.metadata m)

apply_payload-with_run :
    (e : Event) (p : Payload) (s : RunState) (r : RunRecord) (m : Assoc String)
    → apply_payload e p (stamp e (with_run r m s)) ≡ (
        apply_payload e p (stamp e s) >>= λ t.
        ok (patched (payload_patch e p s.cancel_requested) r m t))
unfolding payload_patch apply_payload apply_started apply_scheduled apply_leased apply_heartbeat
    apply_completed apply_failed apply_retry_scheduled apply_lease_expired apply_cancelled
    apply_timer_fired apply_compensating
apply_payload-with_run e (started p) s r m = refl
apply_payload-with_run e p s r m = ground arith

-- Whether a cancellation was requested, after an event.
unfoldable pub next_cancelled : Payload → Bool → Bool
next_cancelled (cancel_requested p) cancelled = true
next_cancelled p cancelled = cancelled

pub apply_payload-cancel_requested :
    (e : Event) (p : Payload) (s : RunState) {t : RunState}
    → apply_payload e p (stamp e s) ≡ ok t
    → t.cancel_requested ≡ next_cancelled p s.cancel_requested
unfolding next_cancelled apply_payload apply_started apply_scheduled apply_leased apply_heartbeat
    apply_completed apply_failed apply_retry_scheduled apply_lease_expired apply_cancelled
    apply_timer_fired apply_compensating
apply_payload-cancel_requested e (cancel_requested p) s h = ground arith
apply_payload-cancel_requested e p s h = ground arith

or_later {ℓ} : {A : Type ℓ} → Option A → Option A → Option A
or_later none a = a
or_later (some b) a = some b

-- First `p`, then `q`.
after : Patch → Patch → Patch
unfolding or_later
after q p = record {
  workflow_name = or_later q.workflow_name p.workflow_name;
  status = or_later q.status p.status;
  input = or_later q.input p.input;
  output = or_later q.output p.output;
  failure = or_later q.failure p.failure;
  cancel_reason = or_later q.cancel_reason p.cancel_reason;
  metadata = or_later q.metadata p.metadata;
  updated_at = or_later q.updated_at p.updated_at;
  completed_at = or_later q.completed_at p.completed_at;
  version = or_later q.version p.version;
}

or_keep-or_later {ℓ} :
    {A : Type ℓ} (q p : Option A) (a : A) → or_keep q (or_keep p a) ≡ or_keep (or_later q p) a
unfolding or_later
or_keep-or_later none p a = refl
or_keep-or_later (some b) p a = refl

overwrite-after :
    (q p : Patch) (r : RunRecord) → overwrite q (overwrite p r) ≡ overwrite (after q p) r
unfolding after
overwrite-after q p r = cc (
  or_keep-or_later q.workflow_name p.workflow_name r.workflow_name,
  or_keep-or_later q.status p.status r.status,
  or_keep-or_later q.input p.input r.input,
  or_keep-or_later q.output p.output r.output,
  or_keep-or_later q.failure p.failure r.failure,
  or_keep-or_later q.cancel_reason p.cancel_reason r.cancel_reason,
  or_keep-or_later q.metadata p.metadata r.metadata,
  or_keep-or_later q.updated_at p.updated_at r.updated_at,
  or_keep-or_later q.completed_at p.completed_at r.completed_at,
  or_keep-or_later q.version p.version r.version,
)

abbrev no_patch : Patch
no_patch = record {
  workflow_name = none;
  status = none;
  input = none;
  output = none;
  failure = none;
  cancel_reason = none;
  metadata = none;
  updated_at = none;
  completed_at = none;
  version = none;
}

-- What a history writes in all.
pub history_patch : Bool → List Event → Patch
history_patch cancelled [] = no_patch
history_patch cancelled (e ∷ es) = elim (decode e.type e.payload) [
  | ok p ↦ after (history_patch (next_cancelled p cancelled) es) (payload_patch e p cancelled)
  | err x ↦ no_patch
]

patched-after :
    (q p : Patch) (r : RunRecord) (m : Assoc String) (s : RunState)
    → patched q (overwrite p r) (or_keep p.metadata m) s ≡ patched (after q p) r m s
unfolding after
patched-after q p r m s = cc (overwrite-after q p r, or_keep-or_later q.metadata p.metadata m)

apply_event-with_run :
    (e : Event) (s : RunState) (r : RunRecord) (m : Assoc String) {p : Payload} {t : RunState}
    → decode e.type e.payload ≡ ok p
    → apply_payload e p (stamp e s) ≡ ok t
    → apply_event (with_run r m s) e ≡ ok (patched (payload_patch e p s.cancel_requested) r m t)
unfolding apply_event
apply_event-with_run e s r m {p} hd hp = rw (hd, apply_payload-with_run, hp)

pub apply_event-parts :
    (s : RunState) (e : Event) {t : RunState}
    → apply_event s e ≡ ok t
    → (p : Payload) × (decode e.type e.payload ≡ ok p) × (apply_payload e p (stamp e s) ≡ ok t)
unfolding apply_event
apply_event-parts s e h = >>=-eq-ok (decode e.type e.payload) _ h

history_patch-cons :
    (e : Event) (es : List Event) (cancelled : Bool) {p : Payload}
    → decode e.type e.payload ≡ ok p
    → history_patch cancelled (e ∷ es)
      ≡ after (history_patch (next_cancelled p cancelled) es) (payload_patch e p cancelled)
unfolding history_patch
history_patch-cons e es cancelled h = rw (h, history_patch)

cons_with_run :
    (s : RunState) (e : Event) (es : List Event) (r : RunRecord) (m : Assoc String) (t : RunState)
    {p : Payload} {s' : RunState}
    → decode e.type e.payload ≡ ok p
    → apply_payload e p (stamp e s) ≡ ok s'
    → apply_events (patched (payload_patch e p s.cancel_requested) r m s') es
      ≡ ok (
          patched
            (history_patch s'.cancel_requested es)
            (overwrite (payload_patch e p s.cancel_requested) r)
            (or_keep (payload_patch e p s.cancel_requested).metadata m)
            t)
    → apply_events (with_run r m s) (e ∷ es)
      ≡ ok (patched (history_patch s.cancel_requested (e ∷ es)) r m t)
unfolding apply_events
cons_with_run s e es r m t {p} {s'} hd hp ih =
    rw
      (
        apply_event-with_run e s r m hd hp,
        history_patch-cons e es s.cancel_requested hd,
        ← apply_payload-cancel_requested e p s hp,
      )
      (ih
        ∙ ap (λ u. ok u)
            (patched-after (history_patch s'.cancel_requested es)
              (payload_patch e p s.cancel_requested) r m t))

-- A history takes a state with another summary to the same state, with the summary patched.
pub apply_events-with_run :
    (s : RunState) (es : List Event) {t : RunState} (r : RunRecord) (m : Assoc String)
    → apply_events s es ≡ ok t
    → apply_events (with_run r m s) es ≡ ok (patched (history_patch s.cancel_requested es) r m t)
unfolding apply_events history_patch
apply_events-with_run s [] r m h = ground arith
apply_events-with_run s (e ∷ es) {t} r m h =
    let (s', h₁, h₂) = >>=-eq-ok (apply_event s e) _ h in
    let (p, hd, hp) = apply_event-parts s e h₁ in
    cons_with_run s e es r m t hd hp (
      apply_events-with_run s' es {t = t} (overwrite (payload_patch e p s.cancel_requested) r)
        (or_keep (payload_patch e p s.cancel_requested).metadata m) h₂)

or_keep_idem {ℓ} : {A : Type ℓ} (q : Option A) (a : A) → or_keep q (or_keep q a) ≡ or_keep q a
or_keep_idem none a = refl
or_keep_idem (some b) a = refl

with_run_self : (s : RunState) → with_run s.run s.metadata s ≡ s
with_run_self s = refl

-- The summary that a history ends in is the patch of the one that it began with.
pub apply_events-run :
    (s : RunState) (es : List Event) {t : RunState}
    → apply_events s es ≡ ok t
    → t.run ≡ overwrite (history_patch s.cancel_requested es) s.run
apply_events-run s es {t} h =
    ap (λ (x : RunState). x.run)
      (ok-injective (sym h ∙ apply_events-with_run s es {t = t} s.run s.metadata h))

-- The id of the run is never written.
pub apply_events-id :
    (s : RunState) (es : List Event) {t : RunState} → apply_events s es ≡ ok t → t.run.id ≡ s.run.id
apply_events-id s es h = ap (λ (r : RunRecord). r.id) (apply_events-run s es h)

pub apply_event-id :
    (s : RunState) (e : Event) {t : RunState} → apply_event s e ≡ ok t → t.run.id ≡ s.run.id
unfolding apply_events
apply_event-id s e {t} h = apply_events-id s (e ∷ []) {t = t} (rw h refl)
