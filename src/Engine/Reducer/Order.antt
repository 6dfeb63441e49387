-- ===== src/Engine/Reducer/Order.antt =====
-- The completed order of the run state in internal/engine/reducer.go.
use go_project.Prelude.{
  IsDistinct, IsDistinct-append, String, ◌≡◌, subst, List, [], ◌∷◌, arith, ok, Result, contains,
  lookup, Bool-cases, inl, inr, Ensures, Ensures-ok, Ensures-err, Ensures-bind, Ensures-bind-eq,
  Ensures-elim,
}
use go_project.History.Payloads.{
  TaskLeasedPayload, TaskRetryScheduledPayload, TaskCancelledPayload, Payload, started, scheduled,
  leased, heartbeat, completed, failed, retry_scheduled, lease_expired, cancelled, timer,
  cancel_requested, compensating, finished, run_failure, run_cancel,
}
use go_project.History.Codec.{decode}
use go_project.History.Events.{Event}
use go_project.Workflow.Types.{Definition}
use go_project.Engine.Types.{RunRecord, RunState}
use go_project.Engine.Effects.{
  append_new, apply_started, apply_scheduled, apply_leased, apply_heartbeat, apply_completed,
  apply_failed, apply_retry_scheduled, apply_lease_expired, apply_cancelled, apply_timer_fired,
  apply_compensating,
}
use go_project.Engine.Reducer.{
  apply_payload, apply_event, apply_events, initial_state, mark_satisfied, replay, stamp,
}

IsDistinct-append_new :
    (ids : List String) (id : String) → IsDistinct ids → IsDistinct (append_new ids id)
IsDistinct-append_new ids id h = elim (Bool-cases (contains ids id)) [
  | inl old ↦ rw old h
  | inr new ↦ rw new (IsDistinct-append ids id h new)
]

-- The completed order of `s`, whose steps are distinct.
abbrev Orderly : RunState → Type 0
Orderly s = IsDistinct s.completed_order

same_order :
    (m : Result RunState) (s : RunState)
    → Orderly s
    → ((t : RunState) → m ≡ ok t → s.completed_order ≡ t.completed_order)
    → Ensures Orderly m
same_order m s h kept = record { holds = λ t e. subst IsDistinct (kept t e) h }

apply_leased-order :
    (p : TaskLeasedPayload) (s t : RunState)
    → apply_leased p s ≡ ok t
    → s.completed_order ≡ t.completed_order
unfolding apply_leased
apply_leased-order p s t e = ground arith

apply_retry_scheduled-order :
    (p : TaskRetryScheduledPayload) (s t : RunState)
    → apply_retry_scheduled p s ≡ ok t
    → s.completed_order ≡ t.completed_order
unfolding apply_retry_scheduled
apply_retry_scheduled-order p s t e = ground arith

apply_cancelled-order :
    (p : TaskCancelledPayload) (s t : RunState)
    → apply_cancelled p s ≡ ok t
    → s.completed_order ≡ t.completed_order
unfolding apply_cancelled
apply_cancelled-order p s t e = ground arith

apply_payload-Orderly :
    (e : Event) (p : Payload) (s : RunState) → Orderly s → Ensures Orderly (apply_payload e p s)
unfolding apply_payload apply_started apply_scheduled apply_heartbeat apply_completed apply_failed
    apply_lease_expired apply_timer_fired apply_compensating
apply_payload-Orderly e (started p) s h = Ensures-ok h
apply_payload-Orderly e (scheduled p) s h =
    Ensures-elim (lookup p.step_id s.steps) (λ _. Ensures-err _) λ step _. Ensures-ok h
apply_payload-Orderly e (leased p) s h =
    same_order (apply_leased p s) s h λ t k. apply_leased-order p s t k
apply_payload-Orderly e (heartbeat p) s h =
    Ensures-elim (lookup e.task_id s.tasks) (λ _. Ensures-err _) λ task _. Ensures-ok h
apply_payload-Orderly e (completed p) s h =
    Ensures-elim (lookup p.task_id s.tasks) (λ _. Ensures-err _)
      λ task _.
        Ensures-elim (lookup p.step_id s.steps) (λ _. Ensures-err _)
          λ step _. elim (Bool-cases p.compensation) [
            | inl back ↦ rw back (Ensures-ok h)
            | inr forth ↦
                rw forth (Ensures-ok (IsDistinct-append_new s.completed_order p.step_id h))
          ]
apply_payload-Orderly e (failed p) s h =
    Ensures-elim (lookup p.task_id s.tasks) (λ _. Ensures-err _)
      λ task _. Ensures-elim (lookup p.step_id s.steps) (λ _. Ensures-err _) λ step _. Ensures-ok h
apply_payload-Orderly e (retry_scheduled p) s h =
    same_order (apply_retry_scheduled p s) s h λ t k. apply_retry_scheduled-order p s t k
apply_payload-Orderly e (lease_expired p) s h =
    Ensures-elim (lookup p.task_id s.tasks) (λ _. Ensures-err _) λ task _. Ensures-ok h
apply_payload-Orderly e (cancelled p) s h =
    same_order (apply_cancelled p s) s h λ t k. apply_cancelled-order p s t k
apply_payload-Orderly e (timer p) s h =
    Ensures-elim (lookup p.task_id s.tasks) (λ _. Ensures-err _)
      λ task _.
        Ensures-elim (lookup p.step_id s.steps) (λ _. Ensures-err _)
          λ step _. Ensures-ok (IsDistinct-append_new s.completed_order p.step_id h)
apply_payload-Orderly e (cancel_requested p) s h = Ensures-ok h
apply_payload-Orderly e (compensating p) s h = Ensures-ok h
apply_payload-Orderly e (finished p) s h = Ensures-ok h
apply_payload-Orderly e (run_failure p) s h = Ensures-ok h
apply_payload-Orderly e (run_cancel p) s h = Ensures-ok h

apply_events-Orderly :
    (s : RunState) (es : List Event) → Orderly s → Ensures Orderly (apply_events s es)
unfolding apply_events apply_event
apply_events-Orderly s [] h = Ensures-ok h
apply_events-Orderly s (e ∷ es) h =
    Ensures-bind (apply_event s e)
      (Ensures-bind-eq (decode e.type e.payload) λ p _. apply_payload-Orderly e p (stamp e s) h)
      λ t _ h'. apply_events-Orderly t es h'

-- In the state of a replay no step stands twice in the completed order, however often the history
-- completes it.
pub replay-IsDistinct :
    (d : Definition) (run : RunRecord) (es : List Event) {s : RunState}
    → replay d run es ≡ ok s
    → IsDistinct s.completed_order
unfolding replay mark_satisfied initial_state
replay-IsDistinct d run es {s} e =
    (Ensures-bind {Q = Orderly} (apply_events (initial_state d run) es)
        (apply_events-Orderly (initial_state d run) es tt) λ t _ h. Ensures-ok h).holds
      s e
