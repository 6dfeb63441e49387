-- ===== src/Engine/Service/Failures.antt =====
-- What `failTaskOnce` of internal/engine/service.go appends: a retry, an unwinding or the end.
use go_project.Prelude.{
  List, arith, ℕ, String, ◌≡◌, refl, ◌∙◌, Bool, false, ℤ, lookup, Ensures, Ensures-ok, Ensures-err,
  Ensures-bind, Ensures-bind-eq, Ensures-if, Ensures-elim,
}
use go_project.History.Payloads.{failed}
use go_project.History.Events.{Event}
use go_project.Engine.Types.{TaskState, RunState}
use go_project.Engine.Reducer.RunFields.{next_cancelled, apply_event-id, apply_events-id}
use go_project.Engine.Progress.{Work, emit, begin_compensation_or_finish}
use go_project.Engine.Progress.Replays.{emit-Extends, begin_compensation_or_finish-Extends}
use go_project.Engine.Progress.Failure.{emit-cancel_requested, begin_failed-Extends}
use go_project.History.Codec.RoundTrip.{settle}
use go_project.Engine.Service.{
  holds_lease, may_retry, retry_task, failure_text, set_failure, fail_task,
}
use go_project.Engine.Loaded.{LoadedRun, begin_work, emit_for_task, task_update}
use go_project.Engine.Service.Commits.{
  Commits, Continues, begin_work-Continues, emit_for_task-Carries, Numbers, CarriesOn,
  to_changes-Numbers, to_changes-Commits,
}

retry_task-Numbers :
    {R : List Event → RunState → Type 0} (l : LoadedRun) (current : TaskState) (message : String)
    (now : ℤ) (w : Work)
    → CarriesOn l R w
    → ((es : List Event) (t : RunState) → R es t → t.run.id ≡ l.state.run.id)
    → Ensures (Numbers l) (retry_task l current message now w)
unfolding retry_task
retry_task-Numbers l current message now w x own =
    Ensures-bind (emit w.run.id current.step_id current.id _ now w.log)
      (emit-Extends w.run.id current.step_id current.id _ now w.log x.1 x.0)
      λ log _ x'. Ensures-bind-eq (task_update current.id now (record w { log = log })) λ row _.
        Ensures-ok (record {
          numbered = x'.numbered;
          owned = x'.owned;
          id = own log.events log.state x'.reached;
          version = refl;
          expected = refl;
        })

retry_task-Commits :
    (l : LoadedRun) (current : TaskState) (message : String) (now : ℤ) (w : Work)
    → Continues l w
    → Ensures (Commits l) (retry_task l current message now w)
unfolding retry_task
retry_task-Commits l current message now w x =
    Ensures-bind (emit w.run.id current.step_id current.id _ now w.log)
      (emit-Extends w.run.id current.step_id current.id _ now w.log x.1 x.0)
      λ log _ x'. Ensures-bind-eq (task_update current.id now (record w { log = log })) λ row _.
        Ensures-ok (record {
          numbers = record {
            numbered = x'.numbered;
            owned = x'.owned;
            id = apply_events-id l.state log.events x'.reached;
            version = refl;
            expected = refl;
          };
          final = log.state;
          replays = x'.reached;
          same = record { status = refl; failure = refl; cancel_reason = refl; output = refl };
        })

-- The state is of the loaded run: what is left to know of it where a failure has been written.
abbrev OfRun : LoadedRun → List Event → RunState → Type 0
OfRun l es t = t.run.id ≡ l.state.run.id

begin_work-OfRun : (l : LoadedRun) → CarriesOn l (OfRun l) (begin_work l)
unfolding begin_work
begin_work-OfRun l = (
  record {
    closed = λ es e t u h k. apply_event-id t e k ∙ h;
    reached = refl;
    numbered = tt;
    owned = tt;
    counted = omega arith;
  },
  refl,
)

set_failure-OfRun :
    (l : LoadedRun) (message : String) (w : Work)
    → CarriesOn l (OfRun l) w
    → CarriesOn l (OfRun l) (set_failure message w)
unfolding set_failure
set_failure-OfRun l message w x = (
  record {
    closed = x.0.closed;
    reached = x.0.reached;
    numbered = x.0.numbered;
    owned = x.0.owned;
    counted = x.0.counted;
  },
  x.1,
)

-- What `failTaskOnce` writes is of the run that it loaded, and numbered on from its version.
pub fail_task-Numbers :
    (uuid : ℕ → String) (l : LoadedRun) (worker_id task_id message : String) (retryable : Bool)
    (now : ℤ)
    → Ensures (Numbers l) (fail_task uuid l worker_id task_id message retryable now)
unfolding fail_task
fail_task-Numbers uuid l worker_id task_id message retryable now =
    Ensures-elim (lookup task_id l.state.tasks) (λ _. Ensures-err _)
      λ current _.
        Ensures-if (holds_lease worker_id current)
          (λ _.
            Ensures-bind (emit_for_task current _ now (begin_work l))
              (emit_for_task-Carries current _ now (begin_work l) (begin_work-OfRun l))
              λ w hw x.
                Ensures-if (may_retry l current retryable)
                  (λ _. retry_task-Numbers l current message now w x (λ es t h. h))
                  (λ _.
                    Ensures-bind
                      (begin_compensation_or_finish uuid now
                        (set_failure (failure_text current message) w))
                      (begin_compensation_or_finish-Extends uuid now
                        (set_failure (failure_text current message) w)
                        (set_failure-OfRun l (failure_text current message) w x))
                      λ w' _ x'. Ensures-ok (to_changes-Numbers l now w' x' x'.0.reached)))
          (λ _. Ensures-err _)

-- A failed event leaves the cancellation flag alone.
emit_for_task-cancel_requested :
    (current : TaskState) (p : _) (now : ℤ) (w : Work)
    → Ensures
        (λ (w' : Work). w'.log.state.cancel_requested ≡ w.log.state.cancel_requested)
        (emit_for_task current (failed p) now w)
unfolding emit_for_task settle next_cancelled
emit_for_task-cancel_requested current p now w =
    Ensures-bind (emit w.run.id current.step_id current.id (failed p) now w.log)
      (emit-cancel_requested w.run.id current.step_id current.id (failed p) now w.log)
      λ log _ q.
        Ensures-bind-eq (task_update current.id now (record w { log = log })) λ row _. Ensures-ok q

-- `failTaskOnce` continues the history of the run that it loaded, if no cancellation of the run
-- was requested.
pub fail_task-Commits :
    (uuid : ℕ → String) (l : LoadedRun) (worker_id task_id message : String) (retryable : Bool)
    (now : ℤ)
    → l.state.cancel_requested ≡ false
    → Ensures (Commits l) (fail_task uuid l worker_id task_id message retryable now)
unfolding fail_task set_failure begin_work
fail_task-Commits uuid l worker_id task_id message retryable now h =
    Ensures-elim (lookup task_id l.state.tasks) (λ _. Ensures-err _)
      λ current _.
        Ensures-if (holds_lease worker_id current)
          (λ _.
            Ensures-bind (emit_for_task current _ now (begin_work l))
              (emit_for_task-Carries current _ now (begin_work l) (begin_work-Continues l))
              λ w hw x.
                Ensures-if (may_retry l current retryable)
                  (λ _. retry_task-Commits l current message now w x)
                  (λ _.
                    Ensures-bind
                      (begin_compensation_or_finish uuid now
                        (set_failure (failure_text current message) w))
                      (begin_failed-Extends uuid now (failure_text current message) w x (
                        (emit_for_task-cancel_requested current _ now (begin_work l)).holds w hw
                        ∙ h))
                      λ w' _ x'. Ensures-ok (to_changes-Commits l now w' x')))
          (λ _. Ensures-err _)
