-- ===== src/Engine/Progress/Failure.antt =====
-- The failure text that `failTaskOnce` (internal/engine/service.go) writes into the state without an
-- event, and the event that follows.
use go_project.Prelude.{
  ℕ, String, ◌≡◌, refl, Bool, false, true, List, ℤ, ok, inl, inr, Result-cases, arith,
  if◌then◌else◌, Ensures, Ensures-elim, Ensures-bind, Ensures-bind-eq, Ensures-ok,
}
use go_project.History.Payloads.{Payload, compensating, run_failure}
use go_project.History.Codec.{marshal, decode}
use go_project.History.Codec.RoundTrip.{settle, decode-marshal}
use go_project.History.Events.{Event, new}
use go_project.Engine.Types.{RunState}
use go_project.Engine.Reducer.{apply_event, apply_payload, stamp}
use go_project.Engine.Effects.{apply_compensating}
use go_project.Engine.Reducer.RunFields.{next_cancelled, apply_payload-cancel_requested}
use go_project.Engine.Tasks.{make_event}
use go_project.Engine.Progress.{
  Log, record_event, emit, Work, next_compensation_step, finish_run, begin_compensation_or_finish,
}
use go_project.Engine.Progress.Replays.{
  Extends, Carries, emit-Extends, schedule_compensation-Extends,
}

-- An event that `makeEvent` returns is read back as the payload that it was made from.
pub make_event-decode :
    (run_id : String) (seq : ℕ) (step_id task_id : String) (p : Payload) (now : ℤ) {e : Event}
    → make_event run_id seq step_id task_id p now ≡ ok e
    → decode e.type e.payload ≡ ok (settle p)
unfolding make_event new
make_event-decode run_id seq step_id task_id p now {e} h = elim (Result-cases (marshal p)) [
  | inl (j, hj) ↦ ground (arith, decode-marshal p j hj)
  | inr (x, hx) ↦ ground arith
]

-- An event leaves the cancellation flag alone, unless it requests the cancellation.
pub emit-cancel_requested :
    (run_id step_id task_id : String) (p : Payload) (now : ℤ) (log : Log)
    → Ensures
        (λ (log' : Log).
          log'.state.cancel_requested ≡ next_cancelled (settle p) log.state.cancel_requested)
        (emit run_id step_id task_id p now log)
unfolding emit record_event apply_event
emit-cancel_requested run_id step_id task_id p now log =
    Ensures-bind-eq (make_event run_id log.seq step_id task_id p now) λ e he.
      rw (make_event-decode run_id log.seq step_id task_id p now he) (
        Ensures-bind-eq (apply_payload e (settle p) (stamp e log.state))
          λ t ht. Ensures-ok (apply_payload-cancel_requested e (settle p) log.state ht))

abbrev with_failure : String → RunState → RunState
with_failure message s = record s { run = record s.run { failure = message } }

-- The payloads that write the failure anew, as long as no cancellation was requested.
data Fails : Payload → Type 0 where
  by_compensating : (r : _) → Fails (compensating r)
  by_failure : (r : _) → Fails (run_failure r)

Fails-if : (b : Bool) (p : Payload) (r : _) → b ≡ false → Fails (if b then p else run_failure r)
Fails-if true p r h = cc
Fails-if false p r h = by_failure r

apply_payload-with_failure :
    {p : Payload} (e : Event) (message : String) (s : RunState)
    → Fails p
    → s.cancel_requested ≡ false
    → apply_payload e (settle p) (stamp e (with_failure message s))
      ≡ apply_payload e (settle p) (stamp e s)
unfolding apply_payload settle apply_compensating
apply_payload-with_failure e message s (by_compensating r) h = rw h refl
apply_payload-with_failure e message s (by_failure r) h = refl

abbrev log_with_failure : String → Log → Log
log_with_failure message log = record log { state = with_failure message log.state }

emit-with_failure :
    {p : Payload} (run_id : String) (now : ℤ) (message : String) (log : Log)
    → Fails p
    → log.state.cancel_requested ≡ false
    → emit run_id "" "" p now (log_with_failure message log) ≡ emit run_id "" "" p now log
unfolding emit record_event apply_event
emit-with_failure {p} run_id now message log f h =
    elim (Result-cases (make_event run_id log.seq "" "" p now)) [
      | inl (e, he) ↦
          rw (he, make_event-decode run_id log.seq "" "" p now he)
            (rw (apply_payload-with_failure e message log.state f h) refl)
      | inr (x, hx) ↦ rw hx
    ]

abbrev pub work_with_failure : String → Work → Work
work_with_failure message w = record w { log = log_with_failure message w.log }

module _ {id : String} {R : List Event → RunState → Type 0} {n : ℕ} (uuid : ℕ → String) (now : ℤ)
    (message : String) (w : Work) (x : Carries id R n w)
    (h : w.log.state.cancel_requested ≡ false) where
  failing-Extends :
      {p : Payload}
      → Fails p
      → Ensures (Extends id R n) (emit w.run.id "" "" p now (log_with_failure message w.log))
  failing-Extends {p} f =
      rw (emit-with_failure w.run.id now message w.log f h)
        (emit-Extends w.run.id "" "" p now w.log x.1 x.0)

  finish_failed-Extends : Ensures (Carries id R n) (finish_run now (work_with_failure message w))
  unfolding finish_run
  finish_failed-Extends =
      Ensures-bind (emit w.run.id "" "" _ now (log_with_failure message w.log))
        (failing-Extends (Fails-if w.log.state.cancel_requested _ _ h))
        λ log _ x'. Ensures-ok (x', x.1)

  -- The unwinding or the end that follows a failure leads on from the loaded state, the failure
  -- text included, as long as no cancellation was requested.
  pub begin_failed-Extends :
      Ensures (Carries id R n) (begin_compensation_or_finish uuid now (work_with_failure message w))
  unfolding begin_compensation_or_finish next_compensation_step
  begin_failed-Extends =
      Ensures-elim (next_compensation_step w.log.state) (λ _. finish_failed-Extends)
        λ step _.
          Ensures-bind (emit w.run.id "" "" _ now (log_with_failure message w.log))
            (failing-Extends (by_compensating _))
            λ log _ x'.
              schedule_compensation-Extends uuid now (record w { log = log }) (x', x.1) step
