-- ===== src/Worker/Execute.antt =====
-- `execute` and `marshalOutput` of internal/worker/worker.go. The handler and the encoder of its values
-- are the user's code and encoding/json, and stand as parameters; `beats` are the replies to the
-- heartbeats that were sent before the handler returned.
pub mod Reports
use go_project.Prelude.{
  String, Bool, true, false, ◌||◌, not, Option, none, some, List, [], ◌∷◌, if◌then◌else◌, Error,
  context_done, Result, ok, err, ◌>>=◌,
}
use go_project.History.Json.{Json, text, obj, end, member, Raw, absent, value, malformed}
use go_project.Workflow.Registry.{Registry, handler}
use go_project.Engine.Types.{TaskRecord}
use go_project.Engine.Effects.{null_json}
use go_project.Store.Sqlite.{HeartbeatReply}
use go_project.Worker.Input.{ActivityInput, decode_input}

-- The error of a handler: its text, and what `errors.As` and `errors.Is` find in it.
pub record HandlerError : Type 0 where
  pub message : String
  pub non_retryable : Bool
  pub is_canceled : Bool
  pub is_run_cancelled : Bool

pub data Failure : Type 0 where
  handler_not_found bad_input bad_output run_cancelled : Failure
  from_heartbeat : Error → Failure
  from_handler : HandlerError → Failure

-- The value of a handler, by the cases of `marshalOutput`.
pub data Value (A : Type 0) : Type 0 where
  nil : Value A
  raw : Raw → Value A
  plain : String → Value A
  other : A → Value A

pub data Outcome (A : Type 0) : Type 0 where
  returned : Value A → Outcome A
  raised : HandlerError → Outcome A

-- What `execute` goes on with: the value, or the error that counts.
pub data Ended (A : Type 0) : Type 0 where
  finished : Value A → Ended A
  stopped : Failure → Ended A

pub data Report : Type 0 where
  completed : Raw → Report
  failed : Failure → Bool → Report

or_null : Raw → Raw
or_null absent = null_json
or_null r = r

module _ {A : Type 0} (encode : A → Result Json) where
  -- `marshalOutput`.
  unfoldable pub marshal_output : Value A → Result Raw
  unfolding or_null
  marshal_output nil = ok null_json
  marshal_output (raw r) = ok (or_null r)
  marshal_output (plain s) = ok (value (obj (member "value" (text s) end)))
  marshal_output (other a) = encode a >>= λ j. ok (value j)

-- The goroutine of the heartbeats: what it sends on `leaseLost`, after which it has cancelled the
-- context of the handler.
unfoldable pub heartbeats : List (Result HeartbeatReply) → Option Failure
heartbeats [] = none
heartbeats (err e ∷ beats) = some (from_heartbeat e)
heartbeats (ok reply ∷ beats) =
    let rest = heartbeats beats in if reply.cancel_requested then some run_cancelled else rest

is_context_done : Error → Bool
is_context_done context_done = true
is_context_done e = false

-- `!IsNonRetryable(err) && !errors.Is(err, context.Canceled) && !errors.Is(err, ErrRunCancelledSignal)`.
unfoldable pub is_retryable : Failure → Bool
unfolding is_context_done
is_retryable run_cancelled = false
is_retryable (from_heartbeat e) = not (is_context_done e)
is_retryable (from_handler e) = not (e.non_retryable || e.is_canceled || e.is_run_cancelled)
is_retryable f = true

abbrev is_lost : Option Failure → Bool
is_lost none = false
is_lost (some f) = true

module _ {A : Type 0} where
  -- The `select` on `leaseLost`.
  unfoldable pub with_lease : Option Failure → Outcome A → Ended A
  with_lease (some f) (returned v) = stopped f
  with_lease none (returned v) = finished v
  with_lease lost (raised e) = stopped (from_handler e)

module _ {A Handler : Type 0} (encode : A → Result Json)
    (run : Handler → ActivityInput → Bool → Outcome A) (registry : Registry Handler) where
  or_bad_output : Result Raw → Report
  or_bad_output (ok r) = completed r
  or_bad_output (err e) = failed bad_output false

  report_of : Ended A → Report
  unfolding or_bad_output marshal_output
  report_of (stopped f) = failed f (is_retryable f)
  report_of (finished v) = or_bad_output (marshal_output encode v)

  run_handler : Handler → Result ActivityInput → Option Failure → Report
  unfolding report_of with_lease
  run_handler h (err e) lost = failed bad_input false
  run_handler h (ok input) lost = report_of (with_lease lost (run h input (is_lost lost)))

  -- `execute`: the call of `CompleteTask` or `FailTask` that it makes.
  unfoldable pub execute : TaskRecord → List (Result HeartbeatReply) → Report
  unfolding run_handler heartbeats decode_input
  execute task beats = elim (handler task.activity_name registry) [
    | none ↦ failed handler_not_found false
    | some h ↦ run_handler h (decode_input task.input) (heartbeats beats)
  ]
