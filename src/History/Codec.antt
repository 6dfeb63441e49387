-- ===== src/History/Codec.antt =====
-- `json.Marshal` and `json.Unmarshal` of the payload structs, field by field from their tags.
pub mod RoundTrip
use go_project.Prelude.{
  String, Bool, Option, ℤ, Result, ok, err, decode_payload, unsupported_event, ◌>>=◌, Assoc,
}
use go_project.History.Json.{
  Json, Members, end, member, number, text, time, flag, obj, Raw, absent, value, malformed, field?,
  as_text, as_flag, as_number, as_time, as_raw, as_texts, as_raws, marshal_raw, text_if_set,
  texts_if_set, raws_if_set,
}
use go_project.History.Payloads.{
  EventType, workflow_started, task_scheduled, task_leased, task_heartbeat, task_completed,
  task_failed, task_retry_scheduled, task_lease_expired, task_cancelled, timer_fired,
  run_cancel_requested, run_compensating, run_completed, run_failed, run_cancelled, unsupported,
  TaskScheduledPayload, Payload, started, scheduled, leased, heartbeat, completed, failed,
  retry_scheduled, lease_expired, cancelled, timer, cancel_requested, compensating, finished,
  run_failure, run_cancel,
}

-- The members of a scheduled task, given those of `dependencies` and `compensation`.
unfoldable pub scheduled_members : TaskScheduledPayload → Json → Members → Members
unfolding text_if_set
scheduled_members p input rest = member "task_id" (text p.task_id) (
    member "step_id" (text p.step_id) (
      member "kind" (text p.kind) (
        member "queue" (text p.queue) (
          text_if_set "activity" p.activity (
            member "attempt" (number p.attempt) (
              member "max_attempts" (number p.max_attempts) (
                member "timeout_seconds" (number p.timeout_seconds)
                  (member "available_at" (time p.available_at) (member "input" input rest)))))))))

unfoldable pub encode_fields : Payload → Result Members
encode_fields (started p) = marshal_raw p.input >>= λ input. ok (
    member "workflow" (text p.workflow)
      (member "input" input (texts_if_set "metadata" p.metadata end)))
encode_fields (scheduled p) = marshal_raw p.input >>= λ input.
    raws_if_set "dependencies" p.dependencies (member "compensation" (flag p.compensation) end)
    >>= λ rest. ok (scheduled_members p input rest)
encode_fields (leased p) = ok (
    member "task_id" (text p.task_id) (
      member "step_id" (text p.step_id) (
        member "worker_id" (text p.worker_id) (
          member "attempt" (number p.attempt)
            (member "lease_expires_at" (time p.lease_expires_at) end)))))
encode_fields (heartbeat p) = ok (
    member "task_id" (text p.task_id) (
      member "worker_id" (text p.worker_id)
        (member "lease_expires_at" (time p.lease_expires_at) end)))
encode_fields (completed p) = marshal_raw p.output >>= λ output. ok (
    member "task_id" (text p.task_id) (
      member "step_id" (text p.step_id) (
        text_if_set "worker_id" p.worker_id
          (member "output" output (member "compensation" (flag p.compensation) end)))))
encode_fields (failed p) = ok (
    member "task_id" (text p.task_id) (
      member "step_id" (text p.step_id) (
        text_if_set "worker_id" p.worker_id
          (member "error" (text p.error) (member "compensation" (flag p.compensation) end)))))
encode_fields (retry_scheduled p) = ok (
    member "task_id" (text p.task_id) (
      member "step_id" (text p.step_id) (
        member "attempt" (number p.attempt)
          (member "available_at" (time p.available_at) (member "error" (text p.error) end)))))
encode_fields (lease_expired p) = ok (
    member "task_id" (text p.task_id)
      (member "step_id" (text p.step_id) (member "error" (text p.error) end)))
encode_fields (cancelled p) = ok (
    member "task_id" (text p.task_id) (
      member "step_id" (text p.step_id)
        (member "reason" (text p.reason) (member "compensation" (flag p.compensation) end))))
encode_fields (timer p) =
    ok (member "task_id" (text p.task_id) (member "step_id" (text p.step_id) end))
encode_fields (cancel_requested p) = ok (member "reason" (text p.reason) end)
encode_fields (compensating p) = ok (member "reason" (text p.reason) end)
encode_fields (finished p) = marshal_raw p.output >>= λ output. ok (member "output" output end)
encode_fields (run_failure p) = ok (member "error" (text p.error) end)
encode_fields (run_cancel p) = ok (member "reason" (text p.reason) end)

unfoldable pub marshal : Payload → Result Json
unfolding encode_fields scheduled_members
marshal p = encode_fields p >>= λ m. ok (obj m)

abbrev get_text : String → Members → Result String
get_text k m = as_text (field? k m)

abbrev get_flag : String → Members → Result Bool
get_flag k m = as_flag (field? k m)

abbrev get_number : String → Members → Result ℤ
get_number k m = as_number (field? k m)

abbrev get_time : String → Members → Result ℤ
get_time k m = as_time (field? k m)

abbrev get_raw : String → Members → Raw
get_raw k m = as_raw (field? k m)

-- The `var payload …` that the reducer declares for an event type, filled from the members.
unfoldable pub decode_fields : EventType → Members → Result Payload
decode_fields workflow_started m = do
  workflow ← get_text "workflow" m
  metadata ← as_texts (field? "metadata" m)
  ok (started (record { workflow = workflow; input = get_raw "input" m; metadata = metadata }))
decode_fields task_scheduled m = do
  task_id ← get_text "task_id" m
  step_id ← get_text "step_id" m
  kind ← get_text "kind" m
  queue ← get_text "queue" m
  activity ← get_text "activity" m
  attempt ← get_number "attempt" m
  max_attempts ← get_number "max_attempts" m
  timeout_seconds ← get_number "timeout_seconds" m
  available_at ← get_time "available_at" m
  dependencies ← as_raws (field? "dependencies" m)
  compensation ← get_flag "compensation" m
  ok (
      scheduled (record {
        task_id = task_id;
        step_id = step_id;
        kind = kind;
        queue = queue;
        activity = activity;
        attempt = attempt;
        max_attempts = max_attempts;
        timeout_seconds = timeout_seconds;
        available_at = available_at;
        input = get_raw "input" m;
        dependencies = dependencies;
        compensation = compensation;
      }))
decode_fields task_leased m = do
  task_id ← get_text "task_id" m
  step_id ← get_text "step_id" m
  worker_id ← get_text "worker_id" m
  attempt ← get_number "attempt" m
  lease_expires_at ← get_time "lease_expires_at" m
  ok (
      leased (record {
        task_id = task_id;
        step_id = step_id;
        worker_id = worker_id;
        attempt = attempt;
        lease_expires_at = lease_expires_at;
      }))
decode_fields task_heartbeat m = do
  task_id ← get_text "task_id" m
  worker_id ← get_text "worker_id" m
  lease_expires_at ← get_time "lease_expires_at" m
  ok (
      heartbeat
        (record { task_id = task_id; worker_id = worker_id; lease_expires_at = lease_expires_at }))
decode_fields task_completed m = do
  task_id ← get_text "task_id" m
  step_id ← get_text "step_id" m
  worker_id ← get_text "worker_id" m
  compensation ← get_flag "compensation" m
  ok (
      completed (record {
        task_id = task_id;
        step_id = step_id;
        worker_id = worker_id;
        output = get_raw "output" m;
        compensation = compensation;
      }))
decode_fields task_failed m = do
  task_id ← get_text "task_id" m
  step_id ← get_text "step_id" m
  worker_id ← get_text "worker_id" m
  error ← get_text "error" m
  compensation ← get_flag "compensation" m
  ok (
      failed (record {
        task_id = task_id;
        step_id = step_id;
        worker_id = worker_id;
        error = error;
        compensation = compensation;
      }))
decode_fields task_retry_scheduled m = do
  task_id ← get_text "task_id" m
  step_id ← get_text "step_id" m
  attempt ← get_number "attempt" m
  available_at ← get_time "available_at" m
  error ← get_text "error" m
  ok (
      retry_scheduled (record {
        task_id = task_id;
        step_id = step_id;
        attempt = attempt;
        available_at = available_at;
        error = error;
      }))
decode_fields task_lease_expired m = do
  task_id ← get_text "task_id" m
  step_id ← get_text "step_id" m
  error ← get_text "error" m
  ok (lease_expired (record { task_id = task_id; step_id = step_id; error = error }))
decode_fields task_cancelled m = do
  task_id ← get_text "task_id" m
  step_id ← get_text "step_id" m
  reason ← get_text "reason" m
  compensation ← get_flag "compensation" m
  ok (
      cancelled (record {
        task_id = task_id;
        step_id = step_id;
        reason = reason;
        compensation = compensation;
      }))
decode_fields timer_fired m = do
  task_id ← get_text "task_id" m
  step_id ← get_text "step_id" m
  ok (timer (record { task_id = task_id; step_id = step_id }))
decode_fields run_cancel_requested m = do
  reason ← get_text "reason" m
  ok (cancel_requested (record { reason = reason }))
decode_fields run_compensating m = do
  reason ← get_text "reason" m
  ok (compensating (record { reason = reason }))
decode_fields run_completed m = ok (finished (record { output = get_raw "output" m }))
decode_fields run_failed m = do
  error ← get_text "error" m
  ok (run_failure (record { error = error }))
decode_fields run_cancelled m = do
  reason ← get_text "reason" m
  ok (run_cancel (record { reason = reason }))
decode_fields (unsupported t) m = err (unsupported_event t)

abbrev decode_value : EventType → Json → Result Payload
decode_value t (obj m) = decode_fields t m
decode_value t Json.null = decode_fields t end
decode_value (unsupported t) _ = err (unsupported_event t)
decode_value t _ = err decode_payload

abbrev decode_raw : EventType → Raw → Result Payload
decode_raw t absent = decode_fields t end
decode_raw t (value v) = decode_value t v
decode_raw (unsupported t) (malformed s) = err (unsupported_event t)
decode_raw t (malformed s) = err decode_payload

-- The switch of `applyEvent` on the event type with `decodePayload`: an empty payload leaves the
-- zero value, and the payload of an unsupported type is not read.
unfoldable pub decode : EventType → Raw → Result Payload
unfolding decode_fields
decode t r = decode_raw t r
