-- ===== src/Engine/Service.antt =====
-- The operations of internal/engine/service.go on a loaded run: what each of them asks the
-- repository to append, or the error that it returns.
pub mod Commits
pub mod Failures
pub mod Starting
use go_project.Engine.Loaded.{
  LoadedRun, Changes, begin_work, row_of, task_update, emit_for_task, summary, to_changes,
}
use Prim.Native.String.{◌++◌ as join}
use go_project.Prelude.{
  ℕ, ◌+◌, String, Bool, ◌&&◌, ◌||◌, not, Option, none, some, List, [], ◌∷◌, ◌++◌, ◌==◌,
  if◌then◌else◌, ℤ, pos, ◌+ℤ◌, leb_ℤ, ltb_ℤ, Result, ok, err, task_not_found, task_lease_lost,
  unknown_task, ◌>>=◌, Assoc, lookup, length,
}
use go_project.History.Json.{Raw, absent, zero_time}
use go_project.History.Payloads.{
  Payload, started, completed, failed, retry_scheduled, cancelled, timer, cancel_requested,
}
use go_project.History.Events.{Event}
use go_project.Workflow.Types.{Definition, step_of}
use go_project.Workflow.Retry.{normalize}
use go_project.Engine.Types.{
  RunStatus, terminal, TaskStatus, TaskPhase, is_available, is_leased, is_completed, is_failed,
  is_cancelled, is_compensation, task_kind_activity, task_kind_timer, RunRecord, TaskRecord,
  TaskMutation, update_task, TaskState, RunState,
}
use go_project.Engine.Reducer.{replay}
use go_project.Engine.Backoff.{backoff_for_attempt}
use go_project.Engine.Tasks.{make_event, normalize_json, update_task_record}
use go_project.Engine.Progress.{
  emit, schedule_forward_ready, Work, post_process, begin_compensation_or_finish,
}

-- The two guards on an activity task: it is leased, and by this worker.
unfoldable pub holds_lease : String → TaskState → Bool
holds_lease worker_id task =
    not (task.kind == task_kind_activity && not (is_leased task.status))
    && not (task.kind == task_kind_activity && not (task.lease_owner == worker_id))

-- `completeTaskOnce`.
unfoldable pub complete_task : (ℕ → String) → LoadedRun → String → String → Raw → ℤ → Result Changes
complete_task uuid l worker_id task_id output now = elim (lookup task_id l.state.tasks) [
  | none ↦ err task_not_found
  | some current ↦
      if holds_lease worker_id current
      then (emit_for_task current
            (completed (record {
              task_id = current.id;
              step_id = current.step_id;
              worker_id = worker_id;
              output = normalize_json output;
              compensation = is_compensation current.phase;
            }))
            now (begin_work l)
          >>= λ w. post_process uuid now w >>= λ w'. ok (to_changes l now w'))
      else err task_lease_lost
]

failure_text : TaskState → String → String
failure_text current message =
    if is_compensation current.phase
    then join "compensation for step " (join current.step_id (join " failed: " message))
    else message

-- `loaded.state.Run.Failure = …`
unfoldable pub set_failure : String → Work → Work
set_failure message w =
    let s = w.log.state in
    record w {
      log = record w.log { state = record s { run = record s.run { failure = message } } };
    }

-- The condition under which a failure is followed by another attempt.
unfoldable pub may_retry : LoadedRun → TaskState → Bool → Bool
may_retry l current retryable =
    not (is_compensation current.phase)
    && retryable
    && not l.state.cancel_requested
    && ltb_ℤ current.attempt
        (normalize (step_of l.definition.steps current.step_id).retry).max_attempts

-- `nextAt`.
unfoldable pub next_attempt_at : LoadedRun → TaskState → ℤ → ℤ
next_attempt_at l current now =
    now
    +ℤ backoff_for_attempt (normalize (step_of l.definition.steps current.step_id).retry)
        current.attempt

unfoldable pub retry_payload : LoadedRun → TaskState → String → ℤ → Payload
unfolding next_attempt_at
retry_payload l current message now = retry_scheduled (record {
  task_id = current.id;
  step_id = current.step_id;
  attempt = current.attempt +ℤ pos 1;
  available_at = next_attempt_at l current now;
  error = message;
})

-- The retry path: the mutation of the failure is replaced by the one of the retry. The status of
-- the run is not looked at here.
unfoldable pub retry_task : LoadedRun → TaskState → String → ℤ → Work → Result Changes
unfolding retry_payload next_attempt_at
retry_task l current message now w =
    emit w.run.id current.step_id current.id (retry_payload l current message now) now w.log
    >>= λ log. task_update current.id now (record w { log = log }) >>= λ row. ok (record {
      run = record log.state.run {
        version = length l.events + length log.events;
        updated_at = now;
      };
      expected_version = l.events_version;
      events = log.events;
      mutations =
          update_task (record row {
            attempt = current.attempt +ℤ pos 1;
            available_at = next_attempt_at l current now;
            last_error = message;
          })
          ∷ [];
    })

-- `failTaskOnce`; `message` is `taskErr.Error()`.
unfoldable pub fail_task :
    (ℕ → String) → LoadedRun → String → String → String → Bool → ℤ → Result Changes
unfolding failure_text
fail_task uuid l worker_id task_id message retryable now = elim (lookup task_id l.state.tasks) [
  | none ↦ err task_not_found
  | some current ↦
      if holds_lease worker_id current
      then (emit_for_task current
            (failed (record {
              task_id = current.id;
              step_id = current.step_id;
              worker_id = worker_id;
              error = message;
              compensation = is_compensation current.phase;
            }))
            now (begin_work l)
          >>= λ w.
              if may_retry l current retryable
              then retry_task l current message now w
              else (begin_compensation_or_finish uuid now
                    (set_failure (failure_text current message) w)
                  >>= λ w'. ok (to_changes l now w')))
      else err task_lease_lost
]

-- A task that `cancelRunOnce` leaves alone.
unfoldable pub is_closed : TaskState → Bool
is_closed task = is_completed task.status || is_cancelled task.status || is_failed task.status

-- One round of its loop over the task rows.
unfoldable pub cancel_task : String → ℤ → TaskRecord → Work → Result Work
cancel_task reason now row w = elim (lookup row.id w.log.state.tasks) [
  | none ↦ ok w
  | some task ↦
      if is_closed task
      then ok w
      else (emit w.run.id row.step_id row.id
            (cancelled (record {
              task_id = row.id;
              step_id = row.step_id;
              reason = reason;
              compensation = is_compensation task.phase;
            }))
            now w.log
          >>= λ log. elim (lookup row.id log.state.tasks) [
            | none ↦ err (unknown_task row.id)
            | some task' ↦ ok (record w {
              log = log;
              mutations = w.mutations ++ update_task (update_task_record row task' now) ∷ [];
            })
          ])
]

unfoldable pub cancel_tasks : String → ℤ → List TaskRecord → Work → Result Work
cancel_tasks reason now [] w = ok w
cancel_tasks reason now (row ∷ rows) w =
    cancel_task reason now row w >>= λ w'. cancel_tasks reason now rows w'

-- `cancelRunOnce`; `none` is the return without changes of a run that has ended.
unfoldable pub cancel_run : (ℕ → String) → LoadedRun → String → ℤ → Result (Option Changes)
cancel_run uuid l reason now =
    if terminal l.run.status
    then ok none
    else (emit l.run.id "" "" (cancel_requested (record { reason = reason })) now (begin_work l).log
        >>= λ log.
            cancel_tasks reason now l.task_list (record (begin_work l) { log = log }) >>= λ w.
            begin_compensation_or_finish uuid now w >>= λ w'. ok (some (to_changes l now w')))

-- The guards of `fireTimerOnce`: an available timer that is due.
unfoldable pub is_due : TaskState → ℤ → Bool
is_due task now =
    task.kind == task_kind_timer && is_available task.status && leb_ℤ task.available_at now

-- `fireTimerOnce`.
unfoldable pub fire_timer : (ℕ → String) → LoadedRun → String → ℤ → Result (Option Changes)
fire_timer uuid l task_id now = elim (lookup task_id l.state.tasks) [
  | none ↦ ok none
  | some current ↦
      if is_due current now
      then (emit_for_task current
            (timer (record { task_id = current.id; step_id = current.step_id })) now (begin_work l)
          >>= λ w. post_process uuid now w >>= λ w'. ok (some (to_changes l now w')))
      else ok none
]

-- What `StartRun` hands to `CreateRun`.
pub record NewRun : Type 0 where
  pub run : RunRecord
  pub events : List Event
  pub tasks : List TaskRecord

-- `StartRun` under the definition that the registry has; `run_id` is the generated id.
unfoldable pub start_run :
    (ℕ → String) → Definition → String → Raw → Assoc String → ℤ → Result NewRun
start_run uuid d run_id input metadata now =
    let run : RunRecord = record {
      id = run_id;
      workflow_name = d.name;
      status = RunStatus.running;
      input = normalize_json input;
      output = absent;
      failure = "";
      cancel_reason = "";
      metadata = metadata;
      created_at = now;
      updated_at = now;
      completed_at = none;
      version = 0;
    } in
    make_event run_id 1 "" ""
      (started (record { workflow = d.name; input = normalize_json input; metadata = metadata }))
      now
    >>= λ first. replay d run (first ∷ []) >>= λ s.
        schedule_forward_ready uuid run d now (record { state = s; seq = 2; events = first ∷ [] })
        >>= λ ready. ok (record {
          run = record run { version = length ready.0.events; updated_at = now };
          events = ready.0.events;
          tasks = ready.1;
        })
