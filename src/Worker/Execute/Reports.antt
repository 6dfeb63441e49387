-- ===== src/Worker/Execute/Reports.antt =====
-- The report that `execute` of internal/worker/worker.go makes, on all of its branches.
use go_project.Prelude.{
  Bool, true, false, ◌≡◌, ◌≢◌, ◌↔◌, refl, sym, ap, ◌∙◌, Option, none, some, List, [], ◌∷◌, Error,
  context_done, Result, ok, err, arith, Option-cases, Bool-cases, subst, inl, inr,
}
use go_project.History.Json.{Json, Raw}
use go_project.Workflow.Registry.{Registry, handler}
use go_project.Engine.Types.{TaskRecord}
use go_project.Store.Sqlite.{HeartbeatReply}
use go_project.Worker.Input.{ActivityInput, decode_input}
use go_project.Worker.Execute.{
  Failure, handler_not_found, bad_input, bad_output, run_cancelled, from_heartbeat, from_handler,
  Value, Outcome, returned, raised, Ended, finished, stopped, completed, failed, marshal_output,
  heartbeats, is_retryable, with_lease, run_handler, report_of, or_bad_output, execute, is_lost,
}

-- A failure that a later attempt may not meet.
abbrev pub IsTransient : Failure → Type 0
IsTransient (from_heartbeat e) = e ≢ context_done
IsTransient (from_handler e) =
    (e.non_retryable ≡ false) × (e.is_canceled ≡ false) × (e.is_run_cancelled ≡ false)
IsTransient f = ⊥

-- A failure that ends a handler that ran.
abbrev IsStop : Failure → Type 0
IsStop handler_not_found = ⊥
IsStop bad_input = ⊥
IsStop bad_output = ⊥
IsStop f = Unit

retryable-IsTransient : (f : Failure) → IsStop f → is_retryable f ≡ true → IsTransient f
unfolding is_retryable
retryable-IsTransient handler_not_found s r = absurd s
retryable-IsTransient bad_input s r = absurd s
retryable-IsTransient bad_output s r = absurd s
retryable-IsTransient run_cancelled s r = absurd (ground arith)
retryable-IsTransient (from_heartbeat e) s r =
    λ done. cc (sym r ∙ ap (λ (x : Error). is_retryable (from_heartbeat x)) done)
retryable-IsTransient (from_handler e) s r = ground arith

failure_of : Failure → Option Failure → Failure
failure_of d none = d
failure_of d (some f) = f

to_stop : (f g : Failure) → IsStop f → some f ≡ some g → IsStop g
unfolding failure_of
to_stop f g s h = subst IsStop (λ i. failure_of f (h i)) s

module _ {A Handler : Type 0} (encode : A → Result Json)
    (run : Handler → ActivityInput → Bool → Outcome A) (registry : Registry Handler) where
  -- The handler was found and ran on the decoded input, no heartbeat failed or asked to stop, and the
  -- value that it returned is encoded as `output`.
  pub record Completes (task : TaskRecord) (beats : List (Result HeartbeatReply)) (output : Raw)
      : Type 0 where
    pub found : Handler
    pub registered : handler task.activity_name registry ≡ some found
    pub input : ActivityInput
    pub decoded : decode_input task.input ≡ ok input
    pub beating : heartbeats beats ≡ none
    pub result : Value A
    pub ran : run found input false ≡ returned result
    pub encoded : marshal_output encode result ≡ ok output

  or_bad_output-completed :
      (m : Result Raw) (output : Raw)
      → or_bad_output encode run registry m ≡ completed output
      → m ≡ ok output
  unfolding or_bad_output
  or_bad_output-completed (ok r) output h = ground arith
  or_bad_output-completed (err e) output h = ground arith

  or_bad_output-failed :
      (m : Result Raw) (f : Failure) → or_bad_output encode run registry m ≡ failed f true → ⊥
  unfolding or_bad_output
  or_bad_output-failed (ok r) f h = ground arith
  or_bad_output-failed (err e) f h = ground arith

  report_of-completed :
      (o : Ended A) (output : Raw)
      → report_of encode run registry o ≡ completed output
      → (v : Value A) × (o ≡ finished v) × (marshal_output encode v ≡ ok output)
  unfolding report_of
  report_of-completed (stopped f) output h = absurd (ground arith)
  report_of-completed (finished v) output h =
      (v, refl, or_bad_output-completed (marshal_output encode v) output h)

  with_lease-finished :
      (lost : Option Failure) (o : Outcome A) (v : Value A)
      → with_lease lost o ≡ finished v
      → (lost ≡ none) × (o ≡ returned v)
  unfolding with_lease
  with_lease-finished none (returned w) v h = (refl, ground arith)
  with_lease-finished none (raised e) v h = ground arith
  with_lease-finished (some f) (returned w) v h = ground arith
  with_lease-finished (some f) (raised e) v h = ground arith

  run_handler-completed :
      (h : Handler) (input : Result ActivityInput) (lost : Option Failure) (output : Raw)
      → run_handler encode run registry h input lost ≡ completed output
      → (i : ActivityInput) × (v : Value A) × (input ≡ ok i)
        × (lost ≡ none)
        × (run h i false ≡ returned v)
        × (marshal_output encode v ≡ ok output)
  unfolding run_handler
  run_handler-completed h (err e) lost output r = absurd (ground arith)
  run_handler-completed h (ok i) lost output r =
      let (v, o, m) = report_of-completed (with_lease lost (run h i (is_lost lost))) output r in
      let (beating, ran) = with_lease-finished lost (run h i (is_lost lost)) v o in
      (i, v, refl, beating, ap (λ (l : Option Failure). run h i (is_lost l)) (sym beating) ∙ ran, m)

  -- `execute` reports a completion exactly when the handler is registered, the input decodes, no
  -- heartbeat failed or asked to stop, the handler returned a value and the value is encoded as the
  -- reported output.
  pub execute-completed :
      (task : TaskRecord) (beats : List (Result HeartbeatReply)) (output : Raw)
      → (execute encode run registry task beats ≡ completed output) ↔ Completes task beats output
  unfolding execute
  execute-completed task beats output = (
    λ r. elim (Option-cases (handler task.activity_name registry)) [
      | inl missing ↦ absurd (clash (rw (missing, execute) at r))
      | inr (h, found) ↦
          let (i, v, decoded, beating, ran, encoded) =
            run_handler-completed h (decode_input task.input) (heartbeats beats) output
              (rw (found, execute) at r) in
          record {
            found = h;
            registered = found;
            input = i;
            decoded = decoded;
            beating = beating;
            result = v;
            ran = ran;
            encoded = encoded;
          }
    ],
    λ c.
        unfold run_handler report_of with_lease or_bad_output in
        rw (c.registered, c.decoded, c.beating, c.ran, c.encoded, execute) refl,
  )
    where
      clash : failed handler_not_found false ≡ completed output → ⊥
      clash e = ground arith

  heartbeats-IsStop :
      (beats : List (Result HeartbeatReply)) (f : Failure) → heartbeats beats ≡ some f → IsStop f
  unfolding heartbeats
  heartbeats-IsStop [] f h = cc
  heartbeats-IsStop (err e ∷ beats) f h = to_stop (from_heartbeat e) f tt h
  heartbeats-IsStop (ok reply ∷ beats) f h = elim (Bool-cases reply.cancel_requested) [
    | inl asked ↦ to_stop run_cancelled f tt (rw asked at h)
    | inr quiet ↦ heartbeats-IsStop beats f (rw quiet at h)
  ]

  with_lease-IsStop :
      (beats : List (Result HeartbeatReply)) (o : Outcome A) (f : Failure)
      → with_lease (heartbeats beats) o ≡ stopped f
      → IsStop f
  unfolding with_lease
  with_lease-IsStop beats o f h = go (heartbeats beats) o h (λ g. heartbeats-IsStop beats g)
    where
      go :
          (lost : Option Failure) (o : Outcome A)
          → with_lease lost o ≡ stopped f
          → ((g : Failure) → lost ≡ some g → IsStop g)
          → IsStop f
      go none (returned v) h k = absurd (ground arith)
      go none (raised e) h k = subst IsStop {x = from_handler e} (ground arith) tt
      go (some g) (returned v) h k = subst IsStop {x = g} (ground arith) (k g refl)
      go (some g) (raised e) h k = subst IsStop {x = from_handler e} (ground arith) tt

  report_of-failed :
      (o : Ended A) (f : Failure)
      → report_of encode run registry o ≡ failed f true
      → (o ≡ stopped f) × (is_retryable f ≡ true)
  unfolding report_of
  report_of-failed (stopped g) f h = (ground arith, ground arith)
  report_of-failed (finished v) f h = absurd (or_bad_output-failed (marshal_output encode v) f h)

  run_handler-failed :
      (h : Handler) (input : Result ActivityInput) (beats : List (Result HeartbeatReply))
      (f : Failure)
      → run_handler encode run registry h input (heartbeats beats) ≡ failed f true
      → IsTransient f
  unfolding run_handler
  run_handler-failed h (err e) beats f r = absurd (ground arith)
  run_handler-failed h (ok i) beats f r =
      let o = run h i (is_lost (heartbeats beats)) in
      let (stop, again) = report_of-failed (with_lease (heartbeats beats) o) f r in
      retryable-IsTransient f (with_lease-IsStop beats o f stop) again

  -- Only a failed heartbeat and an error of the handler are reported as failures to try again, the
  -- first if it is not a done context, the second if it is not marked as permanent, not a cancelled
  -- context and not the signal of a cancelled run.
  pub execute-retryable :
      (task : TaskRecord) (beats : List (Result HeartbeatReply)) (f : Failure)
      → execute encode run registry task beats ≡ failed f true
      → IsTransient f
  unfolding execute
  execute-retryable task beats f h = elim (Option-cases (handler task.activity_name registry)) [
    | inl missing ↦ absurd (clash (rw (missing, execute) at h))
    | inr (found, registered) ↦
        run_handler-failed found (decode_input task.input) beats f (rw (registered, execute) at h)
  ]
    where
      clash : failed handler_not_found false ≡ failed f true → ⊥
      clash e = ground arith
