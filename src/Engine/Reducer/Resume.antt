-- ===== src/Engine/Reducer/Resume.antt =====
-- `Replay` of internal/engine/reducer.go over a history that has grown, and over a summary that an
-- earlier replay gave.
use go_project.Prelude.{
  ◌≡◌, refl, sym, ap, ◌∙◌, List, ◌++◌, arith, ok, >>=-eq-ok, ok-injective, false, Option, none,
  some,
}
use go_project.History.Events.{Event}
use go_project.Workflow.Types.{Definition}
use go_project.Engine.Types.{RunStatus, RunRecord, RunState}
use go_project.Engine.Reducer.{initial_state, or_running, apply_events, mark_satisfied, replay}
use go_project.Engine.Reducer.Fold.{apply_events-append}
use go_project.Engine.Reducer.RunFields.{
  or_keep, overwrite, with_run, history_patch, apply_events-with_run, apply_events-run,
}
use go_project.Engine.Reducer.Marks.{apply_events-mark_satisfied}

pub replay-parts :
    (d : Definition) (run : RunRecord) (es : List Event) {s : RunState}
    → replay d run es ≡ ok s
    → (x : RunState) × (apply_events (initial_state d run) es ≡ ok x) × (mark_satisfied x ≡ s)
unfolding replay
replay-parts d run es h =
    let (x, hx, hs) = >>=-eq-ok (apply_events (initial_state d run) es) _ h in
    (x, hx, ok-injective hs)

replay-append :
    (d : Definition) (run : RunRecord) (es fs : List Event) {x t : RunState}
    → apply_events (initial_state d run) es ≡ ok x
    → apply_events x fs ≡ ok t
    → replay d run (es ++ fs) ≡ ok (mark_satisfied t)
unfolding replay
replay-append d run es fs hx ht = rw (apply_events-append, hx, ht)

-- Replay of a longer history: where the events `fs` take the replayed state `s` to `u`, the replay
-- of the whole history succeeds, with the state `u` but for the marks on the steps.
pub replay-resume :
    (d : Definition) (run : RunRecord) (es fs : List Event) {s u : RunState}
    → replay d run es ≡ ok s
    → apply_events s fs ≡ ok u
    → (t : RunState) × (replay d run (es ++ fs) ≡ ok t) × (t ≡ mark_satisfied u) × (t.run ≡ u.run)
unfolding mark_satisfied
replay-resume d run es fs {s} {u} h k =
    let (x, hx, hs) = replay-parts d run es h in
    let (t, ht, hr, hm) = apply_events-mark_satisfied x fs (ap (λ y. apply_events y fs) hs ∙ k) in
    (mark_satisfied t, replay-append d run es fs hx ht, hm, hr)

-- The four fields of the summary that `ReplayRun` compares.
pub record SameSummary (a b : RunRecord) : Type 0 where
  pub status : a.status ≡ b.status
  pub failure : a.failure ≡ b.failure
  pub cancel_reason : a.cancel_reason ≡ b.cancel_reason
  pub output : a.output ≡ b.output

pub SameSummary-sym : {a b : RunRecord} → SameSummary a b → SameSummary b a
SameSummary-sym h = record {
  status = sym h.status;
  failure = sym h.failure;
  cancel_reason = sym h.cancel_reason;
  output = sym h.output;
}

pub SameSummary-trans : {a b c : RunRecord} → SameSummary a b → SameSummary b c → SameSummary a c
SameSummary-trans h k = record {
  status = h.status ∙ k.status;
  failure = h.failure ∙ k.failure;
  cancel_reason = h.cancel_reason ∙ k.cancel_reason;
  output = h.output ∙ k.output;
}

or_keep_settled {ℓ} :
    {A : Type ℓ} (q : Option A) (a b : A) → b ≡ or_keep q a → or_keep q b ≡ or_keep q a
or_keep_settled none a b h = h
or_keep_settled (some v) a b h = refl

status_settled :
    (q : Option RunStatus) (a b : RunStatus)
    → b ≡ or_keep q (or_running a)
    → or_keep q (or_running b) ≡ or_keep q (or_running a)
status_settled q a b h = ground arith

same_summary :
    (d : Definition) (run run' : RunRecord) (es : List Event) {final : RunRecord}
    → final ≡ overwrite (history_patch false es) (initial_state d run).run
    → SameSummary run' final
    → SameSummary (overwrite (history_patch false es) (initial_state d run').run) final
unfolding initial_state
same_summary d run run' es e same =
    let q = history_patch false es in
    record {
      status =
          status_settled q.status run.status run'.status
            (same.status ∙ ap (λ (y : RunRecord). y.status) e)
          ∙ sym (ap (λ (y : RunRecord). y.status) e);
      failure =
          or_keep_settled q.failure run.failure run'.failure
            (same.failure ∙ ap (λ (y : RunRecord). y.failure) e)
          ∙ sym (ap (λ (y : RunRecord). y.failure) e);
      cancel_reason =
          or_keep_settled q.cancel_reason run.cancel_reason run'.cancel_reason
            (same.cancel_reason ∙ ap (λ (y : RunRecord). y.cancel_reason) e)
          ∙ sym (ap (λ (y : RunRecord). y.cancel_reason) e);
      output =
          or_keep_settled q.output run.output run'.output
            (same.output ∙ ap (λ (y : RunRecord). y.output) e)
          ∙ sym (ap (λ (y : RunRecord). y.output) e);
    }

-- A replay from the summary that a replay gave ends in the same summary.
pub replay_again :
    (d : Definition) (run run' : RunRecord) (es : List Event) {s : RunState}
    → replay d run es ≡ ok s
    → SameSummary run' s.run
    → (t : RunState) × (replay d run' es ≡ ok t) × SameSummary t.run s.run
unfolding mark_satisfied replay initial_state
replay_again d run run' es {s} h same =
    let (x, hx, hs) = replay-parts d run es h in
    let r' = (initial_state d run').run in
    let e = apply_events-run (initial_state d run) es hx in
    let hs' = ap (λ (y : RunState). y.run) (sym hs) ∙ e in
    (
      mark_satisfied (
          with_run (overwrite (history_patch false es) r')
            (or_keep (history_patch false es).metadata run'.metadata) x),
      rw (apply_events-with_run (initial_state d run) es {t = x} r' run'.metadata hx) refl,
      same_summary d run run' es hs' same,
    )
