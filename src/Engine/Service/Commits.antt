-- ===== src/Engine/Service/Commits.antt =====
-- What the operations of internal/engine/service.go ask the repository to append, against the run
-- that they loaded.
use go_project.Prelude.{
  ℕ, ◌+◌, String, ◌≡◌, refl, sym, subst, Option, none, some, List, [], ◌∷◌, ◌++◌, ℤ, ok, length,
  lookup, Ensures, arith, Ensures-ok, Ensures-err, Ensures-bind, Ensures-bind-eq, Ensures-if,
  Ensures-elim,
}
use go_project.History.Json.{Raw}
use go_project.History.Payloads.{Payload}
use go_project.History.Events.{Event}
use go_project.Engine.Types.{terminal, RunState, TaskRecord, TaskState}
use go_project.Engine.Reducer.{apply_events, replay}
use go_project.Engine.Reducer.RunFields.{apply_events-id}
use go_project.Engine.Reducer.Resume.{
  SameSummary, SameSummary-sym, SameSummary-trans, replay-resume, replay_again,
}
use go_project.Engine.Progress.{emit, Work, post_process, begin_compensation_or_finish}
use go_project.Engine.Progress.Replays.{
  AllOf, Consecutive, Carries, From, From-IsClosed, emit-Extends,
  begin_compensation_or_finish-Extends, post_process-Extends,
}
use go_project.Engine.Service.{
  holds_lease, complete_task, is_closed, cancel_task, cancel_tasks, cancel_run, is_due, fire_timer,
}
use go_project.Engine.Loaded.{
  LoadedRun, Changes, begin_work, task_update, emit_for_task, summary, to_changes,
}

-- The changes `c` are of the loaded run `l`, and numbered on from its version.
pub record Numbers (l : LoadedRun) (c : Changes) : Type 0 where
  pub numbered : Consecutive (l.run.version + 1) c.events
  pub owned : AllOf l.run.id c.events
  pub id : c.run.id ≡ l.state.run.id
  pub version : c.run.version ≡ length l.events + length c.events
  pub expected : c.expected_version ≡ l.events_version

-- They continue its history as well: their events lead from its state to `final`, which has the
-- summary that is written.
pub record Commits (l : LoadedRun) (c : Changes) : Type 0 where
  pub numbers : Numbers l c
  pub final : RunState
  pub replays : apply_events l.state c.events ≡ ok final
  pub same : SameSummary c.run final.run

abbrev pub CarriesOn : LoadedRun → (List Event → RunState → Type 0) → Work → Type 0
CarriesOn l R w = Carries l.run.id R (l.run.version + 1) w

abbrev pub Continues : LoadedRun → Work → Type 0
Continues l w = CarriesOn l (From l.state) w

pub begin_work-Continues : (l : LoadedRun) → Continues l (begin_work l)
unfolding begin_work apply_events
begin_work-Continues l = (
  record {
    closed = From-IsClosed l.state;
    reached = refl;
    numbered = tt;
    owned = tt;
    counted = omega arith;
  },
  refl,
)

pub to_changes-Numbers :
    {R : List Event → RunState → Type 0} (l : LoadedRun) (now : ℤ) (w : Work)
    → CarriesOn l R w
    → w.log.state.run.id ≡ l.state.run.id
    → Numbers l (to_changes l now w)
unfolding to_changes summary
to_changes-Numbers l now w x own = record {
  numbered = x.0.numbered;
  owned = x.0.owned;
  id = own;
  version = refl;
  expected = refl;
}

pub to_changes-Commits :
    (l : LoadedRun) (now : ℤ) (w : Work) → Continues l w → Commits l (to_changes l now w)
unfolding to_changes summary
to_changes-Commits l now w x = record {
  numbers = to_changes-Numbers l now w x (apply_events-id l.state w.log.events x.0.reached);
  final = w.log.state;
  replays = x.0.reached;
  same = record { status = refl; failure = refl; cancel_reason = refl; output = refl };
}

pub emit_for_task-Carries :
    {id : String} {R : List Event → RunState → Type 0} {n : ℕ} (current : TaskState) (p : Payload)
    (now : ℤ) (w : Work)
    → Carries id R n w
    → Ensures (Carries id R n) (emit_for_task current p now w)
unfolding emit_for_task
emit_for_task-Carries current p now w x =
    Ensures-bind (emit w.run.id current.step_id current.id p now w.log)
      (emit-Extends w.run.id current.step_id current.id p now w.log x.1 x.0)
      λ log _ x'.
        Ensures-bind-eq (task_update current.id now (record w { log = log }))
          λ row _. Ensures-ok (x', x.1)

-- `completeTaskOnce` continues the history of the run that it loaded.
pub complete_task-Commits :
    (uuid : ℕ → String) (l : LoadedRun) (worker_id task_id : String) (output : Raw) (now : ℤ)
    → Ensures (Commits l) (complete_task uuid l worker_id task_id output now)
unfolding complete_task
complete_task-Commits uuid l worker_id task_id output now =
    Ensures-elim (lookup task_id l.state.tasks) (λ _. Ensures-err _)
      λ current _.
        Ensures-if (holds_lease worker_id current)
          (λ _.
            Ensures-bind (emit_for_task current _ now (begin_work l))
              (emit_for_task-Carries current _ now (begin_work l) (begin_work-Continues l))
              λ w _ x.
                Ensures-bind (post_process uuid now w) (post_process-Extends uuid now w x)
                  λ w' _ x'. Ensures-ok (to_changes-Commits l now w' x'))
          (λ _. Ensures-err _)

cancel_task-Continues :
    (l : LoadedRun) (reason : String) (now : ℤ) (row : TaskRecord) (w : Work)
    → Continues l w
    → Ensures (Continues l) (cancel_task reason now row w)
unfolding cancel_task
cancel_task-Continues l reason now row w x =
    Ensures-elim (lookup row.id w.log.state.tasks) (λ _. Ensures-ok x)
      λ task _.
        Ensures-if (is_closed task) (λ _. Ensures-ok x)
          (λ _.
            Ensures-bind (emit w.run.id row.step_id row.id _ now w.log)
              (emit-Extends w.run.id row.step_id row.id _ now w.log x.1 x.0)
              λ log _ x'.
                Ensures-elim (lookup row.id log.state.tasks) (λ _. Ensures-err _)
                  λ task' _. Ensures-ok (x', x.1))

cancel_tasks-Continues :
    (l : LoadedRun) (reason : String) (now : ℤ) (rows : List TaskRecord) (w : Work)
    → Continues l w
    → Ensures (Continues l) (cancel_tasks reason now rows w)
unfolding cancel_tasks
cancel_tasks-Continues l reason now [] w x = Ensures-ok x
cancel_tasks-Continues l reason now (row ∷ rows) w x =
    Ensures-bind (cancel_task reason now row w) (cancel_task-Continues l reason now row w x)
      λ w' _ x'. cancel_tasks-Continues l reason now rows w' x'

-- Of an operation that may have nothing to write.
abbrev pub CommitsAny : LoadedRun → Option Changes → Type 0
CommitsAny l none = Unit
CommitsAny l (some c) = Commits l c

-- So does `cancelRunOnce`, where it writes anything.
pub cancel_run-Commits :
    (uuid : ℕ → String) (l : LoadedRun) (reason : String) (now : ℤ)
    → Ensures (CommitsAny l) (cancel_run uuid l reason now)
unfolding cancel_run begin_work
cancel_run-Commits uuid l reason now =
    Ensures-if (terminal l.run.status) (λ _. Ensures-ok tt)
      (λ _.
        Ensures-bind (emit l.run.id "" "" _ now (begin_work l).log)
          (emit-Extends l.run.id "" "" _ now (begin_work l).log refl (begin_work-Continues l).0)
          λ log _ x.
            Ensures-bind (cancel_tasks reason now l.task_list (record (begin_work l) { log = log }))
              (cancel_tasks-Continues l reason now l.task_list (record (begin_work l) { log = log })
                (x, refl))
              λ w _ x'.
                Ensures-bind (begin_compensation_or_finish uuid now w)
                  (begin_compensation_or_finish-Extends uuid now w x')
                  λ w' _ x''. Ensures-ok (to_changes-Commits l now w' x''))

-- So does `fireTimerOnce`.
pub fire_timer-Commits :
    (uuid : ℕ → String) (l : LoadedRun) (task_id : String) (now : ℤ)
    → Ensures (CommitsAny l) (fire_timer uuid l task_id now)
unfolding fire_timer
fire_timer-Commits uuid l task_id now =
    Ensures-elim (lookup task_id l.state.tasks) (λ _. Ensures-ok tt)
      λ current _.
        Ensures-if (is_due current now)
          (λ _.
            Ensures-bind (emit_for_task current _ now (begin_work l))
              (emit_for_task-Carries current _ now (begin_work l) (begin_work-Continues l))
              λ w _ x.
                Ensures-bind (post_process uuid now w) (post_process-Extends uuid now w x)
                  λ w' _ x'. Ensures-ok (to_changes-Commits l now w' x'))
          (λ _. Ensures-ok tt)

-- The report of `ReplayRun` after the changes are written: the replay of the whole history, from
-- the summary that was written, succeeds and gives that summary back.
abbrev pub ReplaysTo : LoadedRun → Changes → Type 0
ReplaysTo l c =
    (t : RunState) × (replay l.definition c.run (l.events ++ c.events) ≡ ok t)
    × SameSummary t.run c.run

pub Commits-ReplaysTo :
    (l : LoadedRun) (c : Changes)
    → replay l.definition l.run l.events ≡ ok l.state
    → Commits l c
    → ReplaysTo l c
Commits-ReplaysTo l c h x =
    let (t, ht, _, hr) = replay-resume l.definition l.run l.events c.events h x.replays in
    let same = subst (SameSummary c.run) (sym hr) x.same in
    let (u, hu, hs) = replay_again l.definition l.run c.run (l.events ++ c.events) ht same in
    (u, hu, SameSummary-trans hs (SameSummary-sym same))
