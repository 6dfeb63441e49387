-- ===== src/Engine/Runtime/Numbering.antt =====
-- The numbering of the tables under the operations of internal/engine/service.go.
use go_project.Prelude.{
  ℕ, ◌+◌, String, Bool, ◌≡◌, sym, ap, ◌∙◌, subst, ok, ℤ, Option, none, some, length, Ensures,
  Ensures-ok, Ensures-bind,
}
use go_project.History.Json.{Raw}
use go_project.Engine.Progress.Replays.{AllOf, Consecutive}
use go_project.Engine.Service.{complete_task, fail_task, cancel_run, fire_timer}
use go_project.Engine.Loaded.{LoadedRun, Changes}
use go_project.Engine.Service.Commits.{
  Numbers, CommitsAny, complete_task-Commits, cancel_run-Commits, fire_timer-Commits,
}
use go_project.Engine.Service.Failures.{fail_task-Numbers}
use go_project.Engine.Runtime.{
  load_run, load_task_run, commit, commit_any, complete_task_once, fail_task_once, cancel_run_once,
  fire_timer_once,
}
use go_project.Engine.Runtime.Loading.{
  IsLoaded, loaded_id, load_run-IsLoaded, load_task_run-IsLoaded,
}
use go_project.Workflow.Registry.{Registry}
use go_project.Store.Tables.{Db}
use go_project.Store.Sqlite.Sequence.{IsNumbered}
use go_project.Store.Sqlite.Numbering.{append_run_changes-Ensures}

pub commit-Ensures :
    {seen : Db} (l : LoadedRun) (c : Changes) (db : Db)
    → IsLoaded seen l
    → Numbers l c
    → IsNumbered db
    → Ensures IsNumbered (commit db c)
unfolding commit
commit-Ensures l c db x k h =
    let own = k.id ∙ loaded_id l x in
    let n : c.expected_version ≡ l.run.version = k.expected ∙ x.expected in
    append_run_changes-Ensures c.run c.expected_version c.events c.mutations db h
      (subst (λ id. AllOf id c.events) (sym own) k.owned)
      (subst (λ m. Consecutive (m + 1) c.events) (sym n) k.numbered)
      (k.version ∙ ap (λ m. m + length c.events) (sym x.version ∙ sym n))

pub commit_any-Ensures :
    {seen : Db} (l : LoadedRun) (c : Option Changes) (db : Db)
    → IsLoaded seen l
    → CommitsAny l c
    → IsNumbered db
    → Ensures IsNumbered (commit_any db c)
unfolding commit_any
commit_any-Ensures l none db x k h = Ensures-ok h
commit_any-Ensures l (some c) db x k h = commit-Ensures l c db x k.numbers h

module _ {Handler : Type 0} (registry : Registry Handler) where
  -- A successful `completeTaskOnce` keeps every history numbered from 1 without a gap and every
  -- version at the count of its run's events, where the tables were so when the run was loaded and
  -- when its changes are committed.
  pub complete_task_once-IsNumbered :
      (uuid : ℕ → String) (worker_id task_id : String) (output : Raw) (now : ℤ) (seen db : Db)
      {db' : Db}
      → IsNumbered seen
      → IsNumbered db
      → complete_task_once registry uuid worker_id task_id output now seen db ≡ ok db'
      → IsNumbered db'
  unfolding complete_task_once
  complete_task_once-IsNumbered uuid worker_id task_id output now seen db {db'} hs h e =
      (Ensures-bind (load_task_run registry task_id seen)
          (load_task_run-IsLoaded registry seen hs task_id)
          λ l _ x.
            Ensures-bind (complete_task uuid l worker_id task_id output now)
              (complete_task-Commits uuid l worker_id task_id output now)
              λ c _ k. commit-Ensures l c db x k.numbers h).holds
        db' e

  -- A successful `failTaskOnce` keeps every history numbered from 1 without a gap and every version
  -- at the count of its run's events, where the tables were so when the run was loaded and when its
  -- changes are committed.
  pub fail_task_once-IsNumbered :
      (uuid : ℕ → String) (worker_id task_id message : String) (retryable : Bool) (now : ℤ)
      (seen db : Db) {db' : Db}
      → IsNumbered seen
      → IsNumbered db
      → fail_task_once registry uuid worker_id task_id message retryable now seen db ≡ ok db'
      → IsNumbered db'
  unfolding fail_task_once
  fail_task_once-IsNumbered uuid worker_id task_id message retryable now seen db {db'} hs h e =
      (Ensures-bind (load_task_run registry task_id seen)
          (load_task_run-IsLoaded registry seen hs task_id)
          λ l _ x.
            Ensures-bind (fail_task uuid l worker_id task_id message retryable now)
              (fail_task-Numbers uuid l worker_id task_id message retryable now)
              λ c _ k. commit-Ensures l c db x k h).holds
        db' e

  -- A successful `cancelRunOnce` keeps every history numbered from 1 without a gap and every version
  -- at the count of its run's events, where the tables were so when the run was loaded and when its
  -- changes are committed.
  pub cancel_run_once-IsNumbered :
      (uuid : ℕ → String) (run_id reason : String) (now : ℤ) (seen db : Db) {db' : Db}
      → IsNumbered seen
      → IsNumbered db
      → cancel_run_once registry uuid run_id reason now seen db ≡ ok db'
      → IsNumbered db'
  unfolding cancel_run_once
  cancel_run_once-IsNumbered uuid run_id reason now seen db {db'} hs h e =
      (Ensures-bind (load_run registry run_id seen) (load_run-IsLoaded registry seen hs run_id)
          λ l _ x.
            Ensures-bind (cancel_run uuid l reason now) (cancel_run-Commits uuid l reason now)
              λ c _ k. commit_any-Ensures l c db x k h).holds
        db' e

  -- A successful `fireTimerOnce` keeps every history numbered from 1 without a gap and every version
  -- at the count of its run's events, where the tables were so when the run was loaded and when its
  -- changes are committed.
  pub fire_timer_once-IsNumbered :
      (uuid : ℕ → String) (task_id : String) (now : ℤ) (seen db : Db) {db' : Db}
      → IsNumbered seen
      → IsNumbered db
      → fire_timer_once registry uuid task_id now seen db ≡ ok db'
      → IsNumbered db'
  unfolding fire_timer_once
  fire_timer_once-IsNumbered uuid task_id now seen db {db'} hs h e =
      (Ensures-bind (load_task_run registry task_id seen)
          (load_task_run-IsLoaded registry seen hs task_id)
          λ l _ x.
            Ensures-bind (fire_timer uuid l task_id now) (fire_timer-Commits uuid l task_id now)
              λ c _ k. commit_any-Ensures l c db x k h).holds
        db' e
