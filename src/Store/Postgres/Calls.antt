-- ===== src/Store/Postgres/Calls.antt =====
-- The operations of internal/engine/service.go keep the tables of internal/store/postgres/store.go
-- numbered.
use go_project.Prelude.{
  ℕ, ◌+◌, String, ◌≡◌, refl, sym, ap, ◌∙◌, subst, none, some, ℤ, length, has_key, inl, inr, Ensures,
  Ensures-ok, Ensures-bind, Ensures-bind-eq, Ensures-map, Option, Assoc, length-sort_by, Bool-cases,
}
use go_project.History.Json.{Raw}
use go_project.Workflow.Registry.{Registry, definition}
use go_project.Engine.Reducer.{replay}
use go_project.Engine.Loaded.{LoadedRun, Changes}
use go_project.Engine.Service.{complete_task, fail_task, start_run}
use go_project.Engine.Service.Starting.{start_run-IsFresh}
use go_project.Engine.Service.Commits.{
  Numbers, CommitsAny, complete_task-Commits, cancel_run-Commits, fire_timer-Commits,
}
use go_project.Engine.Service.Failures.{fail_task-Numbers}
use go_project.Engine.Runtime.{definition_of}
use go_project.Engine.Runtime.Loading.{IsLoaded, loaded_id, get_run-lookup}
use go_project.Engine.Types.{RunRecord}
use go_project.Engine.Progress.Replays.{AllOf, Consecutive}
use go_project.Store.Tables.{Db}
use go_project.Store.Sqlite.{events_of, get_run, get_history, get_task}
use go_project.Store.Sqlite.Sequence.{IsNumbered}
use go_project.Store.Postgres.Columns.{Database}
use go_project.Store.Postgres.Writes.{create_run}
use go_project.Store.Postgres.Service.{
  Call, complete, fail, cancel, fire, load_run, load_task_run, load, changes, commit, call_once,
  start,
}
use go_project.Store.Postgres.Runs.{append_run_changes-Ensures, create_run-Ensures}

-- What an operation asks to append is numbered on from the loaded run.
NumbersAny : LoadedRun → Option Changes → Type 0
NumbersAny l none = Unit
NumbersAny l (some c) = Numbers l c

CommitsAny-NumbersAny : (l : LoadedRun) (o : Option Changes) → CommitsAny l o → NumbersAny l o
unfolding NumbersAny
CommitsAny-NumbersAny l none k = tt
CommitsAny-NumbersAny l (some c) k = k.numbers

module _ (database : Database) {Handler : Type 0} (registry : Registry Handler) where
  load_run-IsLoaded :
      (run_id : String) (seen : Db)
      → IsNumbered seen
      → Ensures (IsLoaded seen) (load_run database registry run_id seen)
  unfolding load_run get_history
  load_run-IsLoaded run_id seen h =
      Ensures-bind (get_run run_id seen) (get_run-lookup run_id seen) λ run _ found.
        Ensures-bind-eq (definition_of (definition run.workflow_name registry)) λ d _.
          Ensures-bind-eq (replay d run (get_history run_id seen)) λ s replayed.
            Ensures-ok (record {
              history = ap (λ id. get_history id seen) (sym (h.keys run_id run found));
              replayed = replayed;
              version =
                  h.versions run_id run found
                  ∙ sym (length-sort_by _ (events_of run_id seen.events));
              expected = refl;
            })

  load_task_run-IsLoaded :
      (task_id : String) (seen : Db)
      → IsNumbered seen
      → Ensures (IsLoaded seen) (load_task_run database registry task_id seen)
  unfolding load_task_run
  load_task_run-IsLoaded task_id seen h = Ensures-bind-eq (get_task task_id seen) λ task _.
      Ensures-bind (load_run database registry task.run_id seen)
        (load_run-IsLoaded task.run_id seen h)
        λ l _ x. elim (Bool-cases (has_key task_id l.tasks)) [
          | inl e ↦ rw e (Ensures-ok x)
          | inr e ↦ rw e (
              Ensures-ok (record {
                history = x.history;
                replayed = x.replayed;
                version = x.version;
                expected = x.expected;
              }))
        ]

  load-IsLoaded :
      (call : Call) (seen : Db)
      → IsNumbered seen
      → Ensures (IsLoaded seen) (load database registry call seen)
  unfolding load
  load-IsLoaded (complete worker_id task_id output) seen h = load_task_run-IsLoaded task_id seen h
  load-IsLoaded (fail worker_id task_id message retryable) seen h =
      load_task_run-IsLoaded task_id seen h
  load-IsLoaded (cancel run_id reason) seen h = load_run-IsLoaded run_id seen h
  load-IsLoaded (fire task_id) seen h = load_task_run-IsLoaded task_id seen h

  changes-NumbersAny :
      (uuid : ℕ → String) (call : Call) (now : ℤ) (l : LoadedRun)
      → Ensures (NumbersAny l) (changes database registry uuid call now l)
  unfolding changes NumbersAny
  changes-NumbersAny uuid (complete worker_id task_id output) now l =
      Ensures-bind (complete_task uuid l worker_id task_id output now)
        (complete_task-Commits uuid l worker_id task_id output now) λ c _ k. Ensures-ok k.numbers
  changes-NumbersAny uuid (fail worker_id task_id message retryable) now l =
      Ensures-bind (fail_task uuid l worker_id task_id message retryable now)
        (fail_task-Numbers uuid l worker_id task_id message retryable now) λ c _ k. Ensures-ok k
  changes-NumbersAny uuid (cancel run_id reason) now l =
      Ensures-map (cancel_run-Commits uuid l reason now) λ o _ k. CommitsAny-NumbersAny l o k
  changes-NumbersAny uuid (fire task_id) now l =
      Ensures-map (fire_timer-Commits uuid l task_id now) λ o _ k. CommitsAny-NumbersAny l o k

  commit-IsNumbered :
      {seen : Db} (l : LoadedRun) (o : Option Changes) (db : Db)
      → IsLoaded seen l
      → NumbersAny l o
      → IsNumbered db
      → Ensures IsNumbered (commit database registry db o)
  unfolding commit NumbersAny
  commit-IsNumbered l none db x k h = Ensures-ok h
  commit-IsNumbered l (some c) db x k h =
      let own = k.id ∙ loaded_id l x in
      let n : c.expected_version ≡ l.run.version = k.expected ∙ x.expected in
      append_run_changes-Ensures database c.run c.expected_version c.events c.mutations db h
        (subst (λ id. AllOf id c.events) (sym own) k.owned)
        (subst (λ m. Consecutive (m + 1) c.events) (sym n) k.numbered)
        (k.version ∙ ap (λ m. m + length c.events) (sym x.version ∙ sym n))

  pub call_once-IsNumbered :
      (uuid : ℕ → String) (call : Call) (now : ℤ) (seen db : Db)
      → IsNumbered seen
      → IsNumbered db
      → Ensures IsNumbered (call_once database registry uuid call now seen db)
  unfolding call_once
  call_once-IsNumbered uuid call now seen db hs h =
      Ensures-bind (load database registry call seen) (load-IsLoaded call seen hs) λ l _ x.
        Ensures-bind (changes database registry uuid call now l)
          (changes-NumbersAny uuid call now l) λ o _ k. commit-IsNumbered l o db x k h

  pub start-IsNumbered :
      (uuid : ℕ → String) (workflow_name run_id : String) (input : Raw) (metadata : Assoc String)
      (now : ℤ) (db : Db)
      → IsNumbered db
      → Ensures
          (λ (made : Db × RunRecord). IsNumbered made.0)
          (start database registry uuid workflow_name run_id input metadata now db)
  unfolding start
  start-IsNumbered uuid workflow_name run_id input metadata now db h =
      Ensures-bind-eq (definition_of (definition workflow_name registry)) λ d _.
        Ensures-bind (start_run uuid d run_id input metadata now)
          (start_run-IsFresh uuid d run_id input metadata now)
          λ new _ x.
            Ensures-bind (create_run database new.run new.events new.tasks db)
              (create_run-Ensures database new.run new.events new.tasks db h x.owned x.numbered
                x.version)
              λ db' _ h'. Ensures-ok h'
