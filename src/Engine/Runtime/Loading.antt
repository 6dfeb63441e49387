-- ===== src/Engine/Runtime/Loading.antt =====
-- What `loadRun` and `loadTaskRun` of internal/engine/service.go find in numbered tables.
use go_project.Prelude.{
  String, ◌≡◌, refl, sym, ap, ◌∙◌, ok, lookup, length, length-sort_by, Ensures, Ensures-ok,
  Ensures-err, Ensures-bind, Ensures-bind-eq, Ensures-elim, has_key, some, Bool-cases, inl, inr,
}
use go_project.Engine.Types.{RunRecord, RunState}
use go_project.Engine.Reducer.{replay, initial_state, mark_satisfied}
use go_project.Engine.Reducer.RunFields.{apply_events-id}
use go_project.Engine.Reducer.Resume.{replay-parts}
use go_project.Engine.Loaded.{LoadedRun}
use go_project.Engine.Runtime.{load_run, load_task_run, definition_of}
use go_project.Workflow.Types.{Definition}
use go_project.Workflow.Registry.{Registry, definition}
use go_project.History.Events.{Event}
use go_project.Store.Sqlite.{get_run, get_history, get_task, events_of}
use go_project.Store.Tables.{Db}
use go_project.Store.Sqlite.Sequence.{IsNumbered}
use go_project.Prelude.{List}

-- A run as it is loaded from the tables `seen`: its state is the replay of its history there, and its
-- version is the length of it.
pub record IsLoaded (seen : Db) (l : LoadedRun) : Type 0 where
  pub history : l.events ≡ get_history l.run.id seen
  pub replayed : replay l.definition l.run l.events ≡ ok l.state
  pub version : l.run.version ≡ length l.events
  pub expected : l.events_version ≡ l.run.version

replay-id :
    (d : Definition) (run : RunRecord) (es : List Event) {s : RunState}
    → replay d run es ≡ ok s
    → s.run.id ≡ run.id
unfolding mark_satisfied initial_state
replay-id d run es h =
    let (x, hx, hs) = replay-parts d run es h in
    ap (λ (y : RunState). y.run.id) (sym hs) ∙ apply_events-id (initial_state d run) es hx

-- The state of a loaded run is of that run.
pub loaded_id : {seen : Db} (l : LoadedRun) → IsLoaded seen l → l.state.run.id ≡ l.run.id
loaded_id l h = replay-id l.definition l.run l.events h.replayed

pub get_run-lookup :
    (id : String) (db : Db) → Ensures (λ run. lookup id db.runs ≡ some run) (get_run id db)
unfolding get_run
get_run-lookup id db =
    Ensures-elim (lookup id db.runs) (λ _. Ensures-err _) λ run found. Ensures-ok found

module _ {Handler : Type 0} (registry : Registry Handler) (seen : Db) (h : IsNumbered seen) where
  pub load_run-IsLoaded :
      (run_id : String) → Ensures (IsLoaded seen) (load_run registry run_id seen)
  unfolding load_run get_history
  load_run-IsLoaded run_id =
      Ensures-bind (get_run run_id seen) (get_run-lookup run_id seen) λ run _ found.
        Ensures-bind-eq (definition_of (definition run.workflow_name registry)) λ d _.
          Ensures-bind-eq (replay d run (get_history run_id seen)) λ s replayed.
            Ensures-ok (record {
              history = ap (λ id. get_history id seen) (sym (h.keys run_id run found));
              replayed = replayed;
              version =
                  h.versions run_id run found
                  ∙ sym (length-sort_by _ (events_of run_id seen.events));
              expected = refl;
            })

  pub load_task_run-IsLoaded :
      (task_id : String) → Ensures (IsLoaded seen) (load_task_run registry task_id seen)
  unfolding load_task_run
  load_task_run-IsLoaded task_id = Ensures-bind-eq (get_task task_id seen) λ task _.
      Ensures-bind (load_run registry task.run_id seen) (load_run-IsLoaded task.run_id) λ l _ x.
        elim (Bool-cases (has_key task_id l.tasks)) [
          | inl e ↦ rw e (Ensures-ok x)
          | inr e ↦ rw e (
              Ensures-ok (record {
                history = x.history;
                replayed = x.replayed;
                version = x.version;
                expected = x.expected;
              }))
        ]
