-- ===== src/Engine/Runtime/Reports/Matching.antt =====
-- What `ReplayRun` of internal/engine/service.go reports after an operation on the run.
use go_project.Prelude.{
  ℕ, String, true, ◌≡◌, refl, sym, ap, ◌∙◌, subst, inl, inr, List, Option, none, some, ok, ℤ,
  >>=-eq-ok, ok-injective, length, length-sort_by, lookup, lookup-insert_self, has_key, nat_eq,
  Bool-cases, Ensures, Ensures-ok, Ensures-err, Ensures-bind, Ensures-bind-eq, Ensures-elim,
  Ensures-if, Ensures-map, eq_refl,
}
use go_project.History.Json.{Raw}
use go_project.History.Events.{Event}
use go_project.Workflow.Types.{Definition}
use go_project.Workflow.Registry.{Registry, definition}
use go_project.Engine.Types.{RunRecord, TaskMutation}
use go_project.Engine.Reducer.{replay}
use go_project.Engine.Reducer.Resume.{SameSummary}
use go_project.Engine.Loaded.{LoadedRun, Changes}
use go_project.Engine.Service.{complete_task}
use go_project.Engine.Service.Commits.{complete_task-Commits}
use go_project.Engine.Runtime.{load_run, load_task_run, definition_of, commit, complete_task_once}
use go_project.Engine.Runtime.Loading.{loaded_id, get_run-lookup, load_task_run-IsLoaded}
use go_project.Engine.Runtime.Numbering.{commit-Ensures}
use go_project.Engine.Runtime.Stored.{IsReplayable, complete_task_once-IsReplayable}
use go_project.Engine.Runtime.Reports.{
  ReplayReport, summary_matches, replay_run, json_equal_refl, same_status_refl,
}
use go_project.Store.Tables.{Db, insert_events}
use go_project.Store.Sqlite.{
  get_run, get_history, get_task, list_tasks, update_run, append_run_changes, events_of,
}
use go_project.Store.Sqlite.Sequence.{IsNumbered}
use go_project.Store.Sqlite.Frames.{insert_events-events, apply_mutations-SameHistory}

summary_matches-same : (a b : RunRecord) → SameSummary b a → summary_matches a b ≡ true
unfolding summary_matches
summary_matches-same a b h =
    rw
      (
        h.status,
        h.failure,
        h.cancel_reason,
        h.output,
        same_status_refl a.status,
        eq_refl a.failure,
        eq_refl a.cancel_reason,
        json_equal_refl a.output,
      )
      refl

length-get_history :
    (id : String) (db : Db) → length (get_history id db) ≡ length (events_of id db.events)
unfolding get_history
length-get_history id db = length-sort_by _ (events_of id db.events)

-- The report of a run whose summary is the one of its replay.
pub record Faithful (id : String) (db : Db) (report : ReplayReport) : Type 0 where
  pub matches : report.summary_matches ≡ true
  pub stored : lookup id db.runs ≡ some report.run
  pub whole : report.history_length ≡ report.run.version

get_run-found :
    (id : String) (db : Db) {run : RunRecord}
    → lookup id db.runs ≡ some run
    → get_run id db ≡ ok run
unfolding get_run
get_run-found id db found = rw (found, get_run) refl

definition_of-found : (o : Option Definition) {d : Definition} → o ≡ some d → definition_of o ≡ ok d
unfolding definition_of
definition_of-found o h = rw h refl

definition_of-some : (o : Option Definition) {d : Definition} → definition_of o ≡ ok d → o ≡ some d
unfolding definition_of
definition_of-some none h = cc
definition_of-some (some d) h = ap some (ok-injective h)

-- The workflow of a run is not among what an update writes.
abbrev Named : RunRecord → Db → Db → Type 0
Named run db db' =
    (old row : RunRecord)
    → lookup run.id db.runs ≡ some old
    → lookup run.id db'.runs ≡ some row
    → row.workflow_name ≡ old.workflow_name

abbrev workflow_of : Option RunRecord → String
workflow_of none = ""
workflow_of (some run) = run.workflow_name

update_run-workflow_name :
    (run : RunRecord) (expected : ℕ) (db : Db) → Ensures (Named run db) (update_run run expected db)
unfolding update_run
update_run-workflow_name run expected db =
    Ensures-elim (lookup run.id db.runs) (λ _. Ensures-err _)
      λ found at.
        Ensures-if (nat_eq found.version expected)
          (λ _. Ensures-ok (λ old row before after.
            sym (ap workflow_of after)
            ∙ ap workflow_of (lookup-insert_self run.id _ db.runs)
            ∙ ap workflow_of (sym at ∙ before)))
          (λ _. Ensures-err _)

append_run_changes-workflow_name :
    (run : RunRecord) (expected : ℕ) (es : List Event) (ms : List TaskMutation) (db : Db)
    → Ensures (Named run db) (append_run_changes run expected es ms db)
unfolding append_run_changes
append_run_changes-workflow_name run expected es ms db =
    Ensures-bind (update_run run expected db) (update_run-workflow_name run expected db) λ db₁ _ h₁.
      Ensures-bind (insert_events es db₁) (insert_events-events es db₁) λ db₂ _ h₂.
        Ensures-map (apply_mutations-SameHistory ms db₂) λ db₃ _ h₃ old row before after.
          h₁ old row before (sym (ap (λ runs. lookup run.id runs) (h₃.0 ∙ h₂.0)) ∙ after)

module _ {Handler : Type 0} (registry : Registry Handler) where
  -- If the stored history of a run replays to its stored summary, and its workflow is registered, then
  -- `ReplayRun` succeeds and reports that they match, with a history as long as the version.
  pub replay_run-Faithful :
      (d : Definition) (id : String) (db : Db)
      → IsNumbered db
      → (h : IsReplayable d id db) → definition h.row.workflow_name registry ≡ some d
      → (report : ReplayReport) × (replay_run registry id db ≡ ok report) × Faithful id db report
  unfolding replay_run load_run
  replay_run-Faithful d id db n h registered = (
    record {
      run = h.row;
      state = h.state;
      summary_matches = summary_matches h.row h.state.run;
      tasks = list_tasks id db;
      history_length = length (get_history id db);
    },
    rw
        (
          get_run-found id db h.found,
          definition_of-found (definition h.row.workflow_name registry) registered,
          h.replayed,
        )
        refl,
    record {
      matches = summary_matches-same h.row h.state.run h.same;
      stored = h.found;
      whole = length-get_history id db ∙ sym (n.versions id h.row h.found);
    },
  )

  -- The row and the definition that a loaded run comes from.
  record HasSource (seen : Db) (l : LoadedRun) : Type 0 where
    stored : lookup l.run.id seen.runs ≡ some l.run
    registered : definition l.run.workflow_name registry ≡ some l.definition

  load_run-HasSource :
      (run_id : String) (seen : Db)
      → IsNumbered seen
      → Ensures (HasSource seen) (load_run registry run_id seen)
  unfolding load_run get_run definition_of
  load_run-HasSource run_id seen n =
      Ensures-bind (get_run run_id seen) (get_run-lookup run_id seen) λ run _ found.
        Ensures-bind-eq (definition_of (definition run.workflow_name registry)) λ d defined.
          Ensures-bind-eq (replay d run (get_history run_id seen)) λ s _. Ensures-ok (record {
            stored =
                subst (λ k. lookup k seen.runs ≡ some run) (sym (n.keys run_id run found)) found;
            registered = definition_of-some (definition run.workflow_name registry) defined;
          })

  load_task_run-HasSource :
      (task_id : String) (seen : Db)
      → IsNumbered seen
      → Ensures (HasSource seen) (load_task_run registry task_id seen)
  unfolding load_task_run
  load_task_run-HasSource task_id seen n = Ensures-bind-eq (get_task task_id seen) λ task _.
      Ensures-bind (load_run registry task.run_id seen) (load_run-HasSource task.run_id seen n)
        λ l _ x. elim (Bool-cases (has_key task_id l.tasks)) [
          | inl e ↦ rw e (Ensures-ok x)
          | inr e ↦ rw e (Ensures-ok (record { stored = x.stored; registered = x.registered }))
        ]

  commit-Faithful :
      (l : LoadedRun) (c : Changes) (seen db db' : Db)
      → IsNumbered db'
      → HasSource db l
      → c.run.id ≡ l.run.id
      → commit db c ≡ ok db'
      → IsReplayable l.definition l.run.id db'
      → (report : ReplayReport) × (replay_run registry l.run.id db' ≡ ok report)
        × Faithful l.run.id db' report
  unfolding commit
  commit-Faithful l c seen db db' n x own e h =
      let kept =
        (append_run_changes-workflow_name c.run c.expected_version c.events c.mutations db).holds
          db' e l.run h.row (rw own x.stored) (rw own h.found) in
      replay_run-Faithful l.definition l.run.id db' n h (rw kept x.registered)

  -- After a successful `completeTaskOnce` on numbered tables that nothing else writes to meanwhile,
  -- `ReplayRun` of the run succeeds, reports that the summaries match, returns the stored run, and a
  -- history as long as its version.
  pub complete_task_once-replay_run :
      (uuid : ℕ → String) (worker_id task_id : String) (output : Raw) (now : ℤ) (db : Db)
      {l : LoadedRun} {db' : Db}
      → IsNumbered db
      → load_task_run registry task_id db ≡ ok l
      → complete_task_once registry uuid worker_id task_id output now db db ≡ ok db'
      → (report : ReplayReport) × (replay_run registry l.run.id db' ≡ ok report)
        × Faithful l.run.id db' report
  unfolding complete_task_once
  complete_task_once-replay_run uuid worker_id task_id output now db {l} {db'} n loaded e =
      let h =
        complete_task_once-IsReplayable registry uuid worker_id task_id output now db {l = l} n
          loaded e in
      let x = (load_task_run-IsLoaded registry db n task_id).holds l loaded in
      let (c, hc, done) =
        >>=-eq-ok (complete_task uuid l worker_id task_id output now) _ (rw loaded at e) in
      let k = (complete_task-Commits uuid l worker_id task_id output now).holds c hc in
      commit-Faithful l c db db db' ((commit-Ensures l c db x k.numbers n).holds db' done)
        ((load_task_run-HasSource task_id db n).holds l loaded) (k.numbers.id ∙ loaded_id l x) done
        h
