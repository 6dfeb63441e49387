-- ===== src/Store/Sqlite/Conflicts.antt =====
-- Optimistic concurrency in internal/store/sqlite/store.go: two writers of one run.
use go_project.Prelude.{
  ℕ, ◌≡◌, ◌≢◌, refl, sym, List, ok, err, version_conflict, some, arith, lookup, lookup-insert,
  eq_refl, Ensures, Ensures-bind, Ensures-map, ◌∙◌,
}
use go_project.History.Events.{Event}
use go_project.Engine.Types.{RunRecord, TaskMutation}
use go_project.Store.Sqlite.{update_run, append_run_changes}
use go_project.Store.Tables.{Db, insert_events}
use go_project.Store.Sqlite.Frames.{insert_events-events, apply_mutations-SameHistory}
use go_project.Store.Sqlite.Numbering.{update_run-Placed}

-- A write that expects another version than the one in the table is a version conflict.
pub append_run_changes-stale :
    (run : RunRecord) (expected : ℕ) (es : List Event) (ms : List TaskMutation) (db : Db)
    {old : RunRecord}
    → lookup run.id db.runs ≡ some old
    → old.version ≢ expected
    → append_run_changes run expected es ms db ≡ err (version_conflict run.id)
unfolding append_run_changes update_run
append_run_changes-stale run expected es ms db found h = ground arith

-- What a successful write leaves in the table.
append_run_changes-version :
    (run : RunRecord) (expected : ℕ) (es : List Event) (ms : List TaskMutation) (db : Db)
    → Ensures
        (λ (db' : Db).
          (row : RunRecord) × (lookup run.id db'.runs ≡ some row) × (row.version ≡ run.version))
        (append_run_changes run expected es ms db)
unfolding append_run_changes
append_run_changes-version run expected es ms db =
    Ensures-bind (update_run run expected db) (update_run-Placed run expected db) λ db₁ _ (p, _).
      Ensures-bind (insert_events es db₁) (insert_events-events es db₁) λ db₂ _ h₂.
        Ensures-map (apply_mutations-SameHistory ms db₂) λ db₃ _ h₃. (
          p.row,
          rw (h₃.0, h₂.0, p.runs) (lookup-insert run.id run.id p.row db.runs ∙ rw eq_refl refl),
          p.version,
        )

-- After a write that moved the version, a second write of the same run from the version that the
-- first one expected is refused with the version conflict, whatever it holds.
pub no_lost_update :
    (first second : RunRecord) (expected : ℕ) (es fs : List Event) (ms ns : List TaskMutation)
    (db : Db) {db' : Db}
    → append_run_changes first expected es ms db ≡ ok db'
    → first.version ≢ expected
    → second.id ≡ first.id
    → append_run_changes second expected fs ns db' ≡ err (version_conflict second.id)
no_lost_update first second expected es fs ms ns db {db'} h moved same =
    let (row, found, v) = (append_run_changes-version first expected es ms db).holds db' h in
    append_run_changes-stale second expected fs ns db' {old = row} (rw same found)
      (λ e. moved (sym v ∙ e))
