-- ===== src/Store/Sqlite/Numbering.antt =====
-- The numbering of the histories under `CreateRun` and `AppendRunChanges` of
-- internal/store/sqlite/store.go.
use go_project.Prelude.{
  ℕ, suc, ◌+◌, String, ◌≡◌, refl, sym, ap, ◌∙◌, subst, none, some, List, [], ◌∷◌, ◌++◌, ok, arith,
  length, lookup, insert, has_key, nat_eq, Ensures, Ensures-ok, Ensures-err, Ensures-bind,
  Ensures-if, Ensures-elim, Ensures-map,
}
use go_project.History.Events.{Event}
use go_project.Engine.Types.{RunRecord, TaskRecord, TaskMutation}
use go_project.Engine.Progress.Replays.{AllOf, Consecutive}
use go_project.Engine.Reducer.Resume.{SameSummary}
use go_project.Store.Sqlite.{create_run, update_run, append_run_changes, events_of}
use go_project.Store.Tables.{Db, event_row, run_row, insert_run, insert_events}
use go_project.Store.Sqlite.Sequence.{IsNumbered, extend-IsNumbered}
use go_project.Store.Sqlite.Frames.{
  event_rows, insert_events-events, insert_task_rows-SameHistory, apply_mutations-SameHistory,
  SameHistory,
}

pub AllOf-event_rows : (id : String) (es : List Event) → AllOf id es → AllOf id (event_rows es)
unfolding event_row
AllOf-event_rows id [] h = tt
AllOf-event_rows id (e ∷ es) h = (h.0, AllOf-event_rows id es h.1)

Consecutive-event_rows :
    (n : ℕ) (es : List Event) → Consecutive n es → Consecutive n (event_rows es)
unfolding event_row
Consecutive-event_rows n [] h = tt
Consecutive-event_rows n (e ∷ es) h = (h.0, Consecutive-event_rows (n + 1) es h.1)

length-event_rows : (es : List Event) → length (event_rows es) ≡ length es
length-event_rows [] = refl
length-event_rows (e ∷ es) = ap suc (length-event_rows es)

-- A run with its events written, in a transaction that began at `db`: the common end of the two
-- operations below.
module _ (db : Db) (run : RunRecord) (es : List Event) (h : IsNumbered db) (all : AllOf run.id es)
    (numbered : Consecutive (length (events_of run.id db.events) + 1) es)
    (version : run.version ≡ length (events_of run.id db.events) + length es) where
  written-IsNumbered :
      (row : RunRecord) (db₁ db₂ db₃ : Db)
      → row.version ≡ run.version
      → row.id ≡ run.id
      → db₁.runs ≡ insert run.id row db.runs
      → db₁.events ≡ db.events
      → (db₂.runs ≡ db₁.runs) × (db₂.events ≡ db₁.events ++ event_rows es)
      → SameHistory db₂ db₃
      → IsNumbered db₃
  written-IsNumbered row db₁ db₂ db₃ v own r₁ e₁ h₂ h₃ =
      extend-IsNumbered db db₃ run.id row (event_rows es) (h₃.0 ∙ h₂.0 ∙ r₁)
        (h₃.1 ∙ h₂.1 ∙ ap (λ x. x ++ event_rows es) e₁) (AllOf-event_rows run.id es all)
        (Consecutive-event_rows _ es numbered) (omega (arith, v, version, length-event_rows es)) own
        h

-- A run row as it is written first in an operation, for a run of `n` events.
pub record Placed (db : Db) (run : RunRecord) (db₁ : Db) : Type 0 where
  pub row : RunRecord
  pub version : row.version ≡ run.version
  pub same : SameSummary row run
  pub runs : db₁.runs ≡ insert run.id row db.runs
  pub events : db₁.events ≡ db.events

pub update_run-Placed :
    (run : RunRecord) (expected : ℕ) (db : Db)
    → Ensures
        (λ db₁.
          (p : Placed db run db₁) × ((old : RunRecord) × (lookup run.id db.runs ≡ some old)
            × (old.version ≡ expected)
            × (p.row.id ≡ old.id)))
        (update_run run expected db)
unfolding update_run
update_run-Placed run expected db =
    Ensures-elim (lookup run.id db.runs) (λ _. Ensures-err _)
      λ old found.
        Ensures-if (nat_eq old.version expected)
          (λ same. Ensures-ok (
            record {
              row = _;
              version = refl;
              same = record { status = refl; failure = refl; cancel_reason = refl; output = refl };
              runs = refl;
              events = refl;
            },
            (old, found, ground arith, refl),
          ))
          (λ _. Ensures-err _)

insert_run-Placed :
    (run : RunRecord) (db : Db)
    → Ensures
        (λ db₁. (p : Placed db run db₁) × (lookup run.id db.runs ≡ none) × (p.row.id ≡ run.id))
        (insert_run run db)
unfolding insert_run run_row has_key
insert_run-Placed run db =
    Ensures-if (has_key run.id db.runs) (λ _. Ensures-err _)
      (λ new. Ensures-ok (
        record {
          row = run_row run;
          version = refl;
          same = record { status = refl; failure = refl; cancel_reason = refl; output = refl };
          runs = refl;
          events = refl;
        },
        ground arith,
        refl,
      ))

pub append_run_changes-Ensures :
    (run : RunRecord) (expected : ℕ) (es : List Event) (ms : List TaskMutation) (db : Db)
    → IsNumbered db
    → AllOf run.id es
    → Consecutive (expected + 1) es
    → run.version ≡ expected + length es
    → Ensures IsNumbered (append_run_changes run expected es ms db)
unfolding append_run_changes
append_run_changes-Ensures run expected es ms db h all numbered version =
    Ensures-bind (update_run run expected db) (update_run-Placed run expected db)
      λ db₁ _ (p, (old, found, same, own)).
        let n : expected ≡ length (events_of run.id db.events) =
          sym same ∙ h.versions run.id old found in
        Ensures-bind (insert_events es db₁) (insert_events-events es db₁) λ db₂ _ h₂.
          Ensures-map (apply_mutations-SameHistory ms db₂) λ db₃ _ h₃.
            written-IsNumbered db run es h all (subst (λ k. Consecutive (k + 1) es) n numbered)
              (subst (λ k. run.version ≡ k + length es) n version) p.row db₁ db₂ db₃ p.version
              (own ∙ h.keys run.id old found) p.runs p.events h₂ h₃

pub create_run-Ensures :
    (run : RunRecord) (es : List Event) (tasks : List TaskRecord) (db : Db)
    → IsNumbered db
    → AllOf run.id es
    → Consecutive 1 es
    → run.version ≡ length es
    → Ensures IsNumbered (create_run run es tasks db)
unfolding create_run
create_run-Ensures run es tasks db h all numbered version =
    Ensures-bind (insert_run run db) (insert_run-Placed run db) λ db₁ _ (p, fresh, own).
      let n : 0 ≡ length (events_of run.id db.events) = rw (h.orphans run.id fresh) refl in
      Ensures-bind (insert_events es db₁) (insert_events-events es db₁) λ db₂ _ h₂.
        Ensures-map (insert_task_rows-SameHistory tasks db₂) λ db₃ _ h₃.
          written-IsNumbered db run es h all
            (subst (λ k. Consecutive (k + 1) es) n
              (subst (λ k. Consecutive k es) (omega arith) numbered))
            (subst (λ k. run.version ≡ k + length es) n (omega (arith, version))) p.row db₁ db₂ db₃
            p.version own p.runs p.events h₂ h₃

-- A successful `AppendRunChanges` keeps every history numbered from 1 without a gap and every
-- version at the count of its run's events, where the tables were so before, the new events are of
-- the run and numbered on from the expected version, and the new version counts them too.
pub append_run_changes-IsNumbered :
    (run : RunRecord) (expected : ℕ) (es : List Event) (ms : List TaskMutation) (db : Db) {db' : Db}
    → IsNumbered db
    → AllOf run.id es
    → Consecutive (expected + 1) es
    → run.version ≡ expected + length es
    → append_run_changes run expected es ms db ≡ ok db'
    → IsNumbered db'
append_run_changes-IsNumbered run expected es ms db {db'} h all numbered version e =
    (append_run_changes-Ensures run expected es ms db h all numbered version).holds db' e
