-- ===== src/Store/Sqlite/Reading.antt =====
-- `GetHistory` of internal/store/sqlite/store.go on numbered tables, and what `AppendRunChanges`
-- leaves there to be read.
use go_project.Prelude.{
  ℕ, ◌+◌, String, ◌≡◌, refl, sym, ap, ◌∙◌, List, [], ◌∷◌, ◌++◌, some, lookup, lookup-insert_self,
  sort_by, leb, arith, Ensures, Ensures-bind, Ensures-map,
}
use go_project.History.Events.{Event}
use go_project.Engine.Types.{RunRecord, TaskMutation}
use go_project.Engine.Reducer.Resume.{SameSummary}
use go_project.Engine.Progress.Replays.{AllOf, Consecutive}
use go_project.Store.Sqlite.{update_run, append_run_changes, events_of, get_history}
use go_project.Store.Tables.{Db, insert_events}
use go_project.Store.Sqlite.Sequence.{IsNumbered, events_of-append, events_of-all}
use go_project.Store.Sqlite.Frames.{event_rows, insert_events-events, apply_mutations-SameHistory}
use go_project.Store.Sqlite.Numbering.{update_run-Placed, AllOf-event_rows}

sort_by-Consecutive :
    (n : ℕ) (es : List Event)
    → Consecutive n es
    → sort_by (λ (e f : Event). leb e.sequence f.sequence) es ≡ es
unfolding sort_by
sort_by-Consecutive n [] h = refl
sort_by-Consecutive n (e ∷ []) h = refl
sort_by-Consecutive n (e ∷ f ∷ es) h = rw (sort_by-Consecutive (n + 1) (f ∷ es) h.1) (ground arith)

-- The history that is read is the one that was inserted.
pub get_history-events :
    (id : String) (db : Db) → IsNumbered db → get_history id db ≡ events_of id db.events
unfolding get_history
get_history-events id db h = sort_by-Consecutive 1 (events_of id db.events) (h.sequences id)

-- The row and the events of the run that a successful `AppendRunChanges` leaves.
pub record Written (run : RunRecord) (es : List Event) (db db' : Db) : Type 0 where
  pub row : RunRecord
  pub found : lookup run.id db'.runs ≡ some row
  pub same : SameSummary row run
  pub events : db'.events ≡ db.events ++ event_rows es

pub append_run_changes-Written :
    (run : RunRecord) (expected : ℕ) (es : List Event) (ms : List TaskMutation) (db : Db)
    → Ensures (Written run es db) (append_run_changes run expected es ms db)
unfolding append_run_changes
append_run_changes-Written run expected es ms db =
    Ensures-bind (update_run run expected db) (update_run-Placed run expected db) λ db₁ _ (p, _).
      Ensures-bind (insert_events es db₁) (insert_events-events es db₁) λ db₂ _ h₂.
        Ensures-map (apply_mutations-SameHistory ms db₂) λ db₃ _ h₃. record {
          row = p.row;
          found = rw (h₃.0, h₂.0, p.runs) (lookup-insert_self run.id p.row db.runs);
          same = p.same;
          events = h₃.1 ∙ h₂.1 ∙ ap (λ x. x ++ event_rows es) p.events;
        }

-- The history of the run grows by the written events.
pub get_history-Written :
    (run : RunRecord) (es : List Event) (db db' : Db)
    → IsNumbered db
    → IsNumbered db'
    → AllOf run.id es
    → Written run es db db'
    → get_history run.id db' ≡ get_history run.id db ++ event_rows es
get_history-Written run es db db' h h' all w =
    get_history-events run.id db' h'
    ∙ ap (λ x. events_of run.id x) w.events
    ∙ events_of-append run.id db.events (event_rows es)
    ∙ ap (λ x. events_of run.id db.events ++ x)
        (events_of-all run.id (event_rows es) (AllOf-event_rows run.id es all))
    ∙ ap (λ x. x ++ event_rows es) (sym (get_history-events run.id db h))
