-- ===== src/Store/Sqlite/Frames.antt =====
-- What the writes of internal/store/sqlite/store.go do to the runs and the events.
use go_project.Prelude.{
  ◌≡◌, refl, sym, ap, ◌∙◌, not, List, [], ◌∷◌, ◌++◌, map, append-nil, append_assoc, arith, has_key,
  Ensures, Ensures-ok, Ensures-err, Ensures-bind, Ensures-if,
}
use go_project.History.Events.{Event}
use go_project.Engine.Types.{TaskRecord, TaskMutation, insert_task, update_task}
use go_project.Store.Tables.{
  Db, event_row, insert_event, insert_events, any_event, same_key, insert_task_row,
  insert_task_rows, update_task_row, apply_mutations,
}

abbrev pub event_rows : List Event → List Event
event_rows es = map event_row es

pub insert_event-events :
    (e : Event) (db : Db)
    → Ensures
        (λ (db' : Db). (db'.runs ≡ db.runs) × (db'.events ≡ db.events ++ event_row e ∷ []))
        (insert_event e db)
unfolding insert_event
insert_event-events e db =
    Ensures-if (not (has_key e.run_id db.runs)) (λ _. Ensures-err _)
      λ _.
        Ensures-if (any_event (same_key e) db.events) (λ _. Ensures-err _)
          λ _. Ensures-ok (refl, refl)

pub insert_events-events :
    (es : List Event) (db : Db)
    → Ensures
        (λ (db' : Db). (db'.runs ≡ db.runs) × (db'.events ≡ db.events ++ event_rows es))
        (insert_events es db)
unfolding insert_events
insert_events-events [] db = Ensures-ok (refl, sym (append-nil db.events))
insert_events-events (e ∷ es) db =
    Ensures-bind (insert_event e db) (insert_event-events e db) λ db₁ _ h. record {
      holds = λ db₂ k.
          let (r, v) = (insert_events-events es db₁).holds db₂ k in
          (
            r ∙ h.0,
            v
                ∙ ap (λ x. x ++ event_rows es) h.1
                ∙ append_assoc db.events (event_row e ∷ []) (event_rows es),
          );
    }

-- Task rows are apart from both.
abbrev pub SameHistory : Db → Db → Type 0
SameHistory db db' = (db'.runs ≡ db.runs) × (db'.events ≡ db.events)

pub insert_task_row-SameHistory :
    (task : TaskRecord) (db : Db) → Ensures (SameHistory db) (insert_task_row task db)
unfolding insert_task_row
insert_task_row-SameHistory task db =
    Ensures-if (not (has_key task.run_id db.runs)) (λ _. Ensures-err _)
      λ _. Ensures-if (has_key task.id db.tasks) (λ _. Ensures-err _) λ _. Ensures-ok (refl, refl)

pub insert_task_rows-SameHistory :
    (tasks : List TaskRecord) (db : Db) → Ensures (SameHistory db) (insert_task_rows tasks db)
unfolding insert_task_rows
insert_task_rows-SameHistory [] db = Ensures-ok (refl, refl)
insert_task_rows-SameHistory (task ∷ tasks) db =
    Ensures-bind (insert_task_row task db) (insert_task_row-SameHistory task db) λ db₁ _ h. record {
      holds = λ db₂ k.
          let (r, v) = (insert_task_rows-SameHistory tasks db₁).holds db₂ k in (r ∙ h.0, v ∙ h.1);
    }

pub update_task_row-SameHistory :
    (task : TaskRecord) (db : Db) → SameHistory db (update_task_row task db)
unfolding update_task_row
update_task_row-SameHistory task db = ground arith

pub apply_mutations-SameHistory :
    (ms : List TaskMutation) (db : Db) → Ensures (SameHistory db) (apply_mutations ms db)
unfolding apply_mutations
apply_mutations-SameHistory [] db = Ensures-ok (refl, refl)
apply_mutations-SameHistory (insert_task task ∷ ms) db =
    Ensures-bind (insert_task_row task db) (insert_task_row-SameHistory task db) λ db₁ _ h. record {
      holds = λ db₂ k.
          let (r, v) = (apply_mutations-SameHistory ms db₁).holds db₂ k in (r ∙ h.0, v ∙ h.1);
    }
apply_mutations-SameHistory (update_task task ∷ ms) db =
    let h = update_task_row-SameHistory task db in
    record {
      holds = λ db₂ k.
          let (r, v) = (apply_mutations-SameHistory ms (update_task_row task db)).holds db₂ k in
          (r ∙ h.0, v ∙ h.1);
    }
