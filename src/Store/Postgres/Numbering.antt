-- ===== src/Store/Postgres/Numbering.antt =====
-- The numbering of the histories under the writes of internal/store/postgres/store.go.
use go_project.Prelude.{
  ℕ, suc, ◌+◌, String, ◌≡◌, refl, sym, ap, ◌∙◌, not, List, [], ◌∷◌, ◌++◌, append-nil, append_assoc,
  arith, length, lookup, has_key, true, Ensures, Ensures-ok, Ensures-err, Ensures-bind,
  Ensures-bind-eq, Ensures-if, Ensures-elim, Ensures-map,
}
use go_project.History.Events.{Event}
use go_project.Engine.Types.{TaskRecord, TaskMutation, insert_task, update_task}
use go_project.Engine.Progress.Replays.{AllOf, Consecutive}
use go_project.Store.Tables.{Db, any_event, same_key}
use go_project.Store.Sqlite.Frames.{SameHistory}
use go_project.Store.Postgres.Columns.{Database, event_columns, task_columns, json_column}
use go_project.Store.Postgres.Writes.{
  insert_event, insert_events, insert_task_row, insert_task_rows, update_task_row, apply_mutations,
}

-- Rows that carry the runs and the sequences of the events that they were written from.
abbrev pub Numbers : List Event → List Event → Type 0
Numbers [] [] = Unit
Numbers (e ∷ es) (row ∷ rows) =
    (row.run_id ≡ e.run_id) × (row.sequence ≡ e.sequence) × Numbers es rows
Numbers es rows = ⊥

pub AllOf-Numbers :
    (id : String) (es rows : List Event) → Numbers es rows → AllOf id es → AllOf id rows
AllOf-Numbers id [] [] n h = tt
AllOf-Numbers id (e ∷ es) (row ∷ rows) n h = (n.0 ∙ h.0, AllOf-Numbers id es rows n.2 h.1)
AllOf-Numbers id [] (row ∷ rows) n h = absurd n
AllOf-Numbers id (e ∷ es) [] n h = tt

pub Consecutive-Numbers :
    (k : ℕ) (es rows : List Event) → Numbers es rows → Consecutive k es → Consecutive k rows
Consecutive-Numbers k [] [] n h = tt
Consecutive-Numbers k (e ∷ es) (row ∷ rows) n h =
    (n.1 ∙ h.0, Consecutive-Numbers (k + 1) es rows n.2 h.1)
Consecutive-Numbers k [] (row ∷ rows) n h = absurd n
Consecutive-Numbers k (e ∷ es) [] n h = tt

pub length-Numbers : (es rows : List Event) → Numbers es rows → length rows ≡ length es
length-Numbers [] [] n = refl
length-Numbers (e ∷ es) (row ∷ rows) n = ap suc (length-Numbers es rows n.2)
length-Numbers [] (row ∷ rows) n = absurd n
length-Numbers (e ∷ es) [] n = absurd n

module _ (database : Database) where
  -- The rows that a write of events leaves behind the others.
  abbrev pub Appended : List Event → Db → Db → Type 0
  Appended es db db' =
      (rows : List Event) × Numbers es rows
      × (db'.runs ≡ db.runs)
      × (db'.events ≡ db.events ++ rows)

  event_columns-numbers :
      (e : Event)
      → Ensures
          (λ (row : Event). (row.run_id ≡ e.run_id) × (row.sequence ≡ e.sequence))
          (event_columns database e)
  unfolding event_columns
  event_columns-numbers e =
      Ensures-bind-eq (json_column database e.payload) λ p _. Ensures-ok (refl, refl)

  pub insert_event-Appended :
      (e : Event) (db : Db) → Ensures (Appended (e ∷ []) db) (insert_event database e db)
  unfolding insert_event
  insert_event-Appended e db =
      Ensures-bind (event_columns database e) (event_columns-numbers e) λ row _ n.
        Ensures-if (not (has_key e.run_id db.runs)) (λ _. Ensures-err _)
          λ _.
            Ensures-if (any_event (same_key e) db.events) (λ _. Ensures-err _)
              λ _. Ensures-ok (row ∷ [], (n.0, n.1, tt), refl, refl)

  pub insert_event-known :
      (e : Event) (db : Db)
      → Ensures (λ (db' : Db). has_key e.run_id db.runs ≡ true) (insert_event database e db)
  unfolding insert_event
  insert_event-known e db = Ensures-bind-eq (event_columns database e) λ row _.
      Ensures-if (not (has_key e.run_id db.runs)) (λ _. Ensures-err _)
        λ k.
          Ensures-if (any_event (same_key e) db.events) (λ _. Ensures-err _)
            λ _. Ensures-ok (ground arith)

  pub insert_events-Appended :
      (es : List Event) (db : Db) → Ensures (Appended es db) (insert_events database es db)
  unfolding insert_events
  insert_events-Appended [] db = Ensures-ok ([], tt, refl, sym (append-nil db.events))
  insert_events-Appended (e ∷ es) db =
      Ensures-bind (insert_event database e db) (insert_event-Appended e db)
        λ db₁ _ h. Ensures-map (insert_events-Appended es db₁) λ db₂ _ k. join db₁ db₂ h k
    where
      join :
          (db₁ db₂ : Db) → Appended (e ∷ []) db db₁ → Appended es db₁ db₂ → Appended (e ∷ es) db db₂
      join db₁ db₂ (row ∷ [], n, r, v) (rows, ns, rs, vs) = (
        row ∷ rows,
        (n.0, n.1, ns),
        rs ∙ r,
        vs ∙ ap (λ x. x ++ rows) v ∙ append_assoc db.events (row ∷ []) rows,
      )
      join db₁ db₂ ([], n, r, v) k = absurd n
      join db₁ db₂ (row ∷ other ∷ rows, n, r, v) k = absurd n.2

  insert_task_row-SameHistory :
      (task : TaskRecord) (db : Db) → Ensures (SameHistory db) (insert_task_row database task db)
  unfolding insert_task_row
  insert_task_row-SameHistory task db = Ensures-bind-eq (task_columns database task) λ row _.
      Ensures-if (not (has_key task.run_id db.runs)) (λ _. Ensures-err _)
        λ _. Ensures-if (has_key task.id db.tasks) (λ _. Ensures-err _) λ _. Ensures-ok (refl, refl)

  pub insert_task_rows-SameHistory :
      (tasks : List TaskRecord) (db : Db)
      → Ensures (SameHistory db) (insert_task_rows database tasks db)
  unfolding insert_task_rows
  insert_task_rows-SameHistory [] db = Ensures-ok (refl, refl)
  insert_task_rows-SameHistory (task ∷ tasks) db =
      Ensures-bind (insert_task_row database task db) (insert_task_row-SameHistory task db)
        λ db₁ _ h.
          Ensures-map (insert_task_rows-SameHistory tasks db₁) λ db₂ _ k. (k.0 ∙ h.0, k.1 ∙ h.1)

  update_task_row-SameHistory :
      (task : TaskRecord) (db : Db) → Ensures (SameHistory db) (update_task_row database task db)
  unfolding update_task_row
  update_task_row-SameHistory task db = Ensures-bind-eq (task_columns database task) λ row _.
      Ensures-elim (lookup task.id db.tasks) (λ _. Ensures-ok (refl, refl))
        λ old _. Ensures-ok (refl, refl)

  pub apply_mutations-SameHistory :
      (ms : List TaskMutation) (db : Db) → Ensures (SameHistory db) (apply_mutations database ms db)
  unfolding apply_mutations
  apply_mutations-SameHistory [] db = Ensures-ok (refl, refl)
  apply_mutations-SameHistory (insert_task task ∷ ms) db =
      Ensures-bind (insert_task_row database task db) (insert_task_row-SameHistory task db)
        λ db₁ _ h.
          Ensures-map (apply_mutations-SameHistory ms db₁) λ db₂ _ k. (k.0 ∙ h.0, k.1 ∙ h.1)
  apply_mutations-SameHistory (update_task task ∷ ms) db =
      Ensures-bind (update_task_row database task db) (update_task_row-SameHistory task db)
        λ db₁ _ h.
          Ensures-map (apply_mutations-SameHistory ms db₁) λ db₂ _ k. (k.0 ∙ h.0, k.1 ∙ h.1)
