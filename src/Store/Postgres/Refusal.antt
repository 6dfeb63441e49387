-- ===== src/Store/Postgres/Refusal.antt =====
-- `LeaseTasks` of internal/store/postgres/store.go on a driver that refuses a statement on a connection
-- while the rows of a query on it are read, as pgx does.
use go_project.Prelude.{
  ℕ, zero, suc, String, true, false, ◌≡◌, refl, sym, ◌∙◌, ◌&&◌, not, some, List, [], ◌∷◌, ◌⊎◌, inl,
  inr, arith, ok, err, Error, ℤ, contains, take, length, length-sort_by, ◌≤◌, ◌==◌, leb_ℤ, sort_by,
  select, All, All-map, All-take, All-sort_by, All-select, Bool, Bool-cases,
}
use mathlib.Core.List.{Memᴰ}
use go_project.Engine.Types.{TaskRecord, is_available, task_kind_activity}
use go_project.Store.Tables.{Db}
use go_project.Store.Sqlite.{limit_or, rows}
use go_project.Store.Postgres.Columns.{Database, answered}
use go_project.Store.Postgres.Tasks.{
  earlier, is_leasable, lease_candidates, lease_task, lease_each, lease_tasks,
}

-- A selection that is sorted and cut at a positive length is empty only where nothing passes.
select-none :
    (test : TaskRecord → Bool) (tasks : List TaskRecord)
    → length (select test tasks) ≡ 0
    → All (λ task. test task ≡ false) tasks
unfolding select
select-none test [] h = tt
select-none test (task ∷ tasks) h = elim (Bool-cases (test task)) [
  | inl passed ↦ absurd (omega (arith, rw passed at h))
  | inr failed ↦ (failed, select-none test tasks (rw failed at h))
]

take-none : (n : ℕ) (tasks : List TaskRecord) → 1 ≤ n → take n tasks ≡ [] → length tasks ≡ 0
take-none zero tasks p h = absurd (omega arith)
take-none (suc n) [] p h = refl
take-none (suc n) (task ∷ tasks) p h = cc

limit_or-positive : (limit : ℤ) → 1 ≤ limit_or 1 limit
unfolding limit_or
limit_or-positive limit = ground arith

List-cases :
    (tasks : List TaskRecord)
    → (tasks ≡ []) ⊎ ((task : TaskRecord) × (rest : List TaskRecord) × (tasks ≡ task ∷ rest))
List-cases [] = inl refl
List-cases (task ∷ rest) = inr (task, rest, refl)

All-mem : (tasks : List TaskRecord) → All (λ task. Memᴰ task tasks) tasks
All-mem [] = tt
All-mem (task ∷ tasks) = (Memᴰ.head refl, All-map _ _ tasks (λ t m. Memᴰ.tail m) (All-mem tasks))

module _ (database : Database) where
  -- A row of a task that a worker may have: in the queue, of an activity, available, due, and not
  -- locked by another transaction.
  abbrev pub is_offered : List String → String → ℤ → TaskRecord → Bool
  is_offered locked queue now task =
      (task.queue_name == queue
        && task.kind == task_kind_activity
        && is_available task.status
        && leb_ℤ task.available_at (database.timestamp now))
      && not (contains locked task.id)

  candidates-none :
      (locked : List String) (queue : String) (limit now : ℤ) (db : Db)
      → lease_candidates database locked queue (limit_or 1 limit) now db ≡ []
      → All (λ task. is_offered locked queue now task ≡ false) (rows db.tasks)
  unfolding lease_candidates is_leasable
  candidates-none locked queue limit now db h =
      let chosen = select (is_offered locked queue now) (rows db.tasks) in
      select-none (is_offered locked queue now) (rows db.tasks) (
        sym (length-sort_by earlier chosen)
        ∙ take-none (limit_or 1 limit) (sort_by earlier chosen) (limit_or-positive limit) h)

  candidates-offered :
      (locked : List String) (queue : String) (limit : ℕ) (now : ℤ) (db : Db)
      → All
          (λ task. Memᴰ task (rows db.tasks) × (is_offered locked queue now task ≡ true))
          (lease_candidates database locked queue limit now db)
  unfolding lease_candidates is_leasable
  candidates-offered locked queue limit now db =
      let P : TaskRecord → Type 0 =
        λ task. Memᴰ task (rows db.tasks) × (is_offered locked queue now task ≡ true) in
      All-take P limit _ (
        All-sort_by P earlier _ (
          All-select (λ task. Memᴰ task (rows db.tasks)) (is_offered locked queue now)
            (rows db.tasks) (All-mem (rows db.tasks))))

  -- With a driver that refuses a statement while rows are read, `LeaseTasks` never leases a task: where
  -- no row is available in the queue, due and not locked by others it returns none and leaves the
  -- tables, and where there is one it fails with the error of the driver.
  pub lease_tasks-refused :
      (e : Error) (locked : List String) (queue worker_id : String) (limit ttl now : ℤ) (db : Db)
      → database.while_reading ≡ some e
      → (All (λ task. is_offered locked queue now task ≡ false) (rows db.tasks)
          × (lease_tasks database locked queue worker_id limit ttl now db ≡ ok (db, [])))
        ⊎ ((task : TaskRecord) × Memᴰ task (rows db.tasks)
            × (is_offered locked queue now task ≡ true)
            × (lease_tasks database locked queue worker_id limit ttl now db ≡ err e))
  unfolding lease_tasks lease_each lease_task answered
  lease_tasks-refused e locked queue worker_id limit ttl now db refuses =
      elim (List-cases (lease_candidates database locked queue (limit_or 1 limit) now db)) [
        | inl empty ↦
            inl (candidates-none locked queue limit now db empty, rw (empty, lease_tasks) refl)
        | inr (task, rest, first) ↦
            let offered = candidates-offered locked queue (limit_or 1 limit) now db in
            let (mem, passes) = (rw first at offered).0 in
            inr (task, mem, passes, rw (first, refuses, lease_tasks) refl)
      ]
