-- ===== src/Engine/Runtime/Sweeping.antt =====
-- What `Sweep` of internal/engine/service.go does for each timer and each lease that it has listed.
use go_project.Prelude.{
  ℕ, String, true, false, ◌≡◌, ◌⊎◌, Bool, Option, none, some, List, [], ◌∷◌, ℤ, ◌≤ℤ◌, Error, Result,
  ok, err, lookup,
}
use go_project.Workflow.Registry.{Registry}
use go_project.Engine.Types.{TaskRecord, TaskState, TaskStatus, task_kind_timer}
use go_project.Engine.Loaded.{LoadedRun}
use go_project.Engine.Service.{is_due}
use go_project.Engine.Runtime.{
  load_task_run, fire_timer_once, fail_task_once, recover_expired_lease, sweep,
}
use go_project.Store.Sqlite.{available_timers, expired_leases}
use go_project.Store.Tables.{Db}

-- The tables that are left when each row of the list, in its order, has been acted on or passed over.
pub data Each (Acts : String → Db → Db → Type 0) (Rests : String → Db → Type 0)
    : List TaskRecord → Db → Db → Type 0 where
  finished : {db : Db} → Each Acts Rests [] db db
  acted :
      {task : TaskRecord} {tasks : List TaskRecord} {db db₁ db₂ : Db}
      → Acts task.id db db₁
      → Each Acts Rests tasks db₁ db₂
      → Each Acts Rests (task ∷ tasks) db db₂
  rested :
      {task : TaskRecord} {tasks : List TaskRecord} {db db₂ : Db}
      → Rests task.id db
      → Each Acts Rests tasks db db₂
      → Each Acts Rests (task ∷ tasks) db db₂

module _ {Handler : Type 0} (registry : Registry Handler) (uuid : ℕ → String) (now : ℤ) where
  -- In the replay of its run the task is an available timer whose time has come.
  pub record IsRinging (id : String) (db : Db) : Type 0 where
    pub l : LoadedRun
    pub loaded : load_task_run registry id db ≡ ok l
    pub task : TaskState
    pub found : lookup id l.state.tasks ≡ some task
    pub timer : task.kind ≡ task_kind_timer
    pub open_ : task.status ≡ TaskStatus.available
    pub due : task.available_at ≤ℤ now

  -- In the replay of its run the task is leased, and the lease has run out.
  pub record IsOverdue (id : String) (db : Db) : Type 0 where
    pub l : LoadedRun
    pub loaded : load_task_run registry id db ≡ ok l
    pub task : TaskState
    pub found : lookup id l.state.tasks ≡ some task
    pub held : task.status ≡ TaskStatus.leased
    pub end : ℤ
    pub expires : task.lease_expires_at ≡ some end
    pub past : end ≤ℤ now

  abbrev pub Fires : String → Db → Db → Type 0
  Fires id db db' = IsRinging id db × (fire_timer_once registry uuid id now db db ≡ ok db')

  -- The timer is not ringing, or its firing has failed.
  abbrev pub Sleeps : String → Db → Type 0
  Sleeps id db =
      (¬ IsRinging id db) ⊎ ((e : Error) × (fire_timer_once registry uuid id now db db ≡ err e))

  abbrev fail_lease : String → String → Db → Result Db
  fail_lease owner id db = fail_task_once registry uuid owner id "lease expired" true now db db

  -- The task is failed in the name of the owner of the lease.
  abbrev pub Recovers : String → Db → Db → Type 0
  Recovers id db db' = (o : IsOverdue id db) × (fail_lease o.task.lease_owner id db ≡ ok db')

  -- The lease is not overdue, or the recovery has failed.
  abbrev pub Keeps : String → Db → Type 0
  Keeps id db =
      (¬ IsOverdue id db)
      ⊎ ((e : Error) × (recover_expired_lease registry uuid id now db db db ≡ err e))

  due_at : Option TaskState → Bool
  due_at none = false
  due_at (some task) = is_due task now

  -- Between the tables and those that `Sweep` leaves.
  pub record IsSwept (timer_limit lease_limit : ℤ) (db : Db) : Type 0 where
    pub mid : Db
    pub fired : Each Fires Sleeps (available_timers timer_limit now db) db mid
    pub recovered :
        Each Recovers Keeps
          (expired_leases lease_limit now mid)
          mid
          (sweep registry uuid timer_limit lease_limit now db)
