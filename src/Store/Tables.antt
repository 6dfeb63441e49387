-- ===== src/Store/Tables.antt =====
-- The tables of internal/store/sqlite/store.go, the rows as they are scanned after they were written,
-- and the single inserts and updates.
use go_project.Prelude.{
  zero, suc, ◌+◌, ◌*◌, Bool, false, ◌&&◌, ◌||◌, not, none, some, List, [], ◌∷◌, ◌++◌, ◌==◌,
  if◌then◌else◌, nat_eq, ℤ, pos, negsuc, Result, ok, err, duplicate_key, missing_run, ◌>>=◌, Assoc,
  lookup, insert, has_key,
}
use go_project.History.Events.{Event}
use go_project.Engine.Types.{RunRecord, TaskRecord, TaskMutation, insert_task, update_task}
use go_project.Engine.Tasks.{normalize_json, whole_seconds}
use go_project.Store.Times.{second}

-- The three tables. Runs and tasks are keyed by id, events stand in the order of insertion.
pub record Db : Type 0 where
  pub runs : Assoc RunRecord
  pub events : List Event
  pub tasks : Assoc TaskRecord

-- A duration as it is read back from its whole seconds.
unfoldable pub stored_timeout : ℤ → ℤ
stored_timeout d = elim (whole_seconds d) [
  | pos n ↦ pos (n * second)
  | negsuc zero ↦ negsuc 999_999_999
  | negsuc (suc n) ↦ negsuc (suc n * second + 999_999_999)
]

-- Rows as they are scanned after they were written.
unfoldable pub run_row : RunRecord → RunRecord
run_row run = record run { input = normalize_json run.input }

unfoldable pub event_row : Event → Event
event_row e = record e { payload = normalize_json e.payload }

unfoldable pub task_row : TaskRecord → TaskRecord
unfolding stored_timeout
task_row task = record task {
  input = normalize_json task.input;
  timeout = stored_timeout task.timeout;
}

unfoldable pub insert_run : RunRecord → Db → Result Db
insert_run run db =
    if has_key run.id db.runs
    then err duplicate_key
    else ok (record db { runs = insert run.id (run_row run) db.runs })

abbrev pub same_key : Event → Event → Bool
same_key e f = f.run_id == e.run_id && nat_eq f.sequence e.sequence

unfoldable pub any_event : (Event → Bool) → List Event → Bool
any_event p [] = false
any_event p (e ∷ es) = p e || any_event p es

-- The foreign key wants the run, the primary key a new sequence.
unfoldable pub insert_event : Event → Db → Result Db
unfolding any_event
insert_event e db =
    if not (has_key e.run_id db.runs)
    then err missing_run
    else if any_event (same_key e) db.events
    then err duplicate_key
    else ok (record db { events = db.events ++ event_row e ∷ [] })

unfoldable pub insert_events : List Event → Db → Result Db
insert_events [] db = ok db
insert_events (e ∷ es) db = insert_event e db >>= λ db'. insert_events es db'

unfoldable pub insert_task_row : TaskRecord → Db → Result Db
unfolding task_row
insert_task_row task db =
    if not (has_key task.run_id db.runs)
    then err missing_run
    else if has_key task.id db.tasks
    then err duplicate_key
    else ok (record db { tasks = insert task.id (task_row task) db.tasks })

unfoldable pub insert_task_rows : List TaskRecord → Db → Result Db
insert_task_rows [] db = ok db
insert_task_rows (task ∷ tasks) db = insert_task_row task db >>= λ db'. insert_task_rows tasks db'

-- `updateTask`: the columns that it sets; a row that is not there is not an error.
unfoldable pub update_task_row : TaskRecord → Db → Db
unfolding stored_timeout
update_task_row task db = elim (lookup task.id db.tasks) [
  | none ↦ db
  | some old ↦ record db {
    tasks =
        insert task.id
          (record old {
            status = task.status;
            attempt = task.attempt;
            max_attempts = task.max_attempts;
            available_at = task.available_at;
            lease_owner = task.lease_owner;
            lease_expires_at = task.lease_expires_at;
            heartbeat_at = task.heartbeat_at;
            timeout = stored_timeout task.timeout;
            input = normalize_json task.input;
            last_error = task.last_error;
            updated_at = task.updated_at;
          })
          db.tasks;
  }
]

unfoldable pub apply_mutations : List TaskMutation → Db → Result Db
apply_mutations [] db = ok db
apply_mutations (insert_task task ∷ ms) db =
    insert_task_row task db >>= λ db'. apply_mutations ms db'
apply_mutations (update_task task ∷ ms) db = apply_mutations ms (update_task_row task db)
