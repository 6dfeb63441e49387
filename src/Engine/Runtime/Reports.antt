-- ===== src/Engine/Runtime/Reports.antt =====
-- The methods of `Service` in internal/engine/service.go that only read: `GetRun`, `ListRuns`,
-- `GetHistory` and `ReplayRun` with its `ReplayReport` of internal/engine/types.go.
pub mod Matching
use go_project.Prelude.{
  ℕ, ℤ, pos, leb_ℤ, String, Bool, true, false, ◌&&◌, ◌||◌, not, ◌≡◌, refl, ◌==◌, eq_refl, List, [],
  ◌∷◌, Result, ok, ◌>>=◌, length, arith, Assoc, lookup,
}
use go_project.History.Json.{
  Json, null, flag, number, text, time, other, obj, Members, end, member, Raw, absent, value,
  malformed,
}
use go_project.History.Events.{Event}
use go_project.Workflow.Registry.{Registry}
use go_project.Engine.Types.{RunStatus, RunRecord, TaskRecord, RunState}
use go_project.Engine.Tasks.{normalize_json}
use go_project.Engine.Loaded.{LoadedRun}
use go_project.Engine.Runtime.{load_run}
use go_project.Store.Sqlite.{get_run, get_history, list_tasks}
use go_project.Store.Tables.{Db}

pub record RunView : Type 0 where
  pub run : RunRecord
  pub tasks : List TaskRecord

-- `GetRun`.
unfoldable pub view_run : String → Db → Result RunView
view_run run_id db =
    get_run run_id db >>= λ run. ok (record { run = run; tasks = list_tasks run_id db })

pub record ReplayReport : Type 0 where
  pub run : RunRecord
  pub state : RunState
  pub summary_matches : Bool
  pub tasks : List TaskRecord
  pub history_length : ℕ

-- Equality of texts, on the values that they stand for.
unfoldable mutual
  pub same_json : Json → Json → Bool
  same_json null null = true
  same_json (flag a) (flag b) = (a && b) || (not a && not b)
  same_json (number a) (number b) = leb_ℤ a b && leb_ℤ b a
  same_json (text a) (text b) = a == b
  same_json (time a) (time b) = leb_ℤ a b && leb_ℤ b a
  same_json (other a) (other b) = a == b
  same_json (obj a) (obj b) = same_members a b
  same_json a b = false

  pub same_members : Members → Members → Bool
  same_members end end = true
  same_members (member j v m) (member k w n) = j == k && same_json v w && same_members m n
  same_members m n = false

same_raw : Raw → Raw → Bool
same_raw absent absent = true
same_raw (value a) (value b) = same_json a b
same_raw (malformed a) (malformed b) = a == b
same_raw a b = false

-- `jsonEqual`.
unfoldable pub json_equal : Raw → Raw → Bool
unfolding same_raw
json_equal left right = same_raw (normalize_json left) (normalize_json right)

-- Equality of the statuses, which are strings in the source.
unfoldable pub same_status : RunStatus → RunStatus → Bool
same_status RunStatus.unset RunStatus.unset = true
same_status RunStatus.running RunStatus.running = true
same_status RunStatus.compensating RunStatus.compensating = true
same_status RunStatus.cancelling RunStatus.cancelling = true
same_status RunStatus.completed RunStatus.completed = true
same_status RunStatus.failed RunStatus.failed = true
same_status RunStatus.cancelled RunStatus.cancelled = true
same_status a b = false

unfoldable pub summary_matches : RunRecord → RunRecord → Bool
summary_matches stored replayed =
    same_status stored.status replayed.status
    && stored.failure == replayed.failure
    && stored.cancel_reason == replayed.cancel_reason
    && json_equal stored.output replayed.output

module _ {Handler : Type 0} (registry : Registry Handler) where
  -- `ReplayRun`.
  unfoldable pub replay_run : String → Db → Result ReplayReport
  replay_run run_id db = load_run registry run_id db >>= λ l. ok (record {
    run = l.run;
    state = l.state;
    summary_matches = summary_matches l.run l.state.run;
    tasks = l.task_list;
    history_length = length l.events;
  })

mutual
  unfolding same_json same_members

  same_json_refl : (j : Json) → same_json j j ≡ true
  same_json_refl null = refl
  same_json_refl (flag true) = refl
  same_json_refl (flag false) = refl
  same_json_refl (number n) = ground arith
  same_json_refl (text s) = eq_refl s
  same_json_refl (time t) = ground arith
  same_json_refl (other s) = eq_refl s
  same_json_refl (obj m) = same_members_refl m

  same_members_refl : (m : Members) → same_members m m ≡ true
  same_members_refl end = refl
  same_members_refl (member k v m) = rw (eq_refl k, same_json_refl v, same_members_refl m) refl

same_raw_refl : (r : Raw) → same_raw r r ≡ true
unfolding same_raw
same_raw_refl absent = refl
same_raw_refl (value j) = same_json_refl j
same_raw_refl (malformed s) = eq_refl s

pub json_equal_refl : (r : Raw) → json_equal r r ≡ true
unfolding json_equal
json_equal_refl r = same_raw_refl (normalize_json r)

pub same_status_refl : (s : RunStatus) → same_status s s ≡ true
unfolding same_status
same_status_refl RunStatus.unset = refl
same_status_refl RunStatus.running = refl
same_status_refl RunStatus.compensating = refl
same_status_refl RunStatus.cancelling = refl
same_status_refl RunStatus.completed = refl
same_status_refl RunStatus.failed = refl
same_status_refl RunStatus.cancelled = refl
