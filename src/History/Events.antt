-- ===== src/History/Events.antt =====
-- `Event` and `New` of internal/history/events.go.
use go_project.Prelude.{ℕ, String, ℤ, Result, ok, ◌>>=◌}
use go_project.History.Json.{Raw, value}
use go_project.History.Payloads.{EventType, Payload, event_type}
use go_project.History.Codec.{marshal}

pub record Event : Type 0 where
  pub run_id : String
  pub sequence : ℕ
  pub type : EventType
  pub step_id : String
  pub task_id : String
  pub payload : Raw
  pub created_at : ℤ

-- The sequence is zero until the caller sets it.
unfoldable pub new : String → String → String → Payload → ℤ → Result Event
unfolding marshal event_type
new run_id step_id task_id p now = marshal p >>= λ body. ok (record {
  run_id = run_id;
  sequence = 0;
  type = event_type p;
  step_id = step_id;
  task_id = task_id;
  payload = value body;
  created_at = now;
})
