-- ===== src/Store/Postgres/Columns.antt =====
-- The columns of internal/store/postgres/store.go: JSONB and TIMESTAMPTZ, and the rows as they are
-- scanned after they were written.
use go_project.Prelude.{Option, none, some, ℤ, Error, Result, ok, err, invalid_json, ◌>>=◌}
use go_project.History.Json.{Json, Raw, absent, value, malformed}
use go_project.History.Events.{Event}
use go_project.Engine.Types.{RunRecord, TaskRecord}
use go_project.Engine.Tasks.{normalize_json}
use go_project.Store.Tables.{stored_timeout}

-- What PostgreSQL gives back of a value that it has stored: JSONB rewrites a document, TIMESTAMPTZ
-- keeps microseconds. And what the driver answers to a statement on a connection while the rows of a
-- query on it are still read: an error, or none where it takes the statement. pgx refuses it.
pub record Database : Type 0 where
  pub jsonb : Json → Json
  pub timestamp : ℤ → ℤ
  pub while_reading : Option Error

module _ (database : Database) where
  -- A JSONB column of a value that `normalizeJSON` has filled in.
  json_text : Raw → Result Raw
  json_text absent = err invalid_json
  json_text (value j) = ok (value (database.jsonb j))
  json_text (malformed s) = err invalid_json

  unfoldable pub json_column : Raw → Result Raw
  unfolding json_text
  json_column r = json_text (normalize_json r)

  -- The same behind `nullableBytes`.
  unfoldable pub nullable_bytes : Raw → Result Raw
  unfolding json_text
  nullable_bytes absent = ok absent
  nullable_bytes (value j) = json_text (value j)
  nullable_bytes (malformed s) = json_text (malformed s)

  -- `nullableTime` and the scan of it.
  unfoldable pub nullable_time : Option ℤ → Option ℤ
  nullable_time none = none
  nullable_time (some t) = some (database.timestamp t)

  unfoldable pub run_columns : RunRecord → Result RunRecord
  run_columns run = json_column run.input >>= λ input. nullable_bytes run.output >>= λ output.
      ok (record run {
        input = input;
        output = output;
        created_at = database.timestamp run.created_at;
        updated_at = database.timestamp run.updated_at;
        completed_at = nullable_time run.completed_at;
      })

  unfoldable pub event_columns : Event → Result Event
  event_columns e = json_column e.payload >>= λ payload.
      ok (record e { payload = payload; created_at = database.timestamp e.created_at })

  unfoldable pub task_columns : TaskRecord → Result TaskRecord
  task_columns task = json_column task.input >>= λ input. ok (record task {
    input = input;
    timeout = stored_timeout task.timeout;
    available_at = database.timestamp task.available_at;
    lease_expires_at = nullable_time task.lease_expires_at;
    heartbeat_at = nullable_time task.heartbeat_at;
    created_at = database.timestamp task.created_at;
    updated_at = database.timestamp task.updated_at;
  })

-- A statement while rows are read.
unfoldable pub answered : Option Error → Result (Unit {0})
answered none = ok tt
answered (some e) = err e
