-- ===== src/Lib.antt =====
-- Orchid, a durable workflow engine: workflows are graphs of activities and timers, a run is driven
-- by events that are appended to its history, and its state is whatever a replay of the history
-- gives.
--
-- History models internal/history/events.go: `Event`, `new` (New) and the payload structs, with the
-- JSON that encoding/json makes of them (History/Json, History/Payloads, History/Codec). JSON is a
-- data type rather than bytes: member order, escapes and number formats are not modelled, and a
-- json.RawMessage is absent, a value, or bytes that are no JSON. A member is found by its exact
-- name, where encoding/json also takes other cases of the letters, and a text that is an instant is
-- kept apart from the other texts, so that a name in the form of an instant is not modelled.
--
-- Workflow models pkg/workflow/workflow.go: steps, retry policies, definitions and the registry,
-- the builder with its options (Workflow/Builder) and its check (Workflow/Validate:
-- `validate_steps`, `visit`, `build`). The recursive `visit` takes fuel, one more than there are
-- steps; that is enough, since a nested call colours one more step. A panic of the registry is an
-- error.
--
-- Engine models internal/engine. Engine/Types has the records of types.go. Engine/Reducer is
-- reducer.go: `apply_event` (applyEvent), with a function for each event type in Engine/Effects,
-- and `replay` (Replay). Engine/Backoff is BackoffForAttempt. service.go is split: Engine/Tasks
-- makes tasks and events (newTask, makeEvent, buildTaskInput), Engine/Progress moves a run on
-- (scheduleForwardReady, postProcess, beginCompensationOrFinish, advanceCompensation),
-- Engine/Loaded and Engine/Service have what each operation asks the repository to append, given a
-- loaded run (completeTaskOnce, failTaskOnce, cancelRunOnce, fireTimerOnce, StartRun), and
-- Engine/Runtime reads the run from the tables before and writes the changes after, with the sweep
-- (Sweep, RecoverExpiredLease). Engine/Runtime/Histories has the tables that any interleaving of
-- these operations reaches, and Engine/Runtime/Reports has GetRun and ReplayRun.
--
-- Store models internal/store/sqlite/store.go: the three tables are a record, an operation is a
-- function from tables to tables or to an error, which stands for the transaction that rolls back.
-- Store/Tables has the tables with their inserts and updates, Store/Sqlite the operations.
-- Store/Times has the order of the time columns, which are compared as RFC3339Nano texts, for the
-- years to 9999. Store/Postgres models internal/store/postgres/store.go on the same tables, and in
-- Store/Postgres/Service the operations of the engine on them. The parameter `Database` says what
-- the columns of types JSONB and TIMESTAMPTZ make of a value, and what the driver answers to a
-- statement on a connection while the rows of a query on it are read, which pgx refuses. The rows
-- that SKIP LOCKED passes over are an argument.
--
-- Worker models internal/worker/worker.go and internal/queue/queue.go: the defaults of a pool
-- (Worker/Config), the input that a handler gets (Worker/Input), and `execute` with the heartbeats
-- that end before the handler returns (Worker/Execute); handlers and the encoding of their values
-- are parameters. Worker/Rounds has the calls to the engine that a pool makes.
--
-- Api models internal/api/server.go (Api/Server: `routes` as `handle`, handleRuns, handleRunByID)
-- and the requests of pkg/client/client.go (Api/Client), whose run ids are of letters, digits,
-- dashes and underscores, as generated ids are: of others a URL can be refused, or its path
-- cleaned. A request is a method, a cleaned path, the query value of `limit` and a body; the
-- handlers take the engine as a record of operations, which Api/Backend fills with the one of
-- Engine/Runtime.
--
-- App models internal/app/app.go: the store and the pools that `New` chooses from its `Config`, and
-- the sweep of a tick of runMaintenance.
--
-- How the parts meet: Runtime loads a run from Store with Reducer, Service and Progress produce
-- events, each applied by the Reducer as it is made, and Store appends them under the version that
-- was loaded.
--
-- Conventions: a Go map is an association list, whose iteration order the modelled code does not
-- look at; a nil map is an empty one. Times and durations are counts of nanoseconds, in ℤ and
-- without the bounds of int64 (Go's time.Duration), but for the doubling in BackoffForAttempt,
-- which wraps at 64 bits. `int` settings are in ℤ; versions and sequences are in ℕ. Generated UUIDs
-- are a function from the sequence at which they are drawn; nothing supposes that they differ. The
-- current time is an argument. All loops but the visit of a workflow's steps are structural
-- recursions.
--
-- Not modelled: the listener and the shutdown of internal/app, the commands under cmd with their
-- flags, the opening of the databases and their schema scripts, metrics, spans and logs, the waits
-- of a worker between its rounds, the JSON text of responses and their decoding by the client, its
-- ListRuns, and the example. Engine/Runtime/Retry has the repetition after a version conflict by
-- itself: the operations are modelled as one attempt, and a version conflict is an error of its
-- own, where the code looks for its text.
pub mod Prelude
pub mod History
pub mod Workflow
pub mod Engine
pub mod Store
pub mod Worker
pub mod Api
pub mod App
pub mod Samples
