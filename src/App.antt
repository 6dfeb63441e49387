-- ===== src/App.antt =====
-- `Config`, `New`, `openStore` and the tick of `runMaintenance` of internal/app/app.go, without the observability stack and the
-- addresses.
pub mod Pools
use go_project.Prelude.{
  ℕ, String, Bool, List, [], ◌∷◌, ◌==◌, if◌then◌else◌, map, ℤ, pos, Result, ok, err, no_dsn,
  unsupported_driver,
}
use go_project.Workflow.Registry.{Registry}
use go_project.Engine.Runtime.{sweep}
use go_project.Store.Tables.{Db}
use go_project.Api.Paths.{append}
use go_project.Worker.Config.{LeaseConfig, Config as PoolConfig, configure}

pub record Config : Type 0 where
  pub storage_driver : String
  pub db_path : String
  pub postgres_dsn : String
  pub enable_workers : Bool
  pub worker_queues : List String
  pub worker_concurrency : ℤ
  pub lease : LeaseConfig

pub data Backend : Type 0 where
  sqlite postgres : String → Backend

-- `openStore`.
unfoldable pub open_store : Config → Result Backend
open_store c =
    if c.storage_driver == "sqlite"
    then ok (sqlite (if c.db_path == "" then "orchid.db" else c.db_path))
    else if c.storage_driver == "postgres"
    then (if c.postgres_dsn == "" then err no_dsn else ok (postgres c.postgres_dsn))
    else err (unsupported_driver c.storage_driver)

-- The default driver of `New`.
with_driver : Config → Config
with_driver c = if c.storage_driver == "" then record c { storage_driver = "sqlite" } else c

-- The store that `New` opens.
unfoldable pub new_store : Config → Result Backend
unfolding open_store with_driver
new_store c = open_store (with_driver c)

or_default : List String → List String
or_default [] = "default" ∷ []
or_default queues = queues

-- The queues that `New` starts a pool for.
unfoldable pub queues : Config → List String
unfolding or_default
queues c = if c.enable_workers then or_default c.worker_queues else []

-- The pool of a queue.
unfoldable pub pool : Config → String → PoolConfig
unfolding configure append
pool c queue = configure (record {
  worker_id = append "embedded-" queue;
  queue = queue;
  concurrency = c.worker_concurrency;
  poll_interval = pos 150_000_000;
  lease = c.lease;
})

-- The sweep of a tick of `runMaintenance`.
unfoldable pub tick : {Handler : Type 0} → Registry Handler → (ℕ → String) → ℤ → Db → Db
tick registry uuid now db = sweep registry uuid (pos 32) (pos 32) now db
