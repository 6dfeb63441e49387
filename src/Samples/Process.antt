-- ===== src/Samples/Process.antt =====
-- The stores and the pools that a configuration leads to.
use go_project.Prelude.{true, ◌≡◌, refl, [], ◌∷◌, pos, ok, err, no_dsn}
use go_project.Store.Tables.{Db}
use go_project.App.{Config, sqlite, new_store, queues, pool}
use go_project.Samples.Orders.{no_changes, pending}

abbrev config : Config
config = record {
  storage_driver = "";
  db_path = "";
  postgres_dsn = "";
  enable_workers = true;
  worker_queues = [];
  worker_concurrency = pos 2;
  lease = record { ttl = pos 0; heartbeat_every = pos 0; recovery_interval = pos 0 };
}

default_store :
    (new_store config ≡ ok (sqlite "orchid.db"))
    × (new_store (record config { storage_driver = "postgres" }) ≡ err no_dsn)
    × (queues config ≡ "default" ∷ [])
unfolding new_store queues
default_store = (refl, refl, refl)

-- The pool of the default queue holds the lease that the pool of another queue tries to keep.
abbrev embedded : Db
embedded = record {
  runs = ("run-1", no_changes.run) ∷ [];
  events = [];
  tasks = ("task-2", record pending { lease_owner = (pool config "default").worker_id }) ∷ [];
}
