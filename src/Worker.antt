-- ===== src/Worker.antt =====
-- internal/worker/worker.go and internal/queue/queue.go: the pool that leases tasks and runs their
-- handlers.
pub mod Config
pub mod Input
pub mod Execute
pub mod Rounds
