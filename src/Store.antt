-- ===== src/Store.antt =====
-- internal/store: the durable tables behind the engine.
pub mod Times
pub mod Tables
pub mod Sqlite
pub mod Postgres
