-- ===== src/Engine.antt =====
-- internal/engine: the replay reducer and the orchestration service.
pub mod Types
pub mod Effects
pub mod Reducer
pub mod Backoff
pub mod Tasks
pub mod Progress
pub mod Loaded
pub mod Service
pub mod Runtime
