-- ===== src/Samples.antt =====
-- Runs of the model on a small workflow: two activities, of which the first can be undone, and a
-- timer behind them.
pub mod Orders
pub mod Replays
pub mod Tables
pub mod Rules
pub mod Histories
pub mod Workflows
pub mod Stores
pub mod Workers
pub mod Requests
pub mod Process
