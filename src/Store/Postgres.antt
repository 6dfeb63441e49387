-- ===== src/Store/Postgres.antt =====
-- internal/store/postgres/store.go: the operations of the store on the tables of Store/Tables.antt.
-- What the types of the columns make of a value is a parameter.
pub mod Columns
pub mod Writes
pub mod Tasks
pub mod Numbering
pub mod Runs
pub mod Beats
pub mod Calls
pub mod Histories
pub mod Refusal
pub mod Service
