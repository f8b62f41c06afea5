-- ===== src/Db.antt =====
-- src/db/: the SQLite database of the engine.
pub mod Sql
pub mod Blobs
pub mod Keeps
pub mod Outcome
pub mod Records
pub mod Outbox
pub mod SyncState
pub mod Config
pub mod Index
