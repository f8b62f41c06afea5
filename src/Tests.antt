-- ===== src/Tests.antt =====
-- The theorems at concrete inputs: a device `alice` with a key, a device `bob` with the same key, and
-- a remote store in memory.
mod Data
mod Clocks
mod Rows
mod Puts
mod Cycles
mod Handlers
mod Uploads
mod Queries
mod Remotes
mod Buckets
mod Indexes
