-- ===== src/Lib.antt =====
-- squirreld: a local-first record store on SQLite with a hybrid logical clock, encryption at rest, and
-- a loop that pushes an outbox to a remote store and pulls the records of other devices, and a worker
-- that moves blobs.
--
-- The parts and how they interact. A client sends commands to the engine (engine.rs), one actor that
-- owns a connection, the last clock, the registered indexes and the key. A put or a delete writes the
-- records table, the outbox and the shadow indexes in one transaction (db/) under a new clock (hlc.rs),
-- the payload sealed by crypto.rs where it must be. The sync loop (sync/mod.rs) has its own connection
-- to the same database: it pushes the outbox to a backend (backend/) and applies what it pulls, where
-- the newest clock wins. The blob worker (blob/worker.rs) has a third connection: it stages the files
-- that the engine names, sends them to a blob store at once or in parts, resumes what was interrupted,
-- and downloads what is asked for.
--
-- The files:
--   Hlc, Hex: hlc.rs, and the hexadecimal digits that it prints and parses (also db/config.rs).
--   Error, Types: error.rs and types.rs. `Result` has a third outcome, a panic.
--   Crypto: crypto.rs, over a parameter `Cipher` for AES-256-GCM and `Entropy` for random bytes.
--   Db.Sql: the tables of db/schema.rs as one record, and statements on them as functions.
--   Db.Records, Db.Outbox, Db.SyncState, Db.Config, Db.Index, Db.Blobs: the files of the same names in
--   db/; one function for each function of the source.
--   Db.Index.Query: the statement of `query` in db/index.rs.
--   Db.Keeps, Db.Outcome: rules for invariants of actions, and for actions that succeeded.
--   Backend: backend/mod.rs as a record of operations with its contract `IsBackend`;
--   Backend.InMemory: backend/in_memory.rs, which implements it; Backend.Blobs and
--   Backend.InMemoryBlobs: the same for the blob half of both files; Backend.DynamoDb, Backend.S3:
--   backend/dynamodb.rs and backend/s3.rs over a client of the SDK, with the contracts of both.
--   Blob: what the blob worker works on; Blob.Worker: blob/worker.rs, its uploads and downloads;
--   Blob.Loop: its `run`. Blob.Sound: what holds of one blob while the worker runs, and the rules by
--   which it is kept; Blob.Chunks, Blob.Remote, Blob.Rows, Blob.Steps, Blob.Upload, Blob.Cycle: the
--   proof that it is; Blob.Progress, Blob.Lives: what happens when nothing, or no statement, fails.
--   Sync, Sync.Pull, Sync.Round: sync/mod.rs, `run_push_cycle`, `run_pull_cycle` and one round of `run`;
--   Sync.Loop: its `run`, over what its waits give.
--   Engine: the actor's state and handlers; Engine.Encryption: `maybe_encrypt` and `maybe_decrypt`;
--   Engine.Open: `open`, which makes the first state; Engine.Commands: the loop over the commands;
--   Engine.Blobs, Engine.Queries, Engine.Rebuild: the handlers of blobs, of queries and of a rebuild.
--   A panic in a handler ends the actor in Engine.Handle, as in the source; the loop of Engine.Commands
--   goes on with the next command, so that its runs are those of the source and more.
--   Engine.Handle: the handle of a client; Builder: builder.rs and collection.rs.
--   Tests: the theorems at concrete inputs.
-- A field that the source calls `data` is called `payload` here, since that word is a keyword.
--
-- Failures. Any statement may fail (a full disk, a lock): a `Conn` holds for the statements to come
-- which ones do, so that a theorem for every `Conn` covers every point of failure. A failed statement
-- has no effect; a transaction rolls back where its body or its commit fails.
--
-- Time and randomness are arguments: a clock reading, a new ULID, a nonce or a key is an input of the
-- call that reads it. Machine integers are natural numbers with the wrap-around or the saturation of
-- the source written out; `IsHlc` states the ranges of a clock.
--
-- Bounds and fuel. The hexadecimal digits of a u64 are sought with fuel 16 and the decimal digits of an
-- i64 with fuel 19, which is as many digits as such a number can have. The digits
-- of a number n that is printed have fuel n + 1, and a pull from DynamoDB has fuel for its pages. All
-- other loops are structural.
--
-- Strings that are compared or walked (clocks, identifiers) are lists of their bytes, `Text`; SQLite
-- and Rust both compare them byte by byte. Other strings are the native ones.
--
-- Blobs. The blob worker's calls of the file system are a parameter `Files`, its remote store a
-- parameter `BlobBackend`, each with what the worker relies on as a record of laws, `IsFiles` and
-- `IsBlobBackend`; any call may also be refused. The length of a chunk is a field of the worker, so the
-- theorems hold for every length and so for `multipart_threshold`. The numbers of parts are an i32: a
-- file of 2^31 chunks or more is outside of the theorems.
--
-- SQLite: a query's text is built as it is in the source, and what it selects is a parameter.
--
-- Not modelled: the configuration of the AWS SDK (backend/s3.rs, backend/dynamodb.rs); in the sync loop
-- the lengths of its waits and `ensure_table` at its start, in the blob worker `ensure_bucket`, both of
-- which are functions of their backends; in the engine the spawning of the tasks, the subscription to
-- events and the default of the cache directory.
mod Prelude
mod Tests
pub mod Error
pub mod Hex
pub mod Hlc
pub mod Types
pub mod Crypto
pub mod Db
pub mod Backend
pub mod Blob
pub mod Sync
pub mod Engine
pub mod Builder
