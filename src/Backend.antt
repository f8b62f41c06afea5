-- ===== src/Backend.antt =====
-- src/backend/mod.rs: what goes to a remote record store and comes back, and the trait that the sync
-- loop uses. The blob half of the file is in Backend/Blobs.
pub mod Blobs
pub mod DynamoDb
pub mod InMemory
pub mod InMemoryBlobs
pub mod S3
use squirreld.Prelude.{ℕ, String, List, [], ◌∷◌, Text, ◌≡◌, Bool, Option}
use squirreld.Types.{Bytes}

pub record OutboxPushEntry : Type 0 where
  pub seq : ℕ
  pub record_id : String
  pub collection : String
  pub operation : String
  pub hlc : Text
  pub payload : Option Bytes
  pub dek_encrypted : Option Bytes
  pub schema_version : ℕ
  pub format_version : ℕ
  pub retries : ℕ

pub record RemoteRecord : Type 0 where
  pub record_id : String
  pub collection : String
  pub hlc : Text
  pub payload : Option Bytes
  pub dek_encrypted : Option Bytes
  pub deleted : Bool
  pub schema_version : ℕ
  pub format_version : ℕ

pub data PushResult : Type 0 where
  pushed : (pushed_seqs : List ℕ) → PushResult
  conflict_at : (record_id : String) (seq : ℕ) → PushResult
  transient_error : (error : String) → PushResult

pub data BackendError : Type 0 where
  transient config : String → BackendError

pub data Pulled : Type 0 where
  records : List RemoteRecord → Pulled
  failed : BackendError → Pulled

-- `RecordBackend` over the state `S` of the remote store; `ensure_table` is left out, which the loop
-- calls once and whose failure it only logs.
pub record RecordBackend (S : Type 0) : Type 0 where
  pub backend_id : String
  pub push_one : OutboxPushEntry → S → PushResult × S
  pub pull_since : Option Text → S → Pulled

-- What the sync loop relies on. `Covers s id collection hlc`: the remote holds a record of that key at
-- least as new as `hlc`.
pub record IsBackend {S : Type 0} (b : RecordBackend S)
    (Covers : S → String → String → Text → Type 0) : Type 0 where
  pub push_ok :
      (e : OutboxPushEntry) (s : S) (seqs : List ℕ)
      → (b.push_one e s).0 ≡ pushed seqs
      → (seqs ≡ e.seq ∷ []) × Covers (b.push_one e s).1 e.record_id e.collection e.hlc
  pub push_conflict :
      (e : OutboxPushEntry) (s : S) (i : String) (seq : ℕ)
      → (b.push_one e s).0 ≡ conflict_at i seq
      → (seq ≡ e.seq) × Covers (b.push_one e s).1 e.record_id e.collection e.hlc
  pub push_keeps :
      (e : OutboxPushEntry) (s : S) (i collection : String) (hlc : Text)
      → Covers s i collection hlc
      → Covers (b.push_one e s).1 i collection hlc
