-- ===== src/Types.antt =====
-- src/types.rs: the public data of the engine, and `QueryOpts` of src/db/index.rs.
use squirreld.Prelude.{
  ℕ, String, List, [], Text, Bool, false, Option, none, some, if◌then◌else◌, str_eq,
}
use squirreld.Hlc.{Hlc}

-- `Vec<u8>`
abbrev pub Bytes : Type 0
Bytes = List ℕ

pub record Record : Type 0 where
  pub id : String
  pub collection : String
  pub payload : Bytes
  pub hlc : Hlc
  pub schema_version : ℕ
  pub deleted : Bool
  pub created_at : ℕ
  pub updated_at : ℕ

pub record RecordMeta : Type 0 where
  pub id : String
  pub collection : String
  pub hlc : Hlc
  pub schema_version : ℕ
  pub deleted : Bool
  pub created_at : ℕ
  pub updated_at : ℕ

pub data ItemEncryption : Type 0 where
  default : ItemEncryption
  enabled : ItemEncryption
  disabled : ItemEncryption

pub data SortOrder : Type 0 where
  hlc_desc hlc_asc : SortOrder

pub record ListOpts : Type 0 where
  pub limit : Option ℕ
  pub offset : ℕ
  pub include_deleted : Bool
  pub order : SortOrder

abbrev pub default_list_opts : ListOpts
default_list_opts = record { limit = none; offset = 0; include_deleted = false; order = hlc_desc }

pub data BlobStatus : Type 0 where
  pending uploading uploaded cached : BlobStatus

unfoldable pub as_str : BlobStatus → String
as_str pending = "pending"
as_str uploading = "uploading"
as_str uploaded = "uploaded"
as_str cached = "cached"

unfoldable pub from_db_str : String → Option BlobStatus
from_db_str s =
    if str_eq s "pending"
    then some pending
    else if str_eq s "uploading"
    then some uploading
    else if str_eq s "uploaded"
    then some uploaded
    else if str_eq s "cached"
    then some cached
    else none

pub record PutBlobOpts : Type 0 where
  pub record_id : Option String
  pub collection : Option String

pub record BlobInfo : Type 0 where
  pub id : String
  pub status : BlobStatus
  pub local_path : Option String
  pub size_bytes : Option ℕ
  pub retries : ℕ
  pub last_error : Option String

-- A message to the blob worker (src/blob/worker.rs). A flush is named by the channel on which its
-- sender waits.
pub data BlobTrigger : Type 0 where
  stage : (blob_id src : String) → BlobTrigger
  tick : BlobTrigger
  download : (blob_id : String) → BlobTrigger
  force_flush : ℕ → BlobTrigger

pub record SyncStats : Type 0 where
  pub pushed : ℕ
  pub pulled : ℕ
  pub conflicts : ℕ
  pub errors : ℕ

abbrev pub no_stats : SyncStats
no_stats = record { pushed = 0; pulled = 0; conflicts = 0; errors = 0 }

pub data SyncEvent : Type 0 where
  push_complete : SyncStats → SyncEvent
  pull_complete : SyncStats → SyncEvent
  blob_uploaded : String → SyncEvent
  blob_downloaded : String → SyncEvent
  retry_scheduled : (seq retries next_retry_ms : ℕ) (error : String) → SyncEvent
  blob_retry_scheduled : (blob_id : String) (retries next_retry_ms : ℕ) (error : String) → SyncEvent

pub record PendingError : Type 0 where
  pub seq : ℕ
  pub record_id : String
  pub collection : String
  pub retries : ℕ
  pub last_error : Option String
  pub next_retry_at_ms : ℕ

pub data ColumnAffinity : Type 0 where
  text integer real : ColumnAffinity

pub record FieldDef : Type 0 where
  pub name : String
  pub affinity : ColumnAffinity

pub record IndexDef : Type 0 where
  pub collection : String
  pub fields : List FieldDef
  pub fts_fields : List String

-- `negsuc n` is -(n + 1).
pub data ℤ : Type 0 where
  pos : ℕ → ℤ
  negsuc : ℕ → ℤ

-- An `f64` is only passed on, so it is its bit pattern here.
pub data IndexValue : Type 0 where
  text : Text → IndexValue
  integer : ℤ → IndexValue
  real : ℕ → IndexValue
  null : IndexValue

-- `index_fields` is a HashMap; the first entry of a key counts.
pub record PutOpts : Type 0 where
  pub encryption : ItemEncryption
  pub schema_version : Option ℕ
  pub index_fields : List (String × IndexValue)

abbrev pub default_put_opts : PutOpts
default_put_opts = record { encryption = default; schema_version = none; index_fields = [] }

mutual
  pub data QueryFilter : Type 0 where
    eq lt gt le ge : (field : String) (value : IndexValue) → QueryFilter
    contains : (words : Text) → QueryFilter
    and_all or_any : QueryFilters → QueryFilter

  pub data QueryFilters : Type 0 where
    no_filters : QueryFilters
    and_filter : QueryFilter → QueryFilters → QueryFilters

pub record QueryOpts : Type 0 where
  pub filter : Option QueryFilter
  pub limit : Option ℕ
  pub offset : ℕ
  pub include_deleted : Bool
  pub order : SortOrder
