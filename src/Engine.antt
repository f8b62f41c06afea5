-- ===== src/Engine.antt =====
-- src/engine.rs: the state of the actor and its record handlers. What the environment gives to a
-- call (clock readings, a new ULID, random bytes) is in its `Inputs`.
pub mod Encryption
pub mod Put
pub mod Blobs
pub mod Commands
pub mod Queries
pub mod Rebuild
pub mod Handle
pub mod Delete
pub mod Open
pub mod Replicates
use squirreld.Prelude.{
  ℕ, ◌<◌, ◌+◌, String, List, [], ◌∷◌, ◌++◌, Text, ◌≡◌, Bool, true, false, not, ◌&&◌, ◌||◌, Option,
  none, some, if◌then◌else◌, str_eq, ltb, length, map,
}
use squirreld.Error.{Result, ok, err, panic}
use squirreld.Hlc.{Hlc, tick, fmt, from_str, new}
use squirreld.Types.{
  BlobTrigger, Bytes, Record, RecordMeta, PutOpts, ListOpts, SortOrder, hlc_asc, hlc_desc,
  PendingError, IndexDef, IndexValue, FieldDef, ℤ, SyncStats,
}
use squirreld.Crypto.{Cipher, Entropy}
use squirreld.Db.Sql.{
  RecordRow, OutboxEntry, SqlValue, Db, Conn, Sql, pure, lift, transaction, continue, ◌>>=◌, ◌>>◌,
}
use squirreld.Db.Records
use squirreld.Db.Outbox
use squirreld.Db.Index.{create_shadow_table, create_fts_table}
use squirreld.Db.Index.Rows.{upsert_index_row, upsert_fts_row, delete_index_rows, is_empty}
use squirreld.Engine.Encryption.{maybe_encrypt, maybe_decrypt, Stored}
use mathlib.Core.Option

-- `sync_trigger` is the channel to the sync loop, if there is one: how many kicks wait in it;
-- `blob_trigger` is the one to the blob worker, with what waits in it. The cache directory, the
-- collections and the event channel are not touched by the handlers.
pub record ActorState : Type 0 where
  pub conn : Conn
  pub last_hlc : Hlc
  pub sync_trigger : Option ℕ
  pub blob_trigger : Option (List BlobTrigger)
  pub indexes : List (String × IndexDef)
  pub kek : Option Bytes

-- `Value::get` of a payload that `serde_json` parsed, and then `as_str`, `as_i64` or `as_f64`.
pub record JsonFields : Type 0 where
  pub as_str : String → Option Text
  pub as_i64 : String → Option ℤ
  pub as_f64 : String → Option ℕ

-- `select` is SQLite on the statement of a query; `sync_reply` and `flush_reply` are what the loops of
-- the sync and of the blob worker send on the channel of a forced run, if they are there to do so.
pub record Inputs : Type 0 where
  pub wall_ms : ℕ
  pub now_ms : ℕ
  pub outbox_ms : ℕ
  pub ulid : String
  pub path_exists : String → Bool
  pub select : String → List SqlValue → Db → Result (List RecordRow)
  pub parse_json : Bytes → Option JsonFields
  pub sync_reply : Option SyncStats
  pub flush_reply : Option (Unit {0})
  pub entropy : Entropy

-- `state.indexes.get(collection)`
unfoldable pub index_of : String → List (String × IndexDef) → Option IndexDef
index_of collection [] = none
index_of collection ((k, def) ∷ rest) =
    if str_eq k collection then some def else index_of collection rest

-- `state.indexes.insert(collection, def)`
unfoldable pub insert_index :
    String → IndexDef → List (String × IndexDef) → List (String × IndexDef)
insert_index collection def [] = (collection, def) ∷ []
insert_index collection def ((k, old) ∷ rest) =
    if str_eq k collection then (k, def) ∷ rest else (k, old) ∷ insert_index collection def rest

abbrev pub or_default {ℓ} : {A : Type ℓ} → Option A → A → A
or_default none d = d
or_default (some a) d = a

abbrev pub row_of : String → String → Stored → Hlc → PutOpts → ℕ → RecordRow
row_of collection key (stored, dek, version) hlc opts now = record {
  id = key;
  collection = collection;
  payload = stored;
  hlc = fmt hlc;
  schema_version = or_default opts.schema_version 0;
  format_version = version;
  dek_encrypted = dek;
  deleted = false;
  synced = false;
  created_at = now;
  updated_at = now;
}

unfoldable pub maintain_index :
    Option IndexDef → String → List (String × IndexValue) → Sql (Unit {0})
maintain_index none key values = pure tt
maintain_index (some def) key values = do
  (if not (is_empty values) || not (is_empty def.fields)
      then upsert_index_row def key values
      else pure tt)
  if not (is_empty def.fts_fields) then upsert_fts_row def key values else pure tt

-- What `handle_put` does between `transaction()` and `commit()`.
unfoldable pub put_body : Option IndexDef → RecordRow → Bytes → ℕ → PutOpts → Sql (Unit {0})
put_body def row payload outbox_ms opts = do
  Records.upsert row
  Outbox.append row.id row.collection "upsert" row.hlc (some payload) outbox_ms
  maintain_index def row.id opts.index_fields

-- After the transaction: the clock moves only where it was committed.
abbrev pub finish {ℓ} :
    {A : Type ℓ} → ActorState → Hlc → A → Result (Unit {0}) × Conn → Result A × ActorState
finish s hlc a (ok _, c) = (ok a, record s { conn = c; last_hlc = hlc })
finish s hlc a (err e, c) = (err e, record s { conn = c })
finish s hlc a (panic, c) = (panic, record s { conn = c })

module _ (c : Cipher) where
  unfoldable pub put_stored :
      ActorState
      → Inputs
      → String
      → String
      → Bytes
      → PutOpts
      → Result Stored
      → Result String × ActorState
  put_stored s i collection key payload opts (err e) = (err e, s)
  put_stored s i collection key payload opts panic = (panic, s)
  put_stored s i collection key payload opts (ok stored) =
      let hlc = tick i.wall_ms s.last_hlc in
      finish s hlc key (
        transaction
          (put_body (index_of collection s.indexes) (row_of collection key stored hlc opts i.now_ms)
            payload i.outbox_ms opts)
          s.conn)

  unfoldable pub handle_put :
      ActorState → Inputs → String → Option String → Bytes → PutOpts → Result String × ActorState
  handle_put s i collection key payload opts =
      put_stored s i collection (or_default key i.ulid) payload opts
        (maybe_encrypt c i.entropy s.kek payload opts.encryption)

-- `r.hlc.parse().unwrap_or_else(|_| Hlc::new([0; 6]))`; a panic of the parser is not caught.
unfoldable pub hlc_or_new : ℕ → Result Hlc → Result Hlc
hlc_or_new wall_ms (ok h) = ok h
hlc_or_new wall_ms (err e) = ok (new wall_ms (0 ∷ 0 ∷ 0 ∷ 0 ∷ 0 ∷ 0 ∷ []))
hlc_or_new wall_ms panic = panic

abbrev pub record_of : RecordRow → Hlc → Record
record_of r hlc = record {
  id = r.id;
  collection = r.collection;
  payload = r.payload;
  hlc = hlc;
  schema_version = r.schema_version;
  deleted = r.deleted;
  created_at = r.created_at;
  updated_at = r.updated_at;
}

abbrev pub meta_of : RecordRow → Hlc → RecordMeta
meta_of r hlc = record {
  id = r.id;
  collection = r.collection;
  hlc = hlc;
  schema_version = r.schema_version;
  deleted = r.deleted;
  created_at = r.created_at;
  updated_at = r.updated_at;
}

unfoldable pub to_record : ℕ → RecordRow → Result Record
to_record wall_ms r = elim (hlc_or_new wall_ms (from_str r.hlc)) [
  | ok h ↦ ok (record_of r h)
  | err e ↦ err e
  | panic ↦ panic
]

unfoldable pub to_meta : ℕ → RecordRow → Result RecordMeta
to_meta wall_ms r = elim (hlc_or_new wall_ms (from_str r.hlc)) [
  | ok h ↦ ok (meta_of r h)
  | err e ↦ err e
  | panic ↦ panic
]

unfoldable pub shown : Cipher → Option Bytes → ℕ → Option RecordRow → Result (Option Record)
shown c kek wall_ms none = ok none
shown c kek wall_ms (some r) = if r.deleted then ok none else elim (maybe_decrypt c kek r) [
  | err e ↦ err e
  | panic ↦ panic
  | ok plain ↦ elim (to_record wall_ms plain) [
    | err e ↦ err e
    | panic ↦ panic
    | ok rec ↦ ok (some rec)
  ]
]

unfoldable pub handle_get :
    Cipher → ActorState → ℕ → String → String → Result (Option Record) × ActorState
handle_get c s wall_ms collection key =
    let (r, conn) =
      (do row ← Records.get collection key; lift (shown c s.kek wall_ms row)) s.conn in
    (r, record s { conn = conn })

unfoldable pub delete_body : Option IndexDef → String → String → Text → ℕ → ℕ → Sql (Unit {0})
delete_body def collection key hlc now outbox_ms = do
  Records.soft_delete collection key hlc now
  Outbox.append key collection "delete" hlc none outbox_ms
  elim def [ none ↦ pure tt | some d ↦ delete_index_rows d key ]

unfoldable pub handle_delete :
    ActorState → Inputs → String → String → Result (Unit {0}) × ActorState
handle_delete s i collection key =
    let hlc = tick i.wall_ms s.last_hlc in
    finish s hlc tt (
      transaction
        (delete_body (index_of collection s.indexes) collection key (fmt hlc) i.now_ms i.outbox_ms)
        s.conn)
