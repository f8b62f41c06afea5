-- ===== src/Engine/Rebuild.antt =====
-- src/engine.rs: `handle_rebuild_indexes`, and the waits for a forced sync and a forced flush.
pub mod Laws
use squirreld.Prelude.{
  ℕ, ◌+◌, ◌%◌, ◌^◌, String, List, [], ◌∷◌, Text, Bool, true, false, not, Option, none, some,
  if◌then◌else◌,
}
use squirreld.Error.{Result, ok, err, panic, actor_closed}
use squirreld.Types.{
  Bytes, IndexDef, FieldDef, IndexValue, ColumnAffinity, SyncStats, no_stats, BlobTrigger,
}
use squirreld.Crypto.{Cipher}
use squirreld.Db.Sql.{RecordRow, Conn, Sql, pure, lift, continue, ◌>>=◌, ◌>>◌}
use squirreld.Db.Records
use squirreld.Db.Index.Rows.{upsert_index_row, upsert_fts_row, is_empty}
use squirreld.Engine.{ActorState, JsonFields}
use squirreld.Engine.Encryption.{maybe_decrypt}
use mathlib.Core.Option

-- What a payload that does not parse counts as.
abbrev pub empty_object : JsonFields
empty_object = record { as_str = λ k. none; as_i64 = λ k. none; as_f64 = λ k. none }

abbrev pub or_empty : Option JsonFields → JsonFields
or_empty none = empty_object
or_empty (some json) = json

abbrev pub by_affinity : ColumnAffinity → String → JsonFields → Option IndexValue
by_affinity ColumnAffinity.text name json = Option.map IndexValue.text (json.as_str name)
by_affinity ColumnAffinity.integer name json = Option.map IndexValue.integer (json.as_i64 name)
by_affinity ColumnAffinity.real name json = Option.map IndexValue.real (json.as_f64 name)

abbrev pub put_field :
    String → Option IndexValue → List (String × IndexValue) → List (String × IndexValue)
put_field name none fields = fields
put_field name (some v) fields = (name, v) ∷ fields

-- `index_fields` after the fields of a definition; the first entry of a name counts, which is the one
-- that was inserted last.
unfoldable pub index_fields :
    JsonFields → List FieldDef → List (String × IndexValue) → List (String × IndexValue)
index_fields json [] acc = acc
index_fields json (f ∷ fs) acc =
    index_fields json fs (put_field f.name (by_affinity f.affinity f.name json) acc)

module _ (c : Cipher) (kek : Option Bytes) (parse : Bytes → Option JsonFields) where
  unfoldable pub index_plain : IndexDef → RecordRow → Sql (Unit {0})
  unfolding index_fields
  index_plain def plain = do
    let fields = index_fields (or_empty (parse plain.payload)) def.fields []
    upsert_index_row def plain.id fields
    if not (is_empty def.fts_fields) then upsert_fts_row def plain.id fields else pure tt

  -- A row that does not decrypt is left out. `total` is a u32; with overflow checks, which a release
  -- build does not have, the last addition would panic.
  unfoldable pub rebuild_row : IndexDef → ℕ → Result RecordRow → Sql ℕ
  rebuild_row def total (err e) = pure total
  rebuild_row def total panic = lift panic
  rebuild_row def total (ok plain) = do index_plain def plain; pure ((total + 1) % 2 ^ 32)

  unfoldable pub rebuild_rows : IndexDef → List RecordRow → ℕ → Sql ℕ
  rebuild_rows def [] total = pure total
  rebuild_rows def (r ∷ rs) total =
      rebuild_row def total (maybe_decrypt c kek r) >>= (λ next. rebuild_rows def rs next)

  -- The definitions of a HashMap come in the order of the list; that of the HashMap is not known.
  unfoldable pub rebuild_all : List (String × IndexDef) → ℕ → Sql ℕ
  rebuild_all [] total = pure total
  rebuild_all ((collection, def) ∷ defs) total = do
    rows ← Records.list collection none 0 false true
    next ← rebuild_rows def rows total
    rebuild_all defs next

unfoldable pub handle_rebuild_indexes :
    Cipher → (Bytes → Option JsonFields) → ActorState → Result ℕ × ActorState
handle_rebuild_indexes c parse s =
    let (r, conn) = rebuild_all c s.kek parse s.indexes 0 s.conn in (r, record s { conn = conn })

-- The loop answers a forced sync after all that waited in front of it; where it is gone, the channel
-- of the answer is closed.
unfoldable pub force_sync_via : Option SyncStats → Option ℕ → Result SyncStats × Option ℕ
force_sync_via reply none = (ok no_stats, none)
force_sync_via (some stats) (some n) = (ok stats, some 0)
force_sync_via none (some n) = (err actor_closed, some n)

unfoldable pub force_flush_blobs_via :
    Option (Unit {0}) → Option (List BlobTrigger) → Result (Unit {0}) × Option (List BlobTrigger)
force_flush_blobs_via reply none = (ok tt, none)
force_flush_blobs_via (some u) (some waiting) = (ok tt, some [])
force_flush_blobs_via none (some waiting) = (err actor_closed, some waiting)

unfoldable pub handle_force_sync : Option SyncStats → ActorState → Result SyncStats × ActorState
handle_force_sync reply s =
    let (r, t) = force_sync_via reply s.sync_trigger in (r, record s { sync_trigger = t })

unfoldable pub handle_force_flush : Option (Unit {0}) → ActorState → Result (Unit {0}) × ActorState
handle_force_flush reply s =
    let (r, t) = force_flush_blobs_via reply s.blob_trigger in (r, record s { blob_trigger = t })
