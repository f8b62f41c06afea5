-- ===== src/Sync/Newer.antt =====
-- src/sync/mod.rs, `apply_remote_record`, as a write to a register that the newest clock wins.
pub mod Converges
use squirreld.Prelude.{
  ℕ, suc, String, List, [], ◌∷◌, Text, ◌≡◌, ◌≢◌, refl, ap, ◌∙◌, sym, arith, Bool, true, false, not,
  ◌&&◌, Option, none, some, if◌then◌else◌, Bool-cases, inl, inr, str_eq, eq_iff, text_lt, All,
  keep_if,
}
use squirreld.Error.{Result, ok, err, panic}
use squirreld.Types.{Bytes, SyncStats}
use squirreld.Db.Sql.{RecordRow, Db, Conn, healthy, exec, query, pure, write, continue, ◌>>=◌, ◌>>◌}
use squirreld.Db.Records
use squirreld.Db.Records.{find_id, upsert_row, select_row, in_collection}
use squirreld.Db.Records.Laws.{stored_over, find_id-upsert_row}
use squirreld.Backend.{RemoteRecord}
use squirreld.Backend.InMemory.{same_key}
use squirreld.Sync.{remove_outbox_for_record}
use squirreld.Sync.Pull.{
  is_current, bytes_or_empty, row_of_remote, apply_over, apply_remote_record, PullState, pull_step,
  pull_loop,
}

-- What the other devices see of a row.
abbrev pub version : RecordRow → RemoteRecord
version r = record {
  record_id = r.id;
  collection = r.collection;
  hlc = r.hlc;
  payload = some r.payload;
  dek_encrypted = r.dek_encrypted;
  deleted = r.deleted;
  schema_version = r.schema_version;
  format_version = r.format_version;
}

abbrev pub version_of : Option RecordRow → Option RemoteRecord
version_of none = none
version_of (some r) = some (version r)

abbrev pub version_at : String → String → Db → Option RemoteRecord
version_at collection i d = version_of (select_row collection i d)

-- A deletion comes without a payload and is stored with an empty one.
abbrev pub with_bytes : RemoteRecord → RemoteRecord
with_bytes r = record r { payload = some (bytes_or_empty r.payload) }

-- The register: the write with the newest clock wins, and of two equal ones the first.
abbrev pub newest : Option RemoteRecord → RemoteRecord → RemoteRecord
newest none r = r
newest (some x) r = if text_lt x.hlc r.hlc then r else x

abbrev pub applied : ℕ → RemoteRecord → Db → Db
applied now r d = (apply_remote_record now r (healthy d)).1.tables

apply_ok : (now : ℕ) (r : RemoteRecord) (d : Db) → (apply_remote_record now r (healthy d)).0 ≡ ok tt
unfolding apply_remote_record apply_over Records.get exec Records.upsert_remote
    remove_outbox_for_record
apply_ok now r d = elim (Bool-cases (is_current (select_row r.collection r.record_id d) r)) [
  | inl h ↦ rw h refl
  | inr h ↦ rw h refl
]

applied_current :
    (now : ℕ) (r : RemoteRecord) (d : Db)
    → is_current (select_row r.collection r.record_id d) r ≡ true
    → applied now r d ≡ d
unfolding apply_remote_record apply_over Records.get exec
applied_current now r d h = rw (applied, h) refl

pub applied_newer :
    (now : ℕ) (r : RemoteRecord) (d : Db)
    → is_current (select_row r.collection r.record_id d) r ≡ false
    → (applied now r d).records
      ≡ upsert_row (row_of_remote now r (select_row r.collection r.record_id d)) d.records
unfolding apply_remote_record apply_over Records.get exec Records.upsert_remote
    remove_outbox_for_record
applied_newer now r d h = rw (applied, h) refl

version-stored_over :
    (now : ℕ) (r : RemoteRecord) (row o : Option RecordRow)
    → version (stored_over (row_of_remote now r row) o) ≡ with_bytes r
version-stored_over now r row none = refl
version-stored_over now r row (some old) = refl

newest_kept :
    (o : Option RecordRow) (r : RemoteRecord)
    → is_current o r ≡ true
    → version_of o ≡ some (newest (version_of o) (with_bytes r))
unfolding is_current
newest_kept none r h = cc
newest_kept (some x) r h = ground (arith, h)

newest_taken :
    (o : Option RecordRow) (r : RemoteRecord)
    → is_current o r ≡ false
    → with_bytes r ≡ newest (version_of o) (with_bytes r)
unfolding is_current
newest_taken none r h = refl
newest_taken (some x) r h = ground (arith, h)

pub select_upserted :
    (row : RecordRow) (rs : List RecordRow)
    → in_collection row.collection (find_id row.id (upsert_row row rs))
      ≡ some (stored_over row (find_id row.id rs))
unfolding in_collection
select_upserted row rs = rw (find_id-upsert_row row.id row rs) (go (find_id row.id rs))
  where
    go :
        (o : Option RecordRow)
        → in_collection row.collection
            (if str_eq row.id row.id then some (stored_over row o) else o)
          ≡ some (stored_over row o)
    go none = ground (arith, eq_iff row.id row.id, eq_iff row.collection row.collection)
    go (some old) = ground (arith, eq_iff row.id row.id, eq_iff row.collection row.collection)

pub applied-newest :
    (now : ℕ) (r : RemoteRecord) (d : Db)
    → version_at r.collection r.record_id (applied now r d)
      ≡ some (newest (version_at r.collection r.record_id d) (with_bytes r))
unfolding select_row
applied-newest now r d = elim (Bool-cases (is_current (select_row r.collection r.record_id d) r)) [
  | inl h ↦ rw (applied_current now r d h) (newest_kept (select_row r.collection r.record_id d) r h)
  | inr h ↦
      let row = select_row r.collection r.record_id d in
      rw (applied_newer now r d h) (
        ap version_of (select_upserted (row_of_remote now r row) d.records)
        ∙ ap some
            (version-stored_over now r row (find_id r.record_id d.records) ∙ newest_taken row r h))
]

-- Another id is left alone.
pub applied_other :
    (now : ℕ) (r : RemoteRecord) (d : Db) (collection j : String)
    → r.record_id ≢ j
    → version_at collection j (applied now r d) ≡ version_at collection j d
unfolding select_row
applied_other now r d collection j ne =
    elim (Bool-cases (is_current (select_row r.collection r.record_id d) r)) [
      | inl h ↦ ap (version_at collection j) (applied_current now r d h)
      | inr h ↦
          let row = select_row r.collection r.record_id d in
          ap (λ rs. version_of (in_collection collection (find_id j rs))) (applied_newer now r d h)
          ∙ ap (λ o. version_of (in_collection collection o))
              (find_id-upsert_row j (row_of_remote now r row) d.records
                ∙ ground (arith, eq_iff r.record_id j))
    ]
