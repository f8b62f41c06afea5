-- ===== src/Db/Blobs/Laws.antt =====
-- src/db/blobs.rs: the statements on the row of a blob.
use squirreld.Prelude.{
  ℕ, ◌+◌, String, List, [], ◌∷◌, ◌++◌, ◌≡◌, refl, ◌∙◌, arith, Option, none, some, if◌then◌else◌,
  str_eq, eq_iff,
}
use squirreld.Error.{ok, err, db}
use squirreld.Db.Sql.{BlobRow, Db, healthy, exec}
use squirreld.Db.Outbox.{Json, backoff_ms, append_to_error_log, read_log, last_twenty}
use squirreld.Db.Outbox.Backoff.{IsJson, read_log-append}
use squirreld.Db.Blobs.{
  find_blob, is_found, fresh, insert_blob, insert, update_blob, retried, mark_retry, wanted,
  to_download, register_for_download,
}
use mathlib.Core.Option

find_blob-update_blob :
    (f : BlobRow → BlobRow) (i j : String) (bs : List BlobRow)
    → ((b : BlobRow) → (f b).id ≡ b.id)
    → find_blob j (update_blob f i bs)
      ≡ (if str_eq i j then Option.map f (find_blob j bs) else find_blob j bs)
unfolding find_blob update_blob
find_blob-update_blob f i j [] keep = ground arith
find_blob-update_blob f i j (b ∷ bs) keep =
    ground
      (arith, keep b, eq_iff b.id i, eq_iff b.id j, eq_iff i j, find_blob-update_blob f i j bs keep)

pub find_blob-append :
    (j : String) (new : BlobRow) (bs : List BlobRow)
    → find_blob j (bs ++ (new ∷ [])) ≡ (
        if is_found (find_blob j bs)
        then find_blob j bs
        else if str_eq new.id j
        then some new
        else none)
unfolding find_blob
find_blob-append j new [] = refl
find_blob-append j new (b ∷ bs) = ground (arith, find_blob-append j new bs)

abbrev pub registered : String → String → ℕ → Option BlobRow → BlobRow
registered i s3_key now none = to_download i s3_key now
registered i s3_key now (some b) = wanted now b

wanted-id : (now : ℕ) (b : BlobRow) → (wanted now b).id ≡ b.id
wanted-id now b = ground arith

-- Registering a blob for download, with the database in order: an unknown blob gets a row that waits
-- for its download, an uploaded one waits for it from now on, any other and every other blob is as it
-- was.
pub register_for_download_lem :
    (i j s3_key : String) (now : ℕ) (d : Db)
    → find_blob j (register_for_download i s3_key now (healthy d)).1.tables.blobs ≡ (
        if str_eq i j
        then some (registered i s3_key now (find_blob i d.blobs))
        else find_blob j d.blobs)
unfolding register_for_download exec
register_for_download_lem i j s3_key now d = ground (
  arith,
  eq_iff i j,
  wanted-id now,
  find_blob-update_blob (wanted now) i j d.blobs (wanted-id now),
  find_blob-append j (to_download i s3_key now) d.blobs,
)

-- A retry of a blob that is there, with the database in order: one retry more, at the time of the
-- backoff, with the error behind the log, and no other blob is touched.
pub blob_mark_retry_lem :
    (j : Json)
    → IsJson j
    → (now log_now update_now : ℕ) (i k error : String) (d : Db) (b : BlobRow)
    → find_blob i d.blobs ≡ some b
    → (b' : BlobRow) × (find_blob k
          (mark_retry j now log_now update_now i error (healthy d)).1.tables.blobs
        ≡ (if str_eq i k then some b' else find_blob k d.blobs))
      × (b'.retries ≡ b.retries + 1)
      × (b'.next_retry_at ≡ now + backoff_ms b.retries)
      × (b'.status ≡ b.status)
      × (read_log j b'.error_log
          ≡ last_twenty j (read_log j b.error_log ++ (j.log_entry log_now error ∷ [])))
unfolding mark_retry exec
blob_mark_retry_lem j law now log_now update_now i k error d b found = (
  retried b.retries error (now + backoff_ms b.retries) update_now
      (append_to_error_log j log_now b.error_log error) b,
  rw (found) (
      find_blob-update_blob
        (retried b.retries error (now + backoff_ms b.retries) update_now
          (append_to_error_log j log_now b.error_log error))
        i k d.blobs (λ x. refl)
      ∙ ground (arith, eq_iff i k)),
  refl,
  refl,
  refl,
  read_log-append j law log_now b.error_log error,
)

-- An insert, with the database in order: an id that is taken is an error and changes nothing, a new id
-- gets the row without retries, and other blobs are as they were.
pub insert_blob_lem :
    (row : BlobRow) (j : String) (d : Db)
    → ((insert row (healthy d)).0 ≡ (if is_found (find_blob row.id d.blobs) then err db else ok tt))
      × (find_blob j (insert row (healthy d)).1.tables.blobs ≡ (
          if is_found (find_blob row.id d.blobs)
          then find_blob j d.blobs
          else if str_eq row.id j
          then some (fresh row)
          else find_blob j d.blobs))
unfolding insert insert_blob exec
insert_blob_lem row j d =
    (ground arith, ground (arith, eq_iff row.id j, find_blob-append j (fresh row) d.blobs))
