-- ===== src/Db/Blobs.antt =====
-- src/db/blobs.rs: the statements on the tables of blobs and of their parts. The clock readings are
-- arguments.
pub mod Laws
pub mod Parts
use squirreld.Prelude.{
  ℕ, ◌+◌, ◌%◌, ◌^◌, String, List, [], ◌∷◌, ◌++◌, Bool, true, false, not, ◌&&◌, Option, none, some,
  if◌then◌else◌, str_eq, ltb, leb, ◌==◌, keep_if, map,
}
use squirreld.Error.{Result, ok, err, db}
use squirreld.Types.{BlobStatus, as_str}
use squirreld.Db.Sql.{BlobRow, BlobPartRow, Db, Sql, pure, exec, write, query, continue, ◌>>=◌}
use squirreld.Db.Outbox.{Json, backoff_ms, append_to_error_log}

unfoldable pub find_blob : String → List BlobRow → Option BlobRow
find_blob i [] = none
find_blob i (b ∷ bs) = if str_eq b.id i then some b else find_blob i bs

abbrev pub is_found {ℓ} : {A : Type ℓ} → Option A → Bool
is_found none = false
is_found (some a) = true

-- A row as `INSERT` makes it: no retries, no errors.
abbrev pub fresh : BlobRow → BlobRow
fresh row = record row { retries = 0; next_retry_at = 0; last_error = none; error_log = none }

-- The primary key is checked.
unfoldable pub insert_blob : BlobRow → Db → Result (Unit {0}) × Db
insert_blob row d =
    if is_found (find_blob row.id d.blobs)
    then (err db, d)
    else (ok tt, record d { blobs = d.blobs ++ (fresh row ∷ []) })

unfoldable pub insert : BlobRow → Sql (Unit {0})
insert row = exec (insert_blob row)

unfoldable pub exists : String → Sql Bool
exists i = query (λ d. is_found (find_blob i d.blobs))

-- The casts of the i64 columns.
abbrev pub from_row : BlobRow → BlobRow
from_row b = record b { format_version = b.format_version % 2 ^ 8; retries = b.retries % 2 ^ 32 }

abbrev pub read_row : Option BlobRow → Option BlobRow
read_row none = none
read_row (some b) = some (from_row b)

unfoldable pub get : String → Sql (Option BlobRow)
get i = query (λ d. read_row (find_blob i d.blobs))

unfoldable pub one_of : List String → String → Bool
one_of [] s = false
one_of (t ∷ ts) s = if str_eq t s then true else one_of ts s

unfoldable pub is_ready : List String → ℕ → BlobRow → Bool
is_ready statuses now b = one_of statuses b.status && leb b.next_retry_at now

-- `ORDER BY created_at ASC`; rows of one time stay in row order.
unfoldable pub insert_by_created : BlobRow → List BlobRow → List BlobRow
insert_by_created b [] = b ∷ []
insert_by_created b (c ∷ cs) =
    if ltb c.created_at b.created_at then c ∷ insert_by_created b cs else b ∷ c ∷ cs

unfoldable pub order_by_created : List BlobRow → List BlobRow
order_by_created [] = []
order_by_created (b ∷ bs) = insert_by_created b (order_by_created bs)

-- No statement at all for no status.
unfoldable pub list_ready : ℕ → List String → Sql (List BlobRow)
list_ready now [] = pure []
list_ready now (s ∷ ss) =
    query (λ d. map from_row (order_by_created (keep_if (is_ready (s ∷ ss) now) d.blobs)))

-- `UPDATE blobs SET .. WHERE id = ?`
unfoldable pub update_blob : (BlobRow → BlobRow) → String → List BlobRow → List BlobRow
update_blob f i [] = []
update_blob f i (b ∷ bs) = (if str_eq b.id i then f b else b) ∷ update_blob f i bs

abbrev pub on_blob : (BlobRow → BlobRow) → String → Sql (Unit {0})
on_blob f i = write (λ d. record d { blobs = update_blob f i d.blobs })

unfoldable pub set_status : ℕ → String → BlobStatus → Sql (Unit {0})
set_status now i status = on_blob (λ b. record b { status = as_str status; updated_at = now }) i

unfoldable pub set_local_path_and_size : ℕ → String → String → ℕ → Sql (Unit {0})
set_local_path_and_size now i local_path size_bytes =
    on_blob
      (λ b. record b {
        local_path = some local_path;
        size_bytes = some size_bytes;
        updated_at = now;
      })
      i

unfoldable pub set_upload_id : ℕ → String → String → Sql (Unit {0})
set_upload_id now i upload_id =
    on_blob (λ b. record b { upload_id = some upload_id; status = "uploading"; updated_at = now }) i

unfoldable pub clear_upload_id : ℕ → String → Sql (Unit {0})
clear_upload_id now i =
    on_blob
      (λ b. record b {
        upload_id = none;
        status = "pending";
        retries = 0;
        next_retry_at = 0;
        updated_at = now;
      })
      i

abbrev pub retried : ℕ → String → ℕ → ℕ → String → BlobRow → BlobRow
retried retries error next now new_log b = record b {
  retries = retries + 1;
  next_retry_at = next;
  last_error = some error;
  error_log = some new_log;
  updated_at = now;
}

-- `.optional()?.unwrap_or((0, None))`
abbrev pub retries_of : Option BlobRow → ℕ
retries_of none = 0
retries_of (some b) = b.retries

abbrev pub log_of : Option BlobRow → Option String
log_of none = none
log_of (some b) = b.error_log

-- It reads the clock for the time of the retry, for the log and for `updated_at`.
unfoldable pub mark_retry : Json → ℕ → ℕ → ℕ → String → String → Sql (Unit {0})
mark_retry j now log_now update_now i error = do
  row ← query (λ d. find_blob i d.blobs)
  on_blob
      (retried (retries_of row) error (now + backoff_ms (retries_of row)) update_now
        (append_to_error_log j log_now (log_of row) error))
      i

abbrev pub to_download : String → String → ℕ → BlobRow
to_download i s3_key now = record {
  id = i;
  record_id = none;
  collection = none;
  local_path = none;
  s3_key = s3_key;
  size_bytes = none;
  upload_id = none;
  status = "download_pending";
  format_version = 0;
  retries = 0;
  next_retry_at = 0;
  last_error = none;
  error_log = none;
  created_at = now;
  updated_at = now;
}

-- `DO UPDATE SET .. WHERE status = 'uploaded'`
abbrev pub wanted : ℕ → BlobRow → BlobRow
wanted now b =
    if str_eq b.status "uploaded"
    then record b { status = "download_pending"; updated_at = now }
    else b

unfoldable pub register_for_download : String → String → ℕ → Sql (Unit {0})
register_for_download i s3_key now = write (λ d. record d {
  blobs =
      if is_found (find_blob i d.blobs)
      then update_blob (wanted now) i d.blobs
      else d.blobs ++ (to_download i s3_key now ∷ []);
})

-- The parts, by the key (blob_id, part_number).
unfoldable pub is_part : String → ℕ → BlobPartRow → Bool
is_part i n p = str_eq p.blob_id i && p.part_number == n

unfoldable pub put_part : String → ℕ → String → List BlobPartRow → List BlobPartRow
put_part i n etag [] =
    record { blob_id = i; part_number = n; etag = some etag; uploaded = true } ∷ []
put_part i n etag (p ∷ ps) =
    if is_part i n p
    then record p { etag = some etag; uploaded = true } ∷ ps
    else p ∷ put_part i n etag ps

-- The foreign key of a part is checked: the SQLite that rusqlite bundles does so on any connection.
unfoldable pub upsert_part : String → ℕ → String → Sql (Unit {0})
upsert_part i n etag = exec (λ d.
    if is_found (find_blob i d.blobs)
    then (ok tt, record d { blob_parts = put_part i n etag d.blob_parts })
    else (err db, d))

unfoldable pub insert_by_number : BlobPartRow → List BlobPartRow → List BlobPartRow
insert_by_number p [] = p ∷ []
insert_by_number p (q ∷ qs) =
    if ltb q.part_number p.part_number then q ∷ insert_by_number p qs else p ∷ q ∷ qs

unfoldable pub order_by_number : List BlobPartRow → List BlobPartRow
order_by_number [] = []
order_by_number (p ∷ ps) = insert_by_number p (order_by_number ps)

abbrev pub part_of : String → BlobPartRow → Bool
part_of i p = str_eq p.blob_id i

unfoldable pub list_parts : String → Sql (List BlobPartRow)
list_parts i = query (λ d. order_by_number (keep_if (part_of i) d.blob_parts))

unfoldable pub clear_parts : String → Sql (Unit {0})
clear_parts i = write (λ d. record d { blob_parts = keep_if (λ p. not (part_of i p)) d.blob_parts })
