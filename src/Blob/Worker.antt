-- ===== src/Blob/Worker.antt =====
-- src/blob/worker.rs: the uploads, the downloads and the loop of the blob worker.
use squirreld.Prelude.{
  ℕ, zero, suc, ◌+◌, ◌-◌, ◌*◌, ◌/◌, ◌%◌, ◌^◌, min, String, List, [], ◌∷◌, ◌++◌, Bool, true, false,
  ◌&&◌, Option, none, some, if◌then◌else◌, ltb,
}
use squirreld.Error.{Result, ok, err, panic}
use squirreld.Types.{uploaded, cached, blob_uploaded, blob_downloaded, blob_retry_scheduled}
use squirreld.Db.Sql.{BlobRow, Sql}
use squirreld.Db.Outbox.{Json}
use squirreld.Db.Blobs
use squirreld.Engine.Open.{initialize}
use squirreld.Backend.Blobs.{BlobBackend, UploadedPart, has_part, is_there}
use squirreld.Blob.{
  Files, done, died, Work, ◌>>=◌, ◌>>◌, pure, fail, match_result, on_files, on_remote, on_both,
  on_db, ignore, send, read_clock,
}

-- `MULTIPART_THRESHOLD`, which `CHUNK_SIZE` is too.
pub multipart_threshold : ℕ
multipart_threshold = 5 * 1024 * 1024

-- `PERIODIC_SECS` only paces the loop. The length of a chunk is a field here, so that what holds for
-- `multipart_threshold` is shown for every length; `now` is the clock.
pub record BlobWorker (S F : Type 0) : Type 0 where
  pub files : Files F
  pub cache_dir : String
  pub backend : BlobBackend S F
  pub chunk_size : ℕ
  pub now : ℕ → ℕ

abbrev is_none {ℓ} : {A : Type ℓ} → Option A → Bool
is_none none = true
is_none (some a) = false

abbrev pub no_parts : List UploadedPart → Bool
no_parts [] = true
no_parts (p ∷ ps) = false

-- `sort_by_key(|p| p.part_number)`, which is stable.
unfoldable pub insert_part : UploadedPart → List UploadedPart → List UploadedPart
insert_part p [] = p ∷ []
insert_part p (q ∷ qs) =
    if ltb q.part_number p.part_number then q ∷ insert_part p qs else p ∷ q ∷ qs

unfoldable pub sort_parts : List UploadedPart → List UploadedPart
sort_parts [] = []
sort_parts (p ∷ ps) = insert_part p (sort_parts ps)

-- `((size_bytes + CHUNK_SIZE - 1) / CHUNK_SIZE) as i32`; the range `1..=n` of a negative n is empty.
unfoldable pub total_parts : ℕ → ℕ → ℕ
total_parts chunk_size size_bytes =
    let n = ((size_bytes + chunk_size - 1) / chunk_size) % 2 ^ 32 in if ltb n (2 ^ 31) then n else 0

module _ {S F : Type 0} (self : BlobWorker S F) (j : Json) where
  abbrev pub at_now : {A : Type 0} → (ℕ → Sql A) → Work S F (Unit {0})
  at_now m = do now ← read_clock self.now; ignore (m now)

  -- `open_conn`: it panics where the file cannot be opened or the schema not be set up.
  unfoldable pub opened : Result (Unit {0}) → Work S F (Unit {0})
  opened (ok u) w = (done tt, w)
  opened (err e) w = (died, w)
  opened panic w = (died, w)

  unfoldable pub open_conn : Work S F (Unit {0})
  open_conn = do r ← on_db initialize; opened r

  unfoldable pub retry_event : String → String → Result (Option BlobRow) → Work S F (Unit {0})
  retry_event blob_id error (ok (some b)) = do
    now ← read_clock self.now
    send (blob_retry_scheduled blob_id b.retries now error)
  retry_event blob_id error _ = pure tt

  abbrev pub mark_retry : String → String → Work S F (Unit {0})
  mark_retry blob_id error = do
    now ← read_clock self.now
    log_now ← read_clock self.now
    update_now ← read_clock self.now
    ignore (Blobs.mark_retry j now log_now update_now blob_id error)

  unfoldable pub record_blob_error : String → String → Work S F (Unit {0})
  record_blob_error blob_id error = do
    open_conn
    mark_retry blob_id error
    b ← on_db (Blobs.get blob_id)
    retry_event blob_id error b

  unfoldable pub upload_single : BlobRow → String → Work S F (Unit {0})
  upload_single blob path = do
    bytes ← on_files (self.files.read path)
    on_remote (self.backend.put_object blob.s3_key bytes)

  -- The session of the row, or a new one that the row is told of.
  unfoldable pub session : BlobRow → Option String → Work S F String
  session blob (some upload_id) = pure upload_id
  session blob none = do
    upload_id ← on_remote (self.backend.create_multipart_upload blob.s3_key)
    open_conn
    at_now (λ now. Blobs.set_upload_id now blob.id upload_id)
    pure upload_id

  unfoldable pub store_parts : String → List UploadedPart → Work S F (Unit {0})
  store_parts blob_id [] = pure tt
  store_parts blob_id (p ∷ ps) = do
    ignore (Blobs.upsert_part blob_id p.part_number p.etag)
    store_parts blob_id ps

  unfoldable pub send_part : BlobRow → String → String → ℕ → ℕ → Work S F UploadedPart
  send_part blob path upload_id size_bytes part_number = do
    let offset = (part_number - 1) * self.chunk_size
    chunk ← on_files (self.files.read_exact path offset (min (size_bytes - offset) self.chunk_size))
    etag ← on_remote (self.backend.upload_part blob.s3_key upload_id part_number chunk)
    open_conn
    ignore (Blobs.upsert_part blob.id part_number etag)
    pure (record { part_number = part_number; etag = etag })

  -- The parts `part_number ..= part_number + count - 1`, but those that the remote has.
  unfoldable pub send_parts :
      BlobRow
      → String
      → String
      → ℕ
      → List UploadedPart
      → ℕ
      → ℕ
      → List UploadedPart
      → Work S F (List UploadedPart)
  send_parts blob path upload_id size_bytes remote_parts zero part_number all_parts = pure all_parts
  send_parts blob path upload_id size_bytes remote_parts (suc count) part_number all_parts =
      let rest = send_parts blob path upload_id size_bytes remote_parts count (suc part_number) in
      if has_part part_number remote_parts then rest all_parts else (do
        p ← send_part blob path upload_id size_bytes part_number
        rest (all_parts ++ (p ∷ [])))

  unfoldable pub resume_upload :
      BlobRow → String → ℕ → String → List UploadedPart → Work S F (Unit {0})
  resume_upload blob path size_bytes upload_id remote_parts = do
    open_conn
    store_parts blob.id remote_parts
    on_files (self.files.open_file path)
    all_parts ←
        send_parts blob path upload_id size_bytes remote_parts
          (total_parts self.chunk_size size_bytes) 1 remote_parts
    on_remote (self.backend.complete_multipart_upload blob.s3_key upload_id (sort_parts all_parts))

  -- A session without parts counts as expired, unless it is new.
  unfoldable pub expire_session : BlobRow → Work S F (Unit {0})
  expire_session blob = do
    open_conn
    at_now (λ now. Blobs.clear_upload_id now blob.id)
    ignore (Blobs.clear_parts blob.id)
    fail "multipart upload expired; will restart on next cycle"

  unfoldable pub upload_multipart : BlobRow → String → ℕ → Work S F (Unit {0})
  upload_multipart blob path size_bytes = do
    upload_id ← session blob blob.upload_id
    remote_parts ← on_remote (self.backend.list_parts blob.s3_key upload_id)
    (if no_parts remote_parts && is_there blob.upload_id
        then expire_session blob
        else resume_upload blob path size_bytes upload_id remote_parts)

  unfoldable pub upload_sized : BlobRow → String → ℕ → Work S F (Unit {0})
  upload_sized blob path size_bytes =
      match_result
        (if ltb size_bytes self.chunk_size
          then upload_single blob path
          else upload_multipart blob path size_bytes)
        (λ _. do
          open_conn
          at_now (λ now. Blobs.set_status now blob.id uploaded)
          send (blob_uploaded blob.id))
        (record_blob_error blob.id)

  unfoldable pub upload_at : BlobRow → String → Option ℕ → Work S F (Unit {0})
  upload_at blob path (some size_bytes) = upload_sized blob path size_bytes
  upload_at blob path none =
      match_result (on_files (self.files.len path)) (upload_sized blob path)
        (record_blob_error blob.id)

  -- A blob that is not staged yet is left alone.
  unfoldable pub upload_from : BlobRow → Option String → Work S F (Unit {0})
  upload_from blob none = pure tt
  upload_from blob (some path) = upload_at blob path blob.size_bytes

  abbrev pub upload_blob : BlobRow → Work S F (Unit {0})
  upload_blob blob = upload_from blob blob.local_path

  unfoldable pub upload_all : List BlobRow → Work S F (Unit {0})
  upload_all [] = pure tt
  upload_all (blob ∷ blobs) = do upload_blob blob; upload_all blobs

  unfoldable pub upload_ready : Result (List BlobRow) → Work S F (Unit {0})
  upload_ready (ok blobs) = upload_all blobs
  upload_ready _ = pure tt

  unfoldable pub run_upload_cycle : Work S F (Unit {0})
  run_upload_cycle = do
    open_conn
    now ← read_clock self.now
    blobs ← on_db (Blobs.list_ready now ("pending" ∷ "uploading" ∷ []))
    upload_ready blobs

  -- The copy into the cache, and the upload of what is ready.
  unfoldable pub handle_stage : String → String → Work S F (Unit {0})
  handle_stage blob_id src =
      let dest = self.files.join self.cache_dir blob_id in
      match_result (on_files (self.files.copy src dest))
        (λ size. do
          open_conn
          at_now (λ now. Blobs.set_local_path_and_size now blob_id dest size)
          run_upload_cycle)
        (λ e. do open_conn; mark_retry blob_id e)

  unfoldable pub download_row : String → BlobRow → Work S F (Unit {0})
  download_row blob_id blob =
      let dest = self.files.join self.cache_dir blob_id in
      match_result (on_both (self.backend.get_object blob.s3_key dest))
        (λ size. do
          open_conn
          at_now (λ now. Blobs.set_local_path_and_size now blob_id dest size)
          at_now (λ now. Blobs.set_status now blob_id cached)
          send (blob_downloaded blob_id))
        (record_blob_error blob_id)

  unfoldable pub download_found : String → Result (Option BlobRow) → Work S F (Unit {0})
  download_found blob_id (ok (some blob)) = download_row blob_id blob
  download_found blob_id _ = pure tt

  unfoldable pub handle_download : String → Work S F (Unit {0})
  handle_download blob_id = do
    open_conn
    blob ← on_db (Blobs.get blob_id)
    download_found blob_id blob

  unfoldable pub download_all : List BlobRow → Work S F (Unit {0})
  download_all [] = pure tt
  download_all (blob ∷ blobs) = do handle_download blob.id; download_all blobs

  unfoldable pub download_ready : Result (List BlobRow) → Work S F (Unit {0})
  download_ready (ok blobs) = download_all blobs
  download_ready _ = pure tt

  unfoldable pub run_download_cycle : Work S F (Unit {0})
  run_download_cycle = do
    open_conn
    now ← read_clock self.now
    blobs ← on_db (Blobs.list_ready now ("download_pending" ∷ []))
    download_ready blobs
