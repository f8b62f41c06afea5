-- ===== src/Blob/Lives.antt =====
-- src/blob/worker.rs: where no statement is to fail, the worker does not panic, and its cycles return.
pub mod Rules
use squirreld.Prelude.{
  ℕ, zero, suc, String, List, [], ◌∷◌, ◌++◌, ◌≡◌, refl, ap, inl, inr, arith, Bool, true, false,
  ◌&&◌, Bool-cases, Option, none, some, if◌then◌else◌, ltb,
}
use squirreld.Error.{Result, ok, err, panic}
use squirreld.Types.{SyncEvent}
use squirreld.Db.Sql.{BlobRow, Conn, Sql, continue, ◌>>=◌ as ◌>>=sql◌}
use squirreld.Db.Outbox.{Json}
use squirreld.Db.Blobs
use squirreld.Backend.{BackendError}
use squirreld.Backend.Blobs.{Answer, accepted, refused, UploadedPart, has_part, is_there}
use squirreld.Blob.{
  World, Ending, done, failed, died, Work, then_do, ◌>>=◌, pure, fail, matched, match_result,
  on_files, on_remote, on_both, on_db, ignore, send, read_clock, io_result, remote_result,
}
use squirreld.Blob.Worker.{
  BlobWorker, at_now, open_conn, opened, retry_event, mark_retry, record_blob_error, upload_single,
  session, store_parts, send_part, send_parts, total_parts, resume_upload, expire_session,
  upload_multipart, upload_sized, upload_at, upload_from, upload_all, upload_ready,
  run_upload_cycle, handle_stage, download_row, download_found, handle_download, download_all,
  download_ready, run_download_cycle, no_parts,
}
use squirreld.Blob.Progress.Rules.{Calm, Calm-exec, initialize_calm}
use squirreld.Blob.Lives.Rules.{
  Calm-bind, Calm-mark_retry, Calm-list_ready, is_alive, io_alive, remote_alive, Alive, Lives,
  Lives-Alive, Lives-bind, Alive-bind, Lives-match, Lives-pure, Alive-fail, Lives-db, Lives-ignore,
  Lives-read_clock, Lives-send, Alive-files, Alive-remote, Alive-both,
}

module _ {S F : Type 0} (self : BlobWorker S F) (j : Json) where
  open_conn-Lives : Lives (open_conn self j)
  unfolding open_conn opened on_db
  open_conn-Lives = record { at = λ w h. let e = initialize_calm w.conn h in rw e (tt, refl, refl) }

  at_now-Lives : {A : Type 0} (m : ℕ → Sql A) → ((now : ℕ) → Calm (m now)) → Lives (at_now self j m)
  at_now-Lives m calm =
      Lives-bind _ _ (Lives-read_clock self.now) (λ now. Lives-ignore (m now) (calm now))

  mark_retry-Lives : (i error : String) → Lives (mark_retry self j i error)
  mark_retry-Lives i error = Lives-bind _ _ (Lives-read_clock self.now) (λ now.
      Lives-bind _ _ (Lives-read_clock self.now) (λ log_now.
        Lives-bind _ _ (Lives-read_clock self.now)
          (λ update_now. Lives-ignore _ (Calm-mark_retry j now log_now update_now i error))))

  retry_event-Lives :
      (i error : String) (r : Result (Option BlobRow)) → Lives (retry_event self j i error r)
  unfolding retry_event
  retry_event-Lives i error (ok (some b)) =
      Lives-bind _ _ (Lives-read_clock self.now) (λ now. Lives-send _)
  retry_event-Lives i error (ok none) = Lives-pure tt
  retry_event-Lives i error (err e) = Lives-pure tt
  retry_event-Lives i error panic = Lives-pure tt

  record_blob_error-Lives : (i error : String) → Lives (record_blob_error self j i error)
  unfolding record_blob_error Blobs.get
  record_blob_error-Lives i error = Lives-bind _ _ open_conn-Lives (λ _.
      Lives-bind _ _ (mark_retry-Lives i error)
        (λ _. Lives-bind _ _ (Lives-db _ (Calm-exec _)) (retry_event-Lives i error)))

  session-Alive : (blob : BlobRow) (o : Option String) → Alive (session self j blob o)
  unfolding session Blobs.set_upload_id
  session-Alive blob (some u) = Lives-Alive (Lives-pure u)
  session-Alive blob none = Alive-bind _ _ (Alive-remote _) (λ u. Lives-Alive (
      Lives-bind _ _ open_conn-Lives
        (λ _. Lives-bind _ _ (at_now-Lives _ (λ now. Calm-exec _)) (λ _. Lives-pure u))))

  store_parts-Lives : (i : String) (ps : List UploadedPart) → Lives (store_parts self j i ps)
  unfolding store_parts Blobs.upsert_part
  store_parts-Lives i [] = Lives-pure tt
  store_parts-Lives i (p ∷ ps) =
      Lives-bind _ _ (Lives-ignore _ (Calm-exec _)) (λ _. store_parts-Lives i ps)

  send_part-Alive :
      (blob : BlobRow) (path u : String) (size_bytes n : ℕ)
      → Alive (send_part self j blob path u size_bytes n)
  unfolding send_part Blobs.upsert_part
  send_part-Alive blob path u size_bytes n = Alive-bind _ _ (Alive-files _) (λ d.
      Alive-bind _ _ (Alive-remote _) (λ etag. Lives-Alive (
        Lives-bind _ _ open_conn-Lives
          (λ _. Lives-bind _ _ (Lives-ignore _ (Calm-exec _)) (λ _. Lives-pure _)))))

  send_parts-Alive :
      (blob : BlobRow) (path u : String) (size_bytes : ℕ) (ps : List UploadedPart) (count n : ℕ)
      (all : List UploadedPart)
      → Alive (send_parts self j blob path u size_bytes ps count n all)
  unfolding send_parts
  send_parts-Alive blob path u size_bytes ps zero n all = Lives-Alive (Lives-pure all)
  send_parts-Alive blob path u size_bytes ps (suc count) n all = elim (Bool-cases (has_part n ps)) [
    | inl old ↦ rw old (send_parts-Alive blob path u size_bytes ps count (suc n) all)
    | inr new ↦ rw new (
        Alive-bind _ _ (send_part-Alive blob path u size_bytes n)
          (λ p. send_parts-Alive blob path u size_bytes ps count (suc n) (all ++ (p ∷ []))))
  ]

  resume_upload-Alive :
      (blob : BlobRow) (path : String) (size_bytes : ℕ) (u : String) (ps : List UploadedPart)
      → Alive (resume_upload self j blob path size_bytes u ps)
  unfolding resume_upload
  resume_upload-Alive blob path size_bytes u ps = Alive-bind _ _ (Lives-Alive open_conn-Lives) (λ _.
      Alive-bind _ _ (Lives-Alive (store_parts-Lives blob.id ps)) (λ _.
        Alive-bind _ _ (Alive-files _) (λ _.
          Alive-bind _ _
            (send_parts-Alive blob path u size_bytes ps (total_parts self.chunk_size size_bytes) 1
              ps)
            (λ all. Alive-remote _))))

  expire_session-Alive : (blob : BlobRow) → Alive (expire_session self j blob)
  unfolding expire_session Blobs.clear_upload_id Blobs.clear_parts
  expire_session-Alive blob = Alive-bind _ _ (Lives-Alive open_conn-Lives) (λ _.
      Alive-bind _ _ (Lives-Alive (at_now-Lives _ (λ now. Calm-exec _)))
        (λ _. Alive-bind _ _ (Lives-Alive (Lives-ignore _ (Calm-exec _))) (λ _. Alive-fail _)))

  transfer-Alive :
      (blob : BlobRow) (path : String) (size_bytes : ℕ) (b : Bool)
      → Alive (
          if b
          then upload_single self j blob path
          else upload_multipart self j blob path size_bytes)
  unfolding upload_single upload_multipart
  transfer-Alive blob path size_bytes true = Alive-bind _ _ (Alive-files _) (λ d. Alive-remote _)
  transfer-Alive blob path size_bytes false =
      Alive-bind _ _ (session-Alive blob blob.upload_id) (λ u.
        Alive-bind _ _ (Alive-remote _) (λ ps. go (no_parts ps && is_there blob.upload_id) u ps))
    where
      go :
          (b : Bool) (u : String) (ps : List UploadedPart)
          → Alive (
              if b
              then expire_session self j blob
              else resume_upload self j blob path size_bytes u ps)
      go true u ps = expire_session-Alive blob
      go false u ps = resume_upload-Alive blob path size_bytes u ps

  upload_sized-Lives :
      (blob : BlobRow) (path : String) (n : ℕ) → Lives (upload_sized self j blob path n)
  unfolding upload_sized Blobs.set_status
  upload_sized-Lives blob path n =
      Lives-match _ _ _ (transfer-Alive blob path n (ltb n self.chunk_size))
        (λ _.
          Lives-bind _ _ open_conn-Lives
            (λ _. Lives-bind _ _ (at_now-Lives _ (λ now. Calm-exec _)) (λ _. Lives-send _)))
        (record_blob_error-Lives blob.id)

  upload_at-Lives :
      (blob : BlobRow) (path : String) (o : Option ℕ) → Lives (upload_at self j blob path o)
  unfolding upload_at
  upload_at-Lives blob path (some n) = upload_sized-Lives blob path n
  upload_at-Lives blob path none =
      Lives-match _ _ _ (Alive-files _) (upload_sized-Lives blob path)
        (record_blob_error-Lives blob.id)

  upload_from-Lives : (blob : BlobRow) (o : Option String) → Lives (upload_from self j blob o)
  unfolding upload_from
  upload_from-Lives blob none = Lives-pure tt
  upload_from-Lives blob (some path) = upload_at-Lives blob path blob.size_bytes

  upload_all-Lives : (blobs : List BlobRow) → Lives (upload_all self j blobs)
  unfolding upload_all
  upload_all-Lives [] = Lives-pure tt
  upload_all-Lives (b ∷ bs) =
      Lives-bind _ _ (upload_from-Lives b b.local_path) (λ _. upload_all-Lives bs)

  upload_ready-Lives : (r : Result (List BlobRow)) → Lives (upload_ready self j r)
  unfolding upload_ready
  upload_ready-Lives (ok bs) = upload_all-Lives bs
  upload_ready-Lives (err e) = Lives-pure tt
  upload_ready-Lives panic = Lives-pure tt

  pub run_upload_cycle-Lives : Lives (run_upload_cycle self j)
  unfolding run_upload_cycle
  run_upload_cycle-Lives = Lives-bind _ _ open_conn-Lives (λ _.
      Lives-bind _ _ (Lives-read_clock self.now)
        (λ now. Lives-bind _ _ (Lives-db _ (Calm-list_ready now _)) upload_ready-Lives))

  pub handle_stage-Lives : (i src : String) → Lives (handle_stage self j i src)
  unfolding handle_stage Blobs.set_local_path_and_size
  handle_stage-Lives i src =
      Lives-match _ _ _ (Alive-files _)
        (λ size.
          Lives-bind _ _ open_conn-Lives (λ _.
            Lives-bind _ _ (at_now-Lives _ (λ now. Calm-exec _)) (λ _. run_upload_cycle-Lives)))
        (λ e. Lives-bind _ _ open_conn-Lives (λ _. mark_retry-Lives i e))

  download_row-Lives : (i : String) (b : BlobRow) → Lives (download_row self j i b)
  unfolding download_row Blobs.set_local_path_and_size Blobs.set_status
  download_row-Lives i b =
      Lives-match _ _ _ (Alive-both _)
        (λ size. Lives-bind _ _ open_conn-Lives (λ _.
          Lives-bind _ _ (at_now-Lives _ (λ now. Calm-exec _))
            (λ _. Lives-bind _ _ (at_now-Lives _ (λ now. Calm-exec _)) (λ _. Lives-send _))))
        (record_blob_error-Lives i)

  download_found-Lives :
      (i : String) (r : Result (Option BlobRow)) → Lives (download_found self j i r)
  unfolding download_found
  download_found-Lives i (ok (some b)) = download_row-Lives i b
  download_found-Lives i (ok none) = Lives-pure tt
  download_found-Lives i (err e) = Lives-pure tt
  download_found-Lives i panic = Lives-pure tt

  pub handle_download-Lives : (i : String) → Lives (handle_download self j i)
  unfolding handle_download Blobs.get
  handle_download-Lives i =
      Lives-bind _ _ open_conn-Lives
        (λ _. Lives-bind _ _ (Lives-db _ (Calm-exec _)) (download_found-Lives i))

  download_all-Lives : (bs : List BlobRow) → Lives (download_all self j bs)
  unfolding download_all
  download_all-Lives [] = Lives-pure tt
  download_all-Lives (b ∷ bs) =
      Lives-bind _ _ (handle_download-Lives b.id) (λ _. download_all-Lives bs)

  download_ready-Lives : (r : Result (List BlobRow)) → Lives (download_ready self j r)
  unfolding download_ready
  download_ready-Lives (ok bs) = download_all-Lives bs
  download_ready-Lives (err e) = Lives-pure tt
  download_ready-Lives panic = Lives-pure tt

  pub run_download_cycle-Lives : Lives (run_download_cycle self j)
  unfolding run_download_cycle
  run_download_cycle-Lives = Lives-bind _ _ open_conn-Lives (λ _.
      Lives-bind _ _ (Lives-read_clock self.now)
        (λ now. Lives-bind _ _ (Lives-db _ (Calm-list_ready now _)) download_ready-Lives))
