-- ===== src/Blob/Cycle.antt =====
-- src/blob/worker.rs, `upload_blob` and `run_upload_cycle`.
use squirreld.Prelude.{
  ℕ, ◌+◌, ◌-◌, ◌*◌, ◌/◌, ◌^◌, ◌≤◌, ◌<◌, String, List, [], ◌∷◌, ◌≡◌, refl, ap, ◌∙◌, arith, Bool,
  true, false, Option, none, some, if◌then◌else◌, length, ltb, All, All-imp,
}
use squirreld.Error.{Result, ok, err, panic}
use squirreld.Types.{Bytes, uploaded, blob_uploaded}
use squirreld.Db.Sql.{BlobRow}
use squirreld.Db.Outbox.{Json}
use squirreld.Db.Blobs
use squirreld.Backend.Blobs.{accepted, Shown, IsBlobBackend}
use squirreld.Blob.{IsFiles, World, ◌>>◌, send}
use squirreld.Blob.Worker.{
  BlobWorker, at_now, open_conn, upload_single, upload_multipart, upload_sized, upload_at,
  upload_from, upload_blob, upload_all, upload_ready, run_upload_cycle, total_parts,
}
use squirreld.Blob.Chunks.{total_parts-covers}
use squirreld.Blob.Sound.Row.{Watched, Good, Fits, Fits-Advances}
use squirreld.Blob.Sound.{
  Sound, Safe, Safe-Sound, Safe-bind, Safe-given, Safe-then, Safe-frame, Safe-imp, Safe-match,
  Safe-pure, Safe-files, Safe-send, Safe-db, Safe-read_clock,
}
use squirreld.Blob.Rows.{set_uploaded-Rows, list_ready-Rows, list_ready-Listed, Listed}
use squirreld.Blob.Steps.{at_now-Passes, open_conn-Passes, record_blob_error-Passes}
use squirreld.Blob.Upload.{Sent, upload_single-Sent, upload_multipart-Sent}

same_blob : (i k : String) → blob_uploaded i ≡ blob_uploaded k → i ≡ k
same_blob i k e = ground (arith, e)

module _ {S F : Type 0} (self : BlobWorker S F) (j : Json) (v : Shown S)
    (content : F → String → Option Bytes) (x : Watched) (law : IsBlobBackend self.backend v)
    (fs : IsFiles self.files content)
    (covers : length x.bytes ≤ total_parts self.chunk_size (length x.bytes) * self.chunk_size) where
  module _ (blob : BlobRow) (path : String) (from : blob.local_path ≡ some path) where
    transfer-Sent :
        (b : Bool) (size_bytes : ℕ)
        → (blob.s3_key ≡ x.key → size_bytes ≡ length x.bytes)
        → Safe v content self.chunk_size x
            (λ s. Fits v self.chunk_size x s blob)
            (if b
              then upload_single self j blob path
              else upload_multipart self j blob path size_bytes)
            (λ _ s. Sent self j v content x law fs blob path from s)
    transfer-Sent true size_bytes sized =
        upload_single-Sent self j v content x law fs blob path from
    transfer-Sent false size_bytes sized =
        upload_multipart-Sent self j v content x law fs blob path from covers size_bytes sized

    mark_uploaded-Safe :
        (blob.id ≡ x.id → blob.s3_key ≡ x.key)
        → Safe v content self.chunk_size x
            (Sent self j v content x law fs blob path from)
            (do
              open_conn self j
              at_now self j (λ now. Blobs.set_status now blob.id uploaded)
              send (blob_uploaded blob.id))
            (λ _ s. Unit {0})
    mark_uploaded-Safe own =
        Safe-bind v content self.chunk_size x _ _
          (open_conn-Passes self j v content self.chunk_size x)
          (λ _.
            Safe-bind v content self.chunk_size x _ _
              (at_now-Passes self j v content self.chunk_size x _ (λ now s sent.
                set_uploaded-Rows v self.chunk_size x s now blob.id (λ e. sent (own e))))
              (λ _.
                Safe-then v content self.chunk_size x _ (λ a s sent. tt)
                  (Safe-send v content self.chunk_size x _
                    (λ s sent e. sent (own (same_blob _ _ e))))))

    upload_sized-Safe :
        (size_bytes : ℕ)
        → (blob.s3_key ≡ x.key → size_bytes ≡ length x.bytes)
        → (blob.id ≡ x.id → blob.s3_key ≡ x.key)
        → Safe v content self.chunk_size x
            (λ s. Fits v self.chunk_size x s blob)
            (upload_sized self j blob path size_bytes)
            (λ _ s. Unit {0})
    unfolding upload_sized
    upload_sized-Safe size_bytes sized own =
        Safe-match v content self.chunk_size x _ _ _
          (transfer-Sent (ltb size_bytes self.chunk_size) size_bytes sized)
          (λ _. mark_uploaded-Safe own)
          (λ e. record_blob_error-Passes self j v content self.chunk_size x blob.id e)

    len-sized :
        (t : F) (s : S) (n : ℕ)
        → Fits v self.chunk_size x s blob
        → content t x.path ≡ some x.bytes
        → (self.files.len path t).0 ≡ accepted n
        → blob.s3_key ≡ x.key
        → n ≡ length x.bytes
    len-sized t s n g kept e m =
        let good : Good v self.chunk_size x s blob = g.mine (g.keyed m) in
        let (bytes, r, q) = fs.len_tells path t n e in
        let same : path ≡ x.path = ground (arith, good.same_path, from) in
        let b : bytes ≡ x.bytes = ground (arith, r, kept, ap (content t) same) in q ∙ ap length b

    upload_at-Safe :
        (o : Option ℕ)
        → blob.size_bytes ≡ o
        → (blob.id ≡ x.id → blob.s3_key ≡ x.key)
        → Safe v content self.chunk_size x
            (λ s. Fits v self.chunk_size x s blob)
            (upload_at self j blob path o)
            (λ _ s. Unit {0})
    unfolding upload_at
    upload_at-Safe (some n) e own =
        Safe-given v content self.chunk_size x _
          (λ s g. upload_sized-Safe n (λ m. (g.mine (g.keyed m)).same_size n e) own)
    upload_at-Safe none e own =
        Safe-match v content self.chunk_size x
          {Q = λ n s. Fits v self.chunk_size x s blob × (blob.s3_key ≡ x.key → n ≡ length x.bytes)}
          _ _ _
          (Safe-files v content self.chunk_size x _ (λ t. fs.len_keeps path t x.path)
            (λ t s n g kept e. (g, len-sized t s n g kept e)))
          (λ n. Safe-given v content self.chunk_size x _ (λ s g.
            Safe-imp v content self.chunk_size x _ (λ s g. g.0) (upload_sized-Safe n g.1 own)))
          (λ e. record_blob_error-Passes self j v content self.chunk_size x blob.id e)

  pub upload_from-Safe :
      (blob : BlobRow) (o : Option String)
      → blob.local_path ≡ o
      → Safe v content self.chunk_size x
          (λ s. Fits v self.chunk_size x s blob)
          (upload_from self j blob o)
          (λ _ s. Unit {0})
  unfolding upload_from
  upload_from-Safe blob none e = Safe-pure v content self.chunk_size x tt (λ s g. tt)
  upload_from-Safe blob (some path) e =
      Safe-given v content self.chunk_size x _
        (λ s g. upload_at-Safe blob path e blob.size_bytes refl (λ i. (g.mine i).same_key))

  abbrev Rest : List BlobRow → S → Type 0
  Rest blobs s = All (Fits v self.chunk_size x s) blobs

  upload_all-Safe :
      (blobs : List BlobRow)
      → Safe v content self.chunk_size x (Rest blobs) (upload_all self j blobs) (λ _ s. Unit {0})
  unfolding upload_all
  upload_all-Safe [] = Safe-pure v content self.chunk_size x tt (λ s g. tt)
  upload_all-Safe (blob ∷ blobs) =
      Safe-bind v content self.chunk_size x _ _
        (Safe-frame v content self.chunk_size x (Rest blobs) (upload_blob self j blob)
          (λ s t a h. All-imp _ _ blobs (λ b. Fits-Advances v self.chunk_size x s t b a) h)
          (upload_from-Safe blob blob.local_path refl))
        (λ _. upload_all-Safe blobs)

  upload_ready-Safe :
      (r : Result (List BlobRow))
      → Safe v content self.chunk_size x
          (λ s. Listed v self.chunk_size x s r)
          (upload_ready self j r)
          (λ _ s. Unit {0})
  unfolding upload_ready
  upload_ready-Safe (ok blobs) = upload_all-Safe blobs
  upload_ready-Safe (err e) = Safe-pure v content self.chunk_size x tt (λ s g. tt)
  upload_ready-Safe panic = Safe-pure v content self.chunk_size x tt (λ s g. tt)

  pub run_upload_cycle-Safe :
      Safe v content self.chunk_size x (λ s. Unit {0}) (run_upload_cycle self j) (λ _ s. Unit {0})
  unfolding run_upload_cycle
  run_upload_cycle-Safe =
      Safe-bind v content self.chunk_size x _ _
        (open_conn-Passes self j v content self.chunk_size x)
        (λ _.
          Safe-bind v content self.chunk_size x _ _
            (Safe-read_clock v content self.chunk_size x self.now)
            (λ now.
              Safe-bind v content self.chunk_size x {Q = λ r s. Listed v self.chunk_size x s r} _ _
                (Safe-db v content self.chunk_size x _
                  (λ s p. list_ready-Rows v self.chunk_size x s now ("pending" ∷ "uploading" ∷ []))
                  (λ s conn p h.
                    list_ready-Listed v self.chunk_size x s now ("pending" ∷ "uploading" ∷ []) conn
                      h))
                upload_ready-Safe))

-- For files and a remote store that keep their contracts, a file of fewer than 2^31 chunks, and a
-- database in which no other blob has its key: whichever statements, reads and remote calls fail, an
-- upload cycle leaves the blob sound. So it has the status `uploaded`, and its event is sent, only when
-- the remote store holds exactly the bytes of the file, however often the upload was interrupted and
-- resumed; and every part that an interrupted session holds is the chunk of its number.
pub run_upload_cycle-Sound :
    {S F : Type 0} (self : BlobWorker S F) (j : Json) (v : Shown S)
    (content : F → String → Option Bytes) (x : Watched)
    → IsBlobBackend self.backend v
    → IsFiles self.files content
    → 0 < self.chunk_size
    → (length x.bytes + self.chunk_size - 1) / self.chunk_size < 2 ^ 31
    → (w : World S F) → Sound v content self.chunk_size x w
    → Sound v content self.chunk_size x (run_upload_cycle self j w).1
run_upload_cycle-Sound self j v content x law fs pos few w sound =
    Safe-Sound v content self.chunk_size x _
      (run_upload_cycle-Safe self j v content x law fs
        (total_parts-covers self.chunk_size x.bytes pos few))
      w sound tt
