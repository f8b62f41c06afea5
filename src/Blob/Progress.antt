-- ===== src/Blob/Progress.antt =====
-- src/blob/worker.rs, `upload_blob` when nothing fails.
pub mod Rules
use squirreld.Prelude.{
  ℕ, zero, suc, ◌+◌, ◌-◌, ◌/◌, ◌^◌, ◌≤◌, ◌<◌, String, List, [], ◌∷◌, ◌++◌, ◌≡◌, refl, sym, ap, ◌∙◌,
  inl, inr, arith, Bool, true, false, ◌&&◌, Bool-cases, Option, none, some, if◌then◌else◌, str_eq,
  eq_iff, length, ltb, All,
}
use squirreld.Error.{Result, ok}
use squirreld.Types.{Bytes, as_str, uploaded, SyncEvent, blob_uploaded}
use squirreld.Db.Sql.{BlobRow, Db, Conn, Sql, healthy, exec}
use squirreld.Db.Outbox.{Json}
use squirreld.Db.Blobs
use squirreld.Db.Blobs.{update_blob}
use squirreld.Engine.Open.{initialize}
use squirreld.Backend.{BackendError}
use squirreld.Backend.Blobs.{Answer, accepted, UploadedPart, BlobBackend, has_part, is_there}
use squirreld.Blob.{
  Files, IsFiles, World, Ending, done, Work, ◌>>=◌, ◌>>◌, pure, match_result, on_files, on_remote,
  on_db, ignore, send, read_clock, io_result, remote_result,
}
use squirreld.Backend.Blobs.{Shown, IsBlobBackend}
use squirreld.Blob.Chunks.{total_parts-covers}
use squirreld.Blob.Sound.Row.{Watched, Uploaded, Good}
use squirreld.Blob.Sound.{Sound, Safe-Sound}
use squirreld.Blob.Cycle.{upload_from-Safe}
use squirreld.Blob.Worker.{
  BlobWorker, at_now, open_conn, opened, upload_single, session, store_parts, send_part, send_parts,
  sort_parts, total_parts, resume_upload, expire_session, upload_multipart, upload_sized, upload_at,
  upload_from, upload_blob, no_parts,
}
use squirreld.Blob.Progress.Rules.{
  Accepts, Readable, Calm, Calm-exec, initialize-healthy, initialize_calm, Calm-initialize, Marked,
  Marked-update_blob, set_status-Marked, Calm-set_status, Ready, Any, AnyOf, Returned, Runs,
  Runs-bind, Runs-match, Runs-pure, Runs-db, Runs-ignore, Runs-read_clock, Runs-files, Runs-value,
  Runs-remote,
}

module _ {S F : Type 0} (self : BlobWorker S F) (j : Json) (content : F → String → Option Bytes)
    (path : String) (bytes : Bytes) (fs : IsFiles self.files content)
    (files : Readable self.files content) (remote : Accepts self.backend) where
  abbrev Goes : {A : Type 0} → Work S F A → Type 0
  Goes m = Runs content path bytes (Any content path bytes) m (AnyOf content path bytes)

  open_conn-Goes : Goes (open_conn self j)
  unfolding open_conn opened on_db
  open_conn-Goes = record {
    at = λ w h p.
        let e = initialize_calm w.conn h.calm in
        rw e (tt, refl, record { calm = refl; there = h.there }, tt);
  }

  at_now-Goes : {A : Type 0} (m : ℕ → Sql A) → ((now : ℕ) → Calm (m now)) → Goes (at_now self j m)
  at_now-Goes m calm =
      Runs-bind content path bytes _ _ (Runs-read_clock content path bytes self.now)
        (λ now. Runs-ignore content path bytes (m now) (calm now))

  upload_single-Goes : (blob : BlobRow) → Goes (upload_single self j blob path)
  unfolding upload_single
  upload_single-Goes blob =
      Runs-bind content path bytes _ _
        (Runs-files content path bytes _ (λ s. fs.read_keeps path s path)
          (λ s h. (bytes, files.read path s bytes h)))
        (λ d. Runs-remote content path bytes _ (λ s. (tt, remote.put blob.s3_key d s)))

  session-Goes : (blob : BlobRow) (o : Option String) → Goes (session self j blob o)
  unfolding session Blobs.set_upload_id
  session-Goes blob (some u) = Runs-pure content path bytes u (λ w p. tt)
  session-Goes blob none =
      Runs-bind content path bytes _ _
        (Runs-remote content path bytes _ (remote.create blob.s3_key))
        (λ u. Runs-bind content path bytes _ _ open_conn-Goes (λ _.
          Runs-bind content path bytes _ _ (at_now-Goes _ (λ now. Calm-exec _))
            (λ _. Runs-pure content path bytes u (λ w p. tt))))

  store_parts-Goes : (i : String) (ps : List UploadedPart) → Goes (store_parts self j i ps)
  unfolding store_parts Blobs.upsert_part
  store_parts-Goes i [] = Runs-pure content path bytes tt (λ w p. tt)
  store_parts-Goes i (p ∷ ps) =
      Runs-bind content path bytes _ _ (Runs-ignore content path bytes _ (Calm-exec _))
        (λ _. store_parts-Goes i ps)

  send_part-Goes :
      (blob : BlobRow) (u : String) (n : ℕ) → Goes (send_part self j blob path u (length bytes) n)
  unfolding send_part Blobs.upsert_part
  send_part-Goes blob u n =
      Runs-bind content path bytes _ _
        (Runs-files content path bytes _ (λ s. fs.exact_keeps path _ _ s path)
          (λ s h. files.read_exact path _ _ s bytes h (ground arith)))
        (λ d.
          Runs-bind content path bytes _ _
            (Runs-remote content path bytes _ (remote.upload blob.s3_key u n d))
            (λ etag. Runs-bind content path bytes _ _ open_conn-Goes (λ _.
              Runs-bind content path bytes _ _ (Runs-ignore content path bytes _ (Calm-exec _))
                (λ _. Runs-pure content path bytes _ (λ w p. tt)))))

  send_parts-Goes :
      (blob : BlobRow) (u : String) (ps : List UploadedPart) (count n : ℕ) (all : List UploadedPart)
      → Goes (send_parts self j blob path u (length bytes) ps count n all)
  unfolding send_parts
  send_parts-Goes blob u ps zero n all = Runs-pure content path bytes all (λ w p. tt)
  send_parts-Goes blob u ps (suc count) n all = elim (Bool-cases (has_part n ps)) [
    | inl old ↦ rw old (send_parts-Goes blob u ps count (suc n) all)
    | inr new ↦ rw new (
        Runs-bind content path bytes _ _ (send_part-Goes blob u n)
          (λ p. send_parts-Goes blob u ps count (suc n) (all ++ (p ∷ []))))
  ]

  resume_upload-Goes :
      (blob : BlobRow) (u : String) (ps : List UploadedPart)
      → Goes (resume_upload self j blob path (length bytes) u ps)
  unfolding resume_upload
  resume_upload-Goes blob u ps = Runs-bind content path bytes _ _ open_conn-Goes (λ _.
      Runs-bind content path bytes _ _ (store_parts-Goes blob.id ps) (λ _.
        Runs-bind content path bytes _ _
          (Runs-files content path bytes _ (λ s. fs.open_keeps path s path)
            (λ s h. (tt, files.open_file path s bytes h)))
          (λ _.
            Runs-bind content path bytes _ _
              (send_parts-Goes blob u ps (total_parts self.chunk_size (length bytes)) 1 ps)
              (λ all.
                Runs-remote content path bytes _
                  (λ s. (tt, remote.complete blob.s3_key u (sort_parts all) s))))))

  upload_multipart-Goes :
      (blob : BlobRow)
      → blob.upload_id ≡ none
      → Goes (upload_multipart self j blob path (length bytes))
  unfolding upload_multipart
  upload_multipart-Goes blob new =
      Runs-bind content path bytes _ _ (session-Goes blob blob.upload_id) (λ u.
        Runs-bind content path bytes _ _
          (Runs-remote content path bytes _ (remote.list blob.s3_key u))
          (λ ps. go (no_parts ps && is_there blob.upload_id) u ps (ground (arith, new))))
    where
      go :
          (b : Bool) (u : String) (ps : List UploadedPart)
          → b ≡ false
          → Goes (
              if b
              then expire_session self j blob
              else resume_upload self j blob path (length bytes) u ps)
      go true u ps q = absurd (ground (arith, q))
      go false u ps q = resume_upload-Goes blob u ps

  transfer-Goes :
      (blob : BlobRow) (b : Bool)
      → blob.upload_id ≡ none
      → Goes (
          if b
          then upload_single self j blob path
          else upload_multipart self j blob path (length bytes))
  transfer-Goes blob true new = upload_single-Goes blob
  transfer-Goes blob false new = upload_multipart-Goes blob new

  -- The rows of the blob are marked, and its event is the last one.
  abbrev Reported : String → {A : Type 0} → A → World S F → Type 0
  Reported i a w =
      Marked i w.conn.tables × ((es : List SyncEvent) × (w.events ≡ es ++ (blob_uploaded i ∷ [])))

  send-Reported :
      (i : String)
      → Runs content path bytes (λ w. Marked i w.conn.tables) (send (blob_uploaded i)) (Reported i)
  unfolding send
  send-Reported i = record {
    at = λ w h marked.
        (tt, refl, record { calm = h.calm; there = h.there }, (marked, (w.events, refl)));
  }

  mark_uploaded-Reported :
      (i : String)
      → Runs content path bytes
          (Any content path bytes)
          (do
            open_conn self j
            at_now self j (λ now. Blobs.set_status now i uploaded)
            send (blob_uploaded i))
          (Reported i)
  unfolding send
  mark_uploaded-Reported i = Runs-bind content path bytes _ _ open_conn-Goes (λ _.
      Runs-bind content path bytes {Q = λ _ w. Marked i w.conn.tables} _ _
        (Runs-bind content path bytes _ _ (Runs-read_clock content path bytes self.now) (λ now.
          Runs-bind content path bytes _ _
            (Runs-db content path bytes {Q = λ r w. Marked i w.conn.tables}
              (Blobs.set_status now i uploaded) (Calm-set_status now i)
              (λ w h. set_status-Marked now i w.conn h))
            (λ r. Runs-pure content path bytes tt (λ w p. p))))
        (λ _. send-Reported i))

  upload_sized-Reported :
      (blob : BlobRow)
      → blob.upload_id ≡ none
      → Runs content path bytes
          (Any content path bytes)
          (upload_sized self j blob path (length bytes))
          (Reported blob.id)
  unfolding upload_sized
  upload_sized-Reported blob new =
      Runs-match content path bytes _ _ _
        (transfer-Goes blob (ltb (length bytes) self.chunk_size) new)
        (λ _. mark_uploaded-Reported blob.id)

  upload_at-Reported :
      (blob : BlobRow) (o : Option ℕ)
      → ((n : ℕ) → o ≡ some n → n ≡ length bytes)
      → blob.upload_id ≡ none
      → Runs content path bytes
          (Any content path bytes)
          (upload_at self j blob path o)
          (Reported blob.id)
  unfolding upload_at
  upload_at-Reported blob (some n) sized new = rw (sized n refl) (upload_sized-Reported blob new)
  upload_at-Reported blob none sized new =
      Runs-match content path bytes {Q = λ n w. n ≡ length bytes} _ _ _
        (Runs-value content path bytes _ (length bytes) (λ s. fs.len_keeps path s path)
          (λ s h. files.len path s bytes h))
        (λ n. record { at = λ w h q. rw q ((upload_sized-Reported blob new).at w h tt) })

  upload_from-Reported :
      (blob : BlobRow) (o : Option String)
      → o ≡ some path
      → ((n : ℕ) → blob.size_bytes ≡ some n → n ≡ length bytes)
      → blob.upload_id ≡ none
      → Runs content path bytes
          (Any content path bytes)
          (upload_from self j blob o)
          (Reported blob.id)
  unfolding upload_from
  upload_from-Reported blob o e sized new = rw e (upload_at-Reported blob blob.size_bytes sized new)

last_of-All :
    {A : Type 0} (P : A → Type 0) (xs es : List A) (x : A) → xs ≡ es ++ (x ∷ []) → All P xs → P x
last_of-All {A} P xs es x e h = go es (rw (sym e) h)
  where
    go : (es : List A) → All P (es ++ (x ∷ [])) → P x
    go [] h = h.0
    go (y ∷ ys) h = go ys h.1

-- Where the database is in order, the file of the blob can be read and the remote store accepts what it
-- is asked: the upload of a sound row with no session yet returns, marks the row, sends its event last,
-- and the remote store then holds exactly the bytes of the file, sent at once or in parts.
pub upload_blob_uploads :
    {S F : Type 0} (self : BlobWorker S F) (j : Json) (v : Shown S)
    (content : F → String → Option Bytes) (x : Watched)
    → IsBlobBackend self.backend v
    → IsFiles self.files content
    → Readable self.files content
    → Accepts self.backend
    → 0 < self.chunk_size
    → (length x.bytes + self.chunk_size - 1) / self.chunk_size < 2 ^ 31
    → (w : World S F) (blob : BlobRow) → Sound v content self.chunk_size x w
    → w.conn.faults ≡ []
    → Good v self.chunk_size x w.remote blob
    → blob.id ≡ x.id
    → blob.upload_id ≡ none
    → ((upload_blob self j blob w).0 ≡ done tt)
      × Uploaded v self.chunk_size x (upload_blob self j blob w).1.remote
      × Marked x.id (upload_blob self j blob w).1.conn.tables
      × ((es : List SyncEvent) × ((upload_blob self j blob w).1.events
            ≡ es ++ (blob_uploaded x.id ∷ [])))
upload_blob_uploads self j v content x law fs files remote pos few w blob sound calm good own new =
    let (a, e, r, (marked, (es, sent))) =
      (upload_from-Reported self j content x.path x.bytes fs files remote blob blob.local_path
          good.same_path good.same_size new).at
        w (record { calm = calm; there = sound.kept }) tt in
    let after =
      Safe-Sound v content self.chunk_size x _
        (upload_from-Safe self j v content x law fs
          (total_parts-covers self.chunk_size x.bytes pos few) blob blob.local_path refl)
        w sound (record { mine = λ _. good; keyed = λ _. own }) in
    let told = last_of-All _ _ es (blob_uploaded blob.id) sent after.told in
    (e, told (ap blob_uploaded own), rw (sym own) marked, (es, rw (sym own) sent))
