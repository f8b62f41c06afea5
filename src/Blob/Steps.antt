-- ===== src/Blob/Steps.antt =====
-- src/blob/worker.rs, the helpers of the worker: whatever is known of the remote store stays known.
use squirreld.Prelude.{ℕ, String, List, [], ◌∷◌, Option, none, some}
use squirreld.Error.{Result, ok, err, panic}
use squirreld.Types.{Bytes}
use squirreld.Db.Sql.{BlobRow, Sql}
use squirreld.Db.Keeps.{Keeps}
use squirreld.Db.Outbox.{Json}
use squirreld.Db.Blobs
use squirreld.Engine.Open.{initialize}
use squirreld.Backend.Blobs.{UploadedPart, Shown}
use squirreld.Blob.{Work, ignore}
use squirreld.Blob.Worker.{
  BlobWorker, at_now, opened, open_conn, retry_event, mark_retry, record_blob_error, store_parts,
}
use squirreld.Blob.Sound.Row.{Watched, Advances-refl, Rows}
use squirreld.Blob.Sound.{Safe, Safe-bind, Safe-pure, Safe-db, Safe-send, Safe-read_clock}
use squirreld.Blob.Rows.{Keeps-query, initialize-Rows, mark_retry-Rows, upsert_part-Rows}

module _ {S F : Type 0} (self : BlobWorker S F) (j : Json) (v : Shown S)
    (content : F → String → Option Bytes) (c : ℕ) (x : Watched) where
  -- `m` goes on from whatever is known, and forgets none of it.
  abbrev pub Passes : {A : Type 0} → (S → Type 0) → Work S F A → Type 0
  Passes P m = Safe v content c x P m (λ _ s. P s)

  pub ignore-Passes :
      {A : Type 0} {P : S → Type 0} (m : Sql A)
      → ((s : S) → P s → Keeps (Rows v c x s) m)
      → Passes P (ignore m)
  ignore-Passes m keeps =
      Safe-bind v content c x _ _ (Safe-db v content c x m keeps (λ s conn p h. p))
        (λ r. Safe-pure v content c x tt (λ s p. p))

  pub at_now-Passes :
      {A : Type 0} {P : S → Type 0} (m : ℕ → Sql A)
      → ((now : ℕ) (s : S) → P s → Keeps (Rows v c x s) (m now))
      → Passes P (at_now self j m)
  at_now-Passes m keeps =
      Safe-bind v content c x _ _ (Safe-read_clock v content c x self.now)
        (λ now. ignore-Passes (m now) (keeps now))

  opened-Passes : {P : S → Type 0} (r : Result (Unit {0})) → Passes P (opened self j r)
  unfolding opened
  opened-Passes (ok u) = Safe-pure v content c x tt (λ s p. p)
  opened-Passes (err e) = record { at = λ w h p. (h, Advances-refl v c x w.remote, tt) }
  opened-Passes panic = record { at = λ w h p. (h, Advances-refl v c x w.remote, tt) }

  pub open_conn-Passes : {P : S → Type 0} → Passes P (open_conn self j)
  unfolding open_conn
  open_conn-Passes {P} =
      Safe-bind v content c x _ _
        (Safe-db v content c x {P = P} {Q = λ _ s. P s} initialize (λ s p. initialize-Rows v c x s)
          (λ s conn p h. p))
        opened-Passes

  pub mark_retry-Passes : {P : S → Type 0} (i error : String) → Passes P (mark_retry self j i error)
  mark_retry-Passes i error =
      Safe-bind v content c x _ _ (Safe-read_clock v content c x self.now) (λ now.
        Safe-bind v content c x _ _ (Safe-read_clock v content c x self.now) (λ log_now.
          Safe-bind v content c x _ _ (Safe-read_clock v content c x self.now) (λ update_now.
            ignore-Passes _ (λ s p. mark_retry-Rows v c x s j now log_now update_now i error))))

  retry_event-Passes :
      {P : S → Type 0} (i error : String) (r : Result (Option BlobRow))
      → Passes P (retry_event self j i error r)
  unfolding retry_event
  retry_event-Passes i error (ok (some b)) =
      Safe-bind v content c x _ _ (Safe-read_clock v content c x self.now)
        (λ now. Safe-send v content c x _ (λ s p e. absurd (cc)))
  retry_event-Passes i error (ok none) = Safe-pure v content c x tt (λ s p. p)
  retry_event-Passes i error (err e) = Safe-pure v content c x tt (λ s p. p)
  retry_event-Passes i error panic = Safe-pure v content c x tt (λ s p. p)

  pub record_blob_error-Passes :
      {P : S → Type 0} (i error : String) → Passes P (record_blob_error self j i error)
  unfolding record_blob_error Blobs.get
  record_blob_error-Passes {P} i error = Safe-bind v content c x _ _ open_conn-Passes (λ _.
      Safe-bind v content c x _ _ (mark_retry-Passes i error) (λ _.
        Safe-bind v content c x _ _
          (Safe-db v content c x {P = P} {Q = λ _ s. P s} (Blobs.get i)
            (λ s p. Keeps-query v c x s _) (λ s conn p h. p))
          (retry_event-Passes i error)))

  pub store_parts-Passes :
      {P : S → Type 0} (i : String) (ps : List UploadedPart) → Passes P (store_parts self j i ps)
  unfolding store_parts
  store_parts-Passes i [] = Safe-pure v content c x tt (λ s p. p)
  store_parts-Passes i (q ∷ qs) =
      Safe-bind v content c x _ _
        (ignore-Passes _ (λ s p. upsert_part-Rows v c x s i q.part_number q.etag))
        (λ _. store_parts-Passes i qs)
