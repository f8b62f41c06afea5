-- ===== src/Blob/Sound/Row.antt =====
-- src/blob/worker.rs: the blob that is looked at, and what holds of its row and of the remote store.
use squirreld.Prelude.{ℕ, ◌≤◌, String, ◌≡◌, true, some, All, length}
use squirreld.Types.{Bytes, SyncEvent, blob_uploaded}
use squirreld.Db.Sql.{BlobRow, Db}
use squirreld.Backend.Blobs.{Shown}
use squirreld.Blob.Worker.{total_parts}
use squirreld.Blob.Chunks.{chunk}

-- The blob that is looked at: its row has the id and the key, its file is at `path` and holds `bytes`.
pub record Watched : Type 0 where
  pub id : String
  pub key : String
  pub path : String
  pub bytes : Bytes

module _ {S : Type 0} (v : Shown S) (c : ℕ) (x : Watched) where
  -- Whatever part the session has is the chunk of its number, of length `c`.
  abbrev pub Chunked : S → String → Type 0
  Chunked s upload =
      (n : ℕ) (bytes : Bytes)
      → v.part s x.key upload n ≡ some bytes
      → (1 ≤ n) × (n ≤ total_parts c (length x.bytes)) × (bytes ≡ chunk c n x.bytes)

  abbrev pub Right : S → String → Type 0
  Right s upload = (v.issued s x.key upload ≡ true) × Chunked s upload

  -- Only sessions that the store has given have parts for the key.
  abbrev pub Clean : S → Type 0
  Clean s =
      (upload : String) (n : ℕ) (bytes : Bytes)
      → v.part s x.key upload n ≡ some bytes
      → v.issued s x.key upload ≡ true

  abbrev pub Uploaded : S → Type 0
  Uploaded s = v.object s x.key ≡ some x.bytes

  -- The row of the blob: its session can be resumed, and it counts as uploaded only when it is.
  pub record Good (s : S) (b : BlobRow) : Type 0 where
    pub same_key : b.s3_key ≡ x.key
    pub same_path : b.local_path ≡ some x.path
    pub same_size : (n : ℕ) → b.size_bytes ≡ some n → n ≡ length x.bytes
    pub resumable : (upload : String) → b.upload_id ≡ some upload → Right s upload
    pub stored : b.status ≡ "uploaded" → Uploaded s

  -- Any row: only that of the blob has its key.
  pub record Fits (s : S) (b : BlobRow) : Type 0 where
    pub mine : b.id ≡ x.id → Good s b
    pub keyed : b.s3_key ≡ x.key → b.id ≡ x.id

  abbrev pub Rows : S → Db → Type 0
  Rows s d = All (Fits s) d.blobs

  -- The event that the blob is uploaded is sent only when it is.
  abbrev pub Honest : S → SyncEvent → Type 0
  Honest s e = e ≡ blob_uploaded x.id → Uploaded s

  -- What happens at the remote store loses nothing of this.
  abbrev pub Advances : S → S → Type 0
  Advances s t =
      ((upload : String) → Right s upload → Right t upload)
      × (Uploaded s → Uploaded t)
      × (Clean s → Clean t)

  pub Advances-refl : (s : S) → Advances s s
  Advances-refl s = (λ u r. r, λ h. h, λ h. h)

  pub Advances-trans : (s t u : S) → Advances s t → Advances t u → Advances s u
  Advances-trans s t u a b = (λ n r. b.0 n (a.0 n r), λ h. b.1 (a.1 h), λ h. b.2 (a.2 h))

  pub Good-Advances : (s t : S) (b : BlobRow) → Advances s t → Good s b → Good t b
  Good-Advances s t b a g = record {
    same_key = g.same_key;
    same_path = g.same_path;
    same_size = g.same_size;
    resumable = λ upload h. a.0 upload (g.resumable upload h);
    stored = λ h. a.1 (g.stored h);
  }

  pub Fits-Advances : (s t : S) (b : BlobRow) → Advances s t → Fits s b → Fits t b
  Fits-Advances s t b a h = record { mine = λ e. Good-Advances s t b a (h.mine e); keyed = h.keyed }
