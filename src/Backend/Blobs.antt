-- ===== src/Backend/Blobs.antt =====
-- src/backend/mod.rs: the blob half, what the blob worker asks of a remote object store.
use squirreld.Prelude.{
  ℕ, suc, ◌≤◌, String, List, [], ◌∷◌, ◌++◌, ◌<◌, refl, arith, ◌≡◌, ◌≢◌, ◌⊎◌, inl, inr, Bool, true,
  false, ◌||◌, ◌==◌, Option, none, some,
}
use squirreld.Types.{Bytes}
use squirreld.Backend.{BackendError}

-- `Result<A, E>` of a call that does not return a `SquirrelError`.
pub data Answer (E A : Type 0) : Type 0 where
  accepted : A → Answer E A
  refused : E → Answer E A

pub Answer-cases :
    {E A : Type 0} (r : Answer E A) → ((a : A) × (r ≡ accepted a)) ⊎ ((e : E) × (r ≡ refused e))
Answer-cases (accepted a) = inl (a, refl)
Answer-cases (refused e) = inr (e, refl)

-- An i32; the worker and the stores use the numbers from 1.
pub record UploadedPart : Type 0 where
  pub part_number : ℕ
  pub etag : String

-- `BlobBackend` over the state `S` of the remote store and `F` of the local files, to which
-- `get_object` writes; `ensure_bucket` is left out, which the worker calls once and whose failure it
-- only logs.
pub record BlobBackend (S F : Type 0) : Type 0 where
  pub backend_id : String
  pub put_object : String → Bytes → S → Answer BackendError (Unit {0}) × S
  pub create_multipart_upload : String → S → Answer BackendError String × S
  pub upload_part : String → String → ℕ → Bytes → S → Answer BackendError String × S
  pub list_parts : String → String → S → Answer BackendError (List UploadedPart) × S
  pub complete_multipart_upload :
      String → String → List UploadedPart → S → Answer BackendError (Unit {0}) × S
  pub get_object : String → String → S → F → Answer BackendError ℕ × S × F
  pub delete_object : String → S → Answer BackendError (Unit {0}) × S

unfoldable pub has_part : ℕ → List UploadedPart → Bool
has_part n [] = false
has_part n (p ∷ ps) = p.part_number == n || has_part n ps

-- The numbers are from `low` and ascend.
abbrev pub Rising : ℕ → List UploadedPart → Type 0
Rising low [] = Unit
Rising low (p ∷ ps) = (low ≤ p.part_number) × Rising (suc p.part_number) ps

pub has_part-Rising :
    (n low : ℕ) (ps : List UploadedPart) → Rising low ps → n < low → has_part n ps ≡ false
unfolding has_part
has_part-Rising n low [] r h = refl
has_part-Rising n low (p ∷ ps) r h =
    ground (arith, r.0, has_part-Rising n (suc p.part_number) ps r.1 (omega (arith, r.0, h)))

-- No two parts have the same number.
abbrev pub Distinct : List UploadedPart → Type 0
Distinct [] = Unit
Distinct (p ∷ ps) = (has_part p.part_number ps ≡ false) × Distinct ps

abbrev pub joined : Option Bytes → Bytes → Bytes
joined none rest = rest
joined (some bytes) rest = bytes ++ rest

-- The object that parts make, in the order of the list.
unfoldable pub assembled : (ℕ → Option Bytes) → List UploadedPart → Bytes
assembled part [] = []
assembled part (p ∷ ps) = joined (part p.part_number) (assembled part ps)

-- What a store shows: the bytes of each part of a session, by key, upload id and number, those of
-- each object, and of an upload id whether the store has given it for a key.
pub record Shown (S : Type 0) : Type 0 where
  pub part : S → String → String → ℕ → Option Bytes
  pub object : S → String → Option Bytes
  pub issued : S → String → String → Bool

module _ {S : Type 0} (v : Shown S) where
  -- An upload id that was given stays so.
  abbrev pub StillIssued : S → S → Type 0
  StillIssued s t =
      (key upload : String) → v.issued s key upload ≡ true → v.issued t key upload ≡ true

  -- Parts may be gone, since sessions end and expire, but are not changed.
  abbrev pub PartsFade : S → S → Type 0
  PartsFade s t =
      (key upload : String) (n : ℕ)
      → (v.part t key upload n ≡ v.part s key upload n) ⊎ (v.part t key upload n ≡ none)

  -- No object but that of `key` is changed, and that one becomes `bytes` at most.
  abbrev pub Writes : String → Bytes → S → S → Type 0
  Writes key bytes s t =
      ((other : String) → key ≢ other → v.object t other ≡ v.object s other)
      × ((v.object t key ≡ v.object s key) ⊎ (v.object t key ≡ some bytes))

abbrev pub is_there {ℓ} : {A : Type ℓ} → Option A → Bool
is_there none = false
is_there (some a) = true

-- What the worker relies on, whether a call is answered or refused.
pub record IsBlobBackend {S F : Type 0} (b : BlobBackend S F) (v : Shown S) : Type 0 where
  pub put_keeps :
      (key : String) (bytes : Bytes) (s : S)
      → PartsFade v s (b.put_object key bytes s).1
        × Writes v key bytes s (b.put_object key bytes s).1
  pub put_stores :
      (key : String) (bytes : Bytes) (s : S)
      → (b.put_object key bytes s).0 ≡ accepted tt
      → v.object (b.put_object key bytes s).1 key ≡ some bytes
  pub create_keeps :
      (key : String) (s : S)
      → PartsFade v s (b.create_multipart_upload key s).1
        × ((other : String) → v.object (b.create_multipart_upload key s).1 other ≡ v.object s other)
  pub create_new :
      (key upload : String) (s : S)
      → (b.create_multipart_upload key s).0 ≡ accepted upload
      → (v.issued s key upload ≡ false)
        × (v.issued (b.create_multipart_upload key s).1 key upload ≡ true)
  pub put_issued :
      (key : String) (bytes : Bytes) (s : S) → StillIssued v s (b.put_object key bytes s).1
  pub create_issued : (key : String) (s : S) → StillIssued v s (b.create_multipart_upload key s).1
  pub upload_issued :
      (key upload : String) (n : ℕ) (bytes : Bytes) (s : S)
      → StillIssued v s (b.upload_part key upload n bytes s).1
  pub list_issued : (key upload : String) (s : S) → StillIssued v s (b.list_parts key upload s).1
  pub complete_issued :
      (key upload : String) (ps : List UploadedPart) (s : S)
      → StillIssued v s (b.complete_multipart_upload key upload ps s).1
  pub upload_objects :
      (key upload : String) (n : ℕ) (bytes : Bytes) (s : S) (other : String)
      → v.object (b.upload_part key upload n bytes s).1 other ≡ v.object s other
  pub upload_parts :
      (key upload : String) (n : ℕ) (bytes : Bytes) (s : S) (k u : String) (m : ℕ)
      → (v.part (b.upload_part key upload n bytes s).1 k u m ≡ v.part s k u m)
        ⊎ ((k ≡ key)
            × (u ≡ upload)
            × (m ≡ n)
            × (v.part (b.upload_part key upload n bytes s).1 k u m ≡ some bytes))
  pub upload_stores :
      (key upload etag : String) (n : ℕ) (bytes : Bytes) (s : S)
      → (b.upload_part key upload n bytes s).0 ≡ accepted etag
      → v.part (b.upload_part key upload n bytes s).1 key upload n ≡ some bytes
  pub list_keeps :
      (key upload : String) (s : S)
      → PartsFade v s (b.list_parts key upload s).1
        × ((other : String) → v.object (b.list_parts key upload s).1 other ≡ v.object s other)
  pub list_distinct :
      (key upload : String) (ps : List UploadedPart) (s : S)
      → (b.list_parts key upload s).0 ≡ accepted ps
      → Distinct ps
  pub list_lists :
      (key upload : String) (ps : List UploadedPart) (s : S)
      → (b.list_parts key upload s).0 ≡ accepted ps
      → (n : ℕ) → has_part n ps ≡ true
      → is_there (v.part (b.list_parts key upload s).1 key upload n) ≡ true
  pub complete_keeps :
      (key upload : String) (ps : List UploadedPart) (s : S)
      → Rising 0 ps
      → PartsFade v s (b.complete_multipart_upload key upload ps s).1
        × Writes v key
            (assembled (v.part s key upload) ps)
            s
            (b.complete_multipart_upload key upload ps s).1
  pub complete_stores :
      (key upload : String) (ps : List UploadedPart) (s : S)
      → Rising 0 ps
      → (b.complete_multipart_upload key upload ps s).0 ≡ accepted tt
      → v.object (b.complete_multipart_upload key upload ps s).1 key
        ≡ some (assembled (v.part s key upload) ps)
