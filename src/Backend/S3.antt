-- ===== src/Backend/S3.antt =====
-- src/backend/s3.rs: the blob backend over S3. The SDK's client is a parameter, with one field for each
-- call that the backend makes; an error of the SDK is the text that `{:#?}` prints for it.
pub mod Contract
use squirreld.Prelude.{
  ℕ, String, List, [], ◌∷◌, Bool, true, false, ◌||◌, Option, none, some, if◌then◌else◌, str_eq,
  length, contains,
}
use squirreld.Types.{Bytes}
use squirreld.Backend.{BackendError, transient, config}
use squirreld.Backend.Blobs.{Answer, accepted, refused, UploadedPart, BlobBackend}
use Prim.Native.String.{◌++◌ as ◌<>◌}

-- A part in the answer to `list_parts`.
pub record Part : Type 0 where
  pub part_number : Option ℕ
  pub e_tag : Option String

-- The calls take the bucket first. A part that completes an upload is its number and tag. The body of
-- an object may fail while it is collected.
pub record Client (S : Type 0) : Type 0 where
  pub head_bucket : String → S → Answer String (Unit {0})
  pub create_bucket : String → Option String → S → Answer String (Unit {0}) × S
  pub put_object : String → String → Bytes → S → Answer String (Unit {0}) × S
  pub create_multipart_upload : String → String → S → Answer String (Option String) × S
  pub upload_part : String → String → String → ℕ → Bytes → S → Answer String (Option String) × S
  pub list_parts : String → String → String → S → Answer String (List Part) × S
  pub complete_multipart_upload :
      String → String → String → List UploadedPart → S → Answer String (Unit {0}) × S
  pub get_object : String → String → S → Answer String (Answer String Bytes) × S
  pub delete_object : String → String → S → Answer String (Unit {0}) × S

-- `map_err(|e| BackendError::Transient(..))`
abbrev pub or_transient : {S A : Type 0} → Answer String A × S → Answer BackendError A × S
or_transient (accepted a, s) = (accepted a, s)
or_transient (refused e, s) = (refused (transient e), s)

-- An answer in which what was asked for is missing is an error as well.
abbrev pub or_missing :
    {S : Type 0} → String → Answer String (Option String) × S → Answer BackendError String × S
or_missing missing (accepted (some a), s) = (accepted a, s)
or_missing missing (accepted none, s) = (refused (transient missing), s)
or_missing missing (refused e, s) = (refused (transient e), s)

abbrev pub or_zero : Option ℕ → ℕ
or_zero none = 0
or_zero (some n) = n

abbrev pub cons_part : Part → Option String → List UploadedPart → List UploadedPart
cons_part p none rest = rest
cons_part p (some etag) rest = record { part_number = or_zero p.part_number; etag = etag } ∷ rest

-- A part without a tag is left out.
unfoldable pub uploaded_parts : List Part → List UploadedPart
uploaded_parts [] = []
uploaded_parts (p ∷ ps) = cons_part p p.e_tag (uploaded_parts ps)

-- A session that is gone has no parts.
unfoldable pub listed :
    {S : Type 0} → Answer String (List Part) × S → Answer BackendError (List UploadedPart) × S
unfolding uploaded_parts
listed (accepted ps, s) = (accepted (uploaded_parts ps), s)
listed (refused e, s) =
    (if contains e "NoSuchUpload" then accepted [] else refused (transient e), s)

abbrev pub counted : {F : Type 0} → ℕ → Answer String (Unit {0}) × F → Answer BackendError ℕ × F
counted n (accepted u, f) = (accepted n, f)
counted n (refused e, f) = (refused (transient e), f)

unfoldable pub saved :
    {F : Type 0}
    → (String → Bytes → F → Answer String (Unit {0}) × F)
    → String
    → Answer String (Answer String Bytes)
    → F
    → Answer BackendError ℕ × F
saved write dest (accepted (accepted bytes)) f = counted (length bytes) (write dest bytes f)
saved write dest (accepted (refused e)) f = (refused (transient e), f)
saved write dest (refused e) f = (refused (transient e), f)

-- What `head_bucket` tells: the bucket is there; it may be created; or the credentials do not suffice.
abbrev pub headed : Answer String (Unit {0}) → Answer BackendError Bool
headed (accepted u) = accepted true
headed (refused e) =
    if contains e "403" || (contains e "AccessDenied" || contains e "Forbidden")
    then refused (config ("head_bucket: " <> e))
    else accepted false

abbrev pub location_constraint : String → Option String
location_constraint region = if str_eq region "us-east-1" then none else some region

abbrev pub created :
    {S : Type 0} → Answer String (Unit {0}) × S → Answer BackendError (Unit {0}) × S
created (accepted u, s) = (accepted tt, s)
created (refused e, s) = (refused (config ("create_bucket: " <> e)), s)

-- `write` is `tokio::fs::write`, `bucket` is `self.bucket_name`.
module _ {S F : Type 0} (c : Client S) (write : String → Bytes → F → Answer String (Unit {0}) × F)
    (bucket : String) where
  unfoldable pub ensure_bucket : String → S → Answer BackendError (Unit {0}) × S
  ensure_bucket region s = elim (headed (c.head_bucket bucket s)) [
    | refused e ↦ (refused e, s)
    | accepted true ↦ (accepted tt, s)
    | accepted false ↦ created (c.create_bucket bucket (location_constraint region) s)
  ]

  unfoldable pub get_object : String → String → S → F → Answer BackendError ℕ × S × F
  unfolding saved
  get_object key dest s f =
      let (body, s') = c.get_object bucket key s in
      let (r, f') = saved write dest body f in (r, s', f')

  abbrev pub s3 : BlobBackend S F
  s3 = record {
    backend_id = bucket;
    put_object = λ key bytes s. or_transient (c.put_object bucket key bytes s);
    create_multipart_upload =
        λ key s. or_missing "S3 returned no upload_id" (c.create_multipart_upload bucket key s);
    upload_part = λ key upload n bytes s.
        or_missing "S3 returned no ETag for part" (c.upload_part bucket key upload n bytes s);
    list_parts = λ key upload s. listed (c.list_parts bucket key upload s);
    complete_multipart_upload =
        λ key upload ps s. or_transient (c.complete_multipart_upload bucket key upload ps s);
    get_object = get_object;
    delete_object = λ key s. or_transient (c.delete_object bucket key s);
  }
