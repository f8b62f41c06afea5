-- ===== src/Backend/InMemoryBlobs.antt =====
-- src/backend/in_memory.rs: the blob half. A HashMap is a list of which the first entry of a key counts.
pub mod Contract
use squirreld.Prelude.{
  ℕ, zero, suc, ◌+◌, ◌-◌, ◌*◌, ◌/◌, ◌%◌, ◌<◌, String, List, [], ◌∷◌, ◌++◌, ◌≡◌, refl, ◌∙◌, arith,
  Bool, true, false, Bool-cases, inl, inr, sym, ap, compare, Ordering, not, ◌&&◌, ◌||◌, Option,
  none, some, if◌then◌else◌, str_eq, ltb, length, ◌==◌, keep_if,
}
use Prim.Native.Char.{IsScalar, char, code}
use Prim.Native.String.{◌++◌ as ◌<>◌}
use squirreld.Prelude.Decimals.{to_string}
use squirreld.Types.{Bytes}
use squirreld.Backend.{BackendError, transient}
use squirreld.Backend.Blobs.{Answer, accepted, refused, UploadedPart, BlobBackend, joined}

pub record PendingPart : Type 0 where
  pub part_number : ℕ
  pub bytes : Bytes
  pub etag : String

pub record Session : Type 0 where
  pub key : String
  pub upload_id : String
  pub parts : List PendingPart

pub record InMemoryBlobStore : Type 0 where
  pub objects : List (String × Bytes)
  pub pending_parts : List Session
  pub next_upload_id : ℕ

abbrev pub new_store : InMemoryBlobStore
new_store = record { objects = []; pending_parts = []; next_upload_id = 1 }

unfoldable pub object_at : String → List (String × Bytes) → Option Bytes
object_at key [] = none
object_at key ((k, bytes) ∷ rest) = if str_eq k key then some bytes else object_at key rest

unfoldable pub remove_object : String → List (String × Bytes) → List (String × Bytes)
remove_object key [] = []
remove_object key ((k, bytes) ∷ rest) =
    let others = remove_object key rest in if str_eq k key then others else (k, bytes) ∷ others

abbrev pub insert_object : String → Bytes → List (String × Bytes) → List (String × Bytes)
insert_object key bytes objects = (key, bytes) ∷ remove_object key objects

unfoldable pub is_session : String → String → Session → Bool
is_session key upload s = str_eq s.key key && str_eq s.upload_id upload

-- `get(..).unwrap_or_default()`
unfoldable pub parts_of : String → String → List Session → List PendingPart
parts_of key upload [] = []
parts_of key upload (s ∷ ss) = if is_session key upload s then s.parts else parts_of key upload ss

unfoldable pub remove_session : String → String → List Session → List Session
remove_session key upload ss = keep_if (λ s. not (is_session key upload s)) ss

unfoldable pub part_at : ℕ → List PendingPart → Option Bytes
part_at n [] = none
part_at n (p ∷ ps) = if p.part_number == n then some p.bytes else part_at n ps

-- `entry(..).or_default().insert(..)`
unfoldable pub insert_pending : String → String → PendingPart → List Session → List Session
insert_pending key upload p ss =
    record { key = key; upload_id = upload; parts = p ∷ parts_of key upload ss }
    ∷ remove_session key upload ss

-- The entries of the map of parts, by their numbers; an entry stands for those behind it.
unfoldable pub insert_listed : UploadedPart → List UploadedPart → List UploadedPart
insert_listed p [] = p ∷ []
insert_listed p (q ∷ qs) =
    if ltb p.part_number q.part_number
    then p ∷ q ∷ qs
    else if p.part_number == q.part_number
    then p ∷ qs
    else q ∷ insert_listed p qs

unfoldable pub listed_parts : List PendingPart → List UploadedPart
listed_parts [] = []
listed_parts (p ∷ ps) =
    insert_listed (record { part_number = p.part_number; etag = p.etag }) (listed_parts ps)

-- `sort_by_key(|p| p.part_number)`, which is stable.
unfoldable pub insert_sorted : UploadedPart → List UploadedPart → List UploadedPart
insert_sorted p [] = p ∷ []
insert_sorted p (q ∷ qs) =
    if ltb q.part_number p.part_number then q ∷ insert_sorted p qs else p ∷ q ∷ qs

unfoldable pub sort_by_number : List UploadedPart → List UploadedPart
sort_by_number [] = []
sort_by_number (p ∷ ps) = insert_sorted p (sort_by_number ps)

-- A part that is not pending adds nothing.
unfoldable pub concatenated : List PendingPart → List UploadedPart → Bytes
concatenated pending [] = []
concatenated pending (p ∷ ps) = joined (part_at p.part_number pending) (concatenated pending ps)

unfoldable pub put_object :
    String → Bytes → InMemoryBlobStore → Answer BackendError (Unit {0}) × InMemoryBlobStore
put_object key bytes s = (accepted tt, record s { objects = insert_object key bytes s.objects })

-- A u64, which does not come near its bound.
unfoldable pub create_multipart_upload :
    String → InMemoryBlobStore → Answer BackendError String × InMemoryBlobStore
create_multipart_upload key s =
    (accepted (to_string s.next_upload_id), record s { next_upload_id = suc s.next_upload_id })

abbrev pub etag_of : String → String → ℕ → String
etag_of key upload n = "etag-" <> (key <> ("-" <> (upload <> ("-" <> to_string n))))

unfoldable pub upload_part :
    String → String → ℕ → Bytes → InMemoryBlobStore → Answer BackendError String × InMemoryBlobStore
upload_part key upload n bytes s =
    let etag = etag_of key upload n in
    (
      accepted etag,
      record s {
        pending_parts =
            insert_pending key upload (record { part_number = n; bytes = bytes; etag = etag })
              s.pending_parts;
      },
    )

unfoldable pub list_parts :
    String
    → String
    → InMemoryBlobStore
    → Answer BackendError (List UploadedPart) × InMemoryBlobStore
list_parts key upload s = (accepted (listed_parts (parts_of key upload s.pending_parts)), s)

unfoldable pub complete_multipart_upload :
    String
    → String
    → List UploadedPart
    → InMemoryBlobStore
    → Answer BackendError (Unit {0}) × InMemoryBlobStore
complete_multipart_upload key upload parts s =
    let pending = parts_of key upload s.pending_parts in
    (
      accepted tt,
      record s {
        pending_parts = remove_session key upload s.pending_parts;
        objects = insert_object key (concatenated pending (sort_by_number parts)) s.objects;
      },
    )

unfoldable pub delete_object :
    String → InMemoryBlobStore → Answer BackendError (Unit {0}) × InMemoryBlobStore
delete_object key s = (accepted tt, record s { objects = remove_object key s.objects })

module _ {F : Type 0} (write : String → Bytes → F → Answer String (Unit {0}) × F) where
  unfoldable pub written : ℕ → Answer String (Unit {0}) → Answer BackendError ℕ
  written n (accepted u) = accepted n
  written n (refused e) = refused (transient e)

  unfoldable pub download : String → String → Option Bytes → F → Answer BackendError ℕ × F
  download key dest none files = (refused (transient ("object not found: " <> key)), files)
  download key dest (some bytes) files =
      let (r, files') = write dest bytes files in (written (length bytes) r, files')

  unfoldable pub get_object :
      String → String → InMemoryBlobStore → F → Answer BackendError ℕ × InMemoryBlobStore × F
  get_object key dest s files =
      let (r, files') = download key dest (object_at key s.objects) files in (r, s, files')

  abbrev pub in_memory_blobs : String → BlobBackend InMemoryBlobStore F
  in_memory_blobs i = record {
    backend_id = i;
    put_object = put_object;
    create_multipart_upload = create_multipart_upload;
    upload_part = upload_part;
    list_parts = list_parts;
    complete_multipart_upload = complete_multipart_upload;
    get_object = get_object;
    delete_object = delete_object;
  }
