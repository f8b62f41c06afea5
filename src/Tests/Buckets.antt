-- ===== src/Tests/Buckets.antt =====
-- src/backend/s3.rs over the blob store in memory.
use squirreld.Prelude.{
  ℕ, String, List, [], ◌∷◌, ◌≡◌, refl, ap, ◌∙◌, arith, true, ◌||◌, ◌==◌, Option, none, some,
  eq_refl, length, map, All,
}
use squirreld.Types.{Bytes}
use squirreld.Backend.Blobs.{
  Answer, accepted, refused, UploadedPart, has_part, Distinct, is_there, StillIssued, IsBlobBackend,
}
use squirreld.Prelude.Decimals.{to_string}
use squirreld.Backend.InMemoryBlobs.{
  InMemoryBlobStore, object_at, insert_object, new_store, listed_parts, parts_of, etag_of,
  put_object, create_multipart_upload, upload_part, list_parts, complete_multipart_upload,
  delete_object, in_memory_blobs,
}
use squirreld.Backend.InMemoryBlobs.Contract.{
  in_memory_shown, object_at-insert_object, in_memory-IsBlobBackend,
}
use squirreld.Backend.S3
use squirreld.Backend.S3.{Part, get_object, s3}
use squirreld.Backend.S3.Contract.Answers.{numbered, Once}
use squirreld.Backend.S3.Contract.{
  Call, put_call, create_call, upload_call, list_call, complete_call, after, Effect, IsPart, IsS3,
  s3-IsBlobBackend, get_object_lem,
}
use squirreld.Tests.Remotes.{answer_is}

as_part : UploadedPart → Part
as_part p = record { part_number = some p.part_number; e_tag = some p.etag }

abbrev body_of : Option Bytes → Answer String (Answer String Bytes)
body_of none = refused "NoSuchKey"
body_of (some bytes) = accepted (accepted bytes)

abbrev buckets : S3.Client InMemoryBlobStore
buckets = record {
  head_bucket = λ b s. accepted tt;
  create_bucket = λ b region s. (accepted tt, s);
  put_object = λ b key bytes s. (accepted tt, (put_object key bytes s).1);
  create_multipart_upload =
      λ b key s. (accepted (some (to_string s.next_upload_id)), (create_multipart_upload key s).1);
  upload_part = λ b key upload n bytes s.
      (accepted (some (etag_of key upload n)), (upload_part key upload n bytes s).1);
  list_parts = λ b key upload s.
      (accepted (map as_part (listed_parts (parts_of key upload s.pending_parts))), s);
  complete_multipart_upload =
      λ b key upload ps s. (accepted tt, (complete_multipart_upload key upload ps s).1);
  get_object = λ b key s. (body_of (object_at key s.objects), s);
  delete_object = λ b key s. (accepted tt, (delete_object key s).1);
}

no_write : String → Bytes → Unit {0} → Answer String (Unit {0}) × Unit {0}
no_write p bytes f = (refused "read only", f)

abbrev store_law : IsBlobBackend (in_memory_blobs no_write "memory") in_memory_shown
store_law = in_memory-IsBlobBackend no_write "memory"

numbered-as_part : (n : ℕ) (ps : List UploadedPart) → numbered n (map as_part ps) ≡ has_part n ps
unfolding as_part has_part
numbered-as_part n [] = refl
numbered-as_part n (p ∷ ps) = ap (λ b. p.part_number == n || b) (numbered-as_part n ps)

Once-as_part : (ps : List UploadedPart) → Distinct ps → Once (map as_part ps)
unfolding as_part
Once-as_part [] d = tt
Once-as_part (p ∷ ps) d = (numbered-as_part p.part_number ps ∙ d.0, Once-as_part ps d.1)

abbrev There : String → String → InMemoryBlobStore → List UploadedPart → Type 0
There key upload s ps =
    (n : ℕ) → has_part n ps ≡ true → is_there (in_memory_shown.part s key upload n) ≡ true

all_parts :
    (s : InMemoryBlobStore) (key upload : String) (ps : List UploadedPart)
    → There key upload s ps
    → All (IsPart buckets in_memory_shown "blobs" s key upload) (map as_part ps)
unfolding as_part has_part
all_parts s key upload [] there = tt
all_parts s key upload (p ∷ ps) there = (
  there p.part_number (ground arith),
  all_parts s key upload ps (λ n h. there n (ground (arith, h))),
)

body-ok :
    (o : Option Bytes) (bytes : Bytes) → body_of o ≡ accepted (accepted bytes) → o ≡ some bytes
body-ok none bytes h = absurd (cc)
body-ok (some b) bytes h = cc

buckets-Effect :
    (call : Call) (s : InMemoryBlobStore)
    → Effect buckets in_memory_shown "blobs" call s (after buckets in_memory_shown "blobs" call s)
unfolding list_parts
buckets-Effect (put_call key bytes) s = store_law.put_keeps key bytes s
buckets-Effect (create_call key) s = store_law.create_keeps key s
buckets-Effect (upload_call key upload n bytes) s =
    (store_law.upload_objects key upload n bytes s, store_law.upload_parts key upload n bytes s)
buckets-Effect (list_call key upload) s = store_law.list_keeps key upload s
buckets-Effect (complete_call key upload ps) s = store_law.complete_keeps key upload ps s

buckets-StillIssued :
    (call : Call) (s : InMemoryBlobStore)
    → StillIssued in_memory_shown s (after buckets in_memory_shown "blobs" call s)
unfolding list_parts
buckets-StillIssued (put_call key bytes) s = store_law.put_issued key bytes s
buckets-StillIssued (create_call key) s = store_law.create_issued key s
buckets-StillIssued (upload_call key upload n bytes) s =
    store_law.upload_issued key upload n bytes s
buckets-StillIssued (list_call key upload) s = store_law.list_issued key upload s
buckets-StillIssued (complete_call key upload ps) s = store_law.complete_issued key upload ps s

buckets-IsS3 : IsS3 buckets in_memory_shown "blobs"
unfolding put_object create_multipart_upload upload_part list_parts complete_multipart_upload
buckets-IsS3 = record {
  effect = buckets-Effect;
  issued = buckets-StillIssued;
  put_stores = λ key bytes s h. store_law.put_stores key bytes s refl;
  create_new = λ key upload s h. store_law.create_new key upload s (cc h);
  upload_stores =
      λ key upload etag n bytes s h. store_law.upload_stores key upload etag n bytes s (cc h);
  list_tells = λ key upload ps s h.
      let ps' = listed_parts (parts_of key upload s.pending_parts) in
      rw (← answer_is _ _ h)
        (all_parts s key upload ps' (store_law.list_lists key upload ps' s refl));
  list_once = λ key upload ps s h.
      let ps' = listed_parts (parts_of key upload s.pending_parts) in
      rw (← answer_is _ _ h) (Once-as_part ps' (store_law.list_distinct key upload ps' s refl));
  complete_stores =
      λ key upload ps s rising h. store_law.complete_stores key upload ps s rising refl;
  get_gives = λ key bytes s h. body-ok (object_at key s.objects) bytes h;
}

stored_object :
    (p : String) (bytes : Bytes) (f : List (String × Bytes))
    → object_at p (insert_object p bytes f) ≡ some bytes
stored_object p bytes f = rw (object_at-insert_object p p bytes f, eq_refl p) refl

got_three :
    (get_object buckets
      (λ p bytes f. (accepted tt, insert_object p bytes f))
      "blobs"
      "k1"
      "/tmp/b1"
      (record new_store { objects = insert_object "k1" (7 ∷ 8 ∷ 9 ∷ []) [] })
      []).0
    ≡ accepted 3
unfolding get_object insert_object object_at
got_three = refl

s3-IsBlobBackend_example : IsBlobBackend (s3 buckets no_write "blobs") in_memory_shown
s3-IsBlobBackend_example = s3-IsBlobBackend buckets-IsS3 no_write

abbrev to_disk :
    String → Bytes → List (String × Bytes) → Answer String (Unit {0}) × List (String × Bytes)
to_disk p bytes f = (accepted tt, insert_object p bytes f)

abbrev one_object : InMemoryBlobStore
one_object = record new_store { objects = insert_object "k1" (7 ∷ 8 ∷ 9 ∷ []) [] }

get_object_lem_example :
    (bytes : Bytes) × (object_at "k1" one_object.objects ≡ some bytes)
    × (object_at "/tmp/b1" (get_object buckets to_disk "blobs" "k1" "/tmp/b1" one_object []).2
        ≡ some bytes)
    × (3 ≡ length bytes)
get_object_lem_example =
    get_object_lem buckets-IsS3 to_disk (λ f p. object_at p f)
      (λ p bytes f h. stored_object p bytes f) "k1" "/tmp/b1" one_object [] 3 got_three
