-- ===== src/Tests/Uploads.antt =====
-- src/blob/worker.rs at concrete runs: a file of five bytes in chunks of two, on files in memory.
use squirreld.Prelude.{
  ℕ, ◌+◌, ◌-◌, ◌/◌, ◌^◌, ◌<◌, String, List, [], ◌∷◌, ◌++◌, ◌≡◌, ◌≢◌, refl, ap, ◌∙◌, arith, Option,
  none, some, if◌then◌else◌, eq_iff, leb, length, take, drop,
}
use Prim.Native.String.{◌++◌ as ◌<>◌}
use squirreld.Types.{PutBlobOpts, Bytes, SyncEvent, blob_uploaded, tick, force_flush, download}
use squirreld.Db.Sql.{BlobRow, healthy, empty_db}
use squirreld.Backend.Blobs.{Answer, accepted, refused}
use squirreld.Backend.InMemoryBlobs.{
  InMemoryBlobStore, new_store, object_at, insert_object, parts_of, part_at, is_session,
  in_memory_blobs, put_object, create_multipart_upload, upload_part, list_parts,
  complete_multipart_upload,
}
use squirreld.Prelude.Decimals.{to_string, digits}
use squirreld.Backend.InMemoryBlobs.Contract.{
  given, in_memory_shown, object_at-insert_object, in_memory-IsBlobBackend,
}
use squirreld.Blob.{Files, IsFiles, World, done}
use squirreld.Blob.Worker.{BlobWorker, total_parts, run_upload_cycle, upload_blob}
use squirreld.Blob.Sound.Row.{Watched, Uploaded, Good}
use squirreld.Blob.Sound.{Sound}
use squirreld.Blob.Cycle.{run_upload_cycle-Sound}
use squirreld.Blob.Progress.Rules.{Accepts, Readable, Marked}
use squirreld.Blob.Progress.{upload_blob_uploads}
use squirreld.Backend.Blobs.{IsBlobBackend}
use squirreld.Blob.Loop.{Wakeup, elapsed, closed, received, run, flushes, run-flushes}
use squirreld.Tests.Data.{char_log}

abbrev Disk : Type 0
Disk = List (String × Bytes)

abbrev content : Disk → String → Option Bytes
content s p = object_at p s

abbrev or_missing : {A : Type 0} → Option Bytes → (Bytes → Answer String A) → Answer String A
or_missing none f = refused "not found"
or_missing (some bytes) f = f bytes

abbrev exactly : ℕ → ℕ → Bytes → Answer String Bytes
exactly off n bytes =
    if leb n (length bytes - off)
    then accepted (take n (drop off bytes))
    else refused "failed to fill whole buffer"

abbrev copied : String → Option Bytes → Disk → Disk
copied dest none s = s
copied dest (some bytes) s = insert_object dest bytes s

abbrev disk : Files Disk
disk = record {
  copy = λ src dest s.
      (or_missing (content s src) (λ b. accepted (length b)), copied dest (content s src) s);
  len = λ p s. (or_missing (content s p) (λ b. accepted (length b)), s);
  read = λ p s. (or_missing (content s p) accepted, s);
  open_file = λ p s. (or_missing (content s p) (λ b. accepted tt), s);
  read_exact = λ p off n s. (or_missing (content s p) (exactly off n), s);
  join = λ dir name. dir <> ("/" <> name);
}

found :
    {A : Type 0} (o : Option Bytes) (f : Bytes → Answer String A) (a : A)
    → or_missing o f ≡ accepted a
    → (bytes : Bytes) × (o ≡ some bytes) × (f bytes ≡ accepted a)
found none f a e = absurd (ground (arith, e))
found (some bytes) f a e = (bytes, refl, e)

disk-Readable : Readable disk content
disk-Readable = record {
  len = λ p s bytes h. rw h refl;
  read = λ p s bytes h. rw h refl;
  open_file = λ p s bytes h. rw h refl;
  read_exact = λ p off n s bytes h small. (take n (drop off bytes), rw h (ground (arith, small)));
}

tells :
    (s : Disk) (p : String) (n : ℕ)
    → or_missing (content s p) (λ b. accepted (length b)) ≡ accepted n
    → (bytes : Bytes) × (content s p ≡ some bytes) × (n ≡ length bytes)
tells s p n e =
    let (b, q, r) = found (content s p) (λ b. accepted (length b)) n e in (b, q, ground (arith, r))

kept_by_copy :
    (src dest q : String) (o : Option Bytes) (s : Disk)
    → q ≢ dest
    → content (copied dest o s) q ≡ content s q
kept_by_copy src dest q none s ne = refl
kept_by_copy src dest q (some b) s ne =
    ground (arith, ne, eq_iff dest q, object_at-insert_object dest q b s)

copies :
    (dest : String) (o : Option Bytes) (s : Disk) (n : ℕ)
    → or_missing o (λ b. accepted (length b)) ≡ accepted n
    → (bytes : Bytes) × (o ≡ some bytes)
      × (content (copied dest o s) dest ≡ some bytes)
      × (n ≡ length bytes)
copies dest none s n e = absurd (ground (arith, e))
copies dest (some b) s n e = (
  b,
  refl,
  ground (arith, eq_iff dest dest, object_at-insert_object dest dest b s),
  ground (arith, e),
)

disk-IsFiles : IsFiles disk content
disk-IsFiles = record {
  len_keeps = λ p s q. refl;
  read_keeps = λ p s q. refl;
  open_keeps = λ p s q. refl;
  exact_keeps = λ p off n s q. refl;
  copy_keeps = λ src dest s q ne. kept_by_copy src dest q (content s src) s ne;
  len_tells = λ p s n e. tells s p n e;
  read_reads = λ p s bytes e.
      let (b, q, r) = found (content s p) accepted bytes e in
      let same : b ≡ bytes = ground (arith, r) in q ∙ ap (λ d. some d) same;
  exact_reads = λ p off n s part e.
      let (b, q, r) = found (content s p) (exactly off n) part e in (b, q, ground (arith, r));
  copy_copies = λ src dest s n e. copies dest (content s src) s n e;
}

abbrev no_write : String → Bytes → Disk → Answer String (Unit {0}) × Disk
no_write dest bytes s = (accepted tt, insert_object dest bytes s)

abbrev worker : BlobWorker InMemoryBlobStore Disk
worker = record {
  files = disk;
  cache_dir = "/cache";
  backend = in_memory_blobs no_write "memory";
  chunk_size = 2;
  now = λ n. 100 + n;
}

memory-Accepts : Accepts worker.backend
unfolding put_object create_multipart_upload upload_part list_parts complete_multipart_upload
memory-Accepts = record {
  put = λ key bytes s. refl;
  create = λ key s. (to_string s.next_upload_id, refl);
  upload = λ key upload n bytes s. (_, refl);
  list = λ key upload s. (_, refl);
  complete = λ key upload ps s. refl;
}

abbrev photo : Watched
photo = record {
  id = "b1";
  key = "photos/b1";
  path = "/cache/b1";
  bytes = 11 ∷ 12 ∷ 13 ∷ 14 ∷ 15 ∷ [];
}

abbrev row_of : String → Option String → BlobRow
row_of status upload_id = record {
  id = "b1";
  record_id = none;
  collection = none;
  local_path = some "/cache/b1";
  s3_key = "photos/b1";
  size_bytes = some 5;
  upload_id = upload_id;
  status = status;
  format_version = 0;
  retries = 0;
  next_retry_at = 0;
  last_error = none;
  error_log = none;
  created_at = 1;
  updated_at = 1;
}

-- The second part of the session `1` was sent before the worker stopped.
abbrev interrupted_store : InMemoryBlobStore
interrupted_store = record {
  objects = [];
  pending_parts =
      record {
        key = "photos/b1";
        upload_id = "1";
        parts = record { part_number = 2; bytes = 13 ∷ 14 ∷ []; etag = "e" } ∷ [];
      }
      ∷ [];
  next_upload_id = 2;
}

abbrev world_of : BlobRow → InMemoryBlobStore → World InMemoryBlobStore Disk
world_of row store = record {
  conn = healthy (record empty_db { blobs = row ∷ [] });
  remote = store;
  files = ("/cache/b1", photo.bytes) ∷ [];
  events = [];
  readings = 0;
}

abbrev interrupted : World InMemoryBlobStore Disk
interrupted = world_of (row_of "uploading" (some "1")) interrupted_store

only_part :
    (upload : String) (n : ℕ) (bytes : Bytes)
    → in_memory_shown.part interrupted_store "photos/b1" upload n ≡ some bytes
    → ("1" ≡ upload) × (n ≡ 2) × (bytes ≡ 13 ∷ 14 ∷ [])
unfolding part_at parts_of is_session
only_part upload n bytes h = ground (arith, h, eq_iff "1" upload)

interrupted-Sound : Sound in_memory_shown content 2 photo interrupted
unfolding given to_string digits object_at total_parts
interrupted-Sound = record {
  kept = refl;
  rows = (
    record {
      mine = λ e. record {
        same_key = refl;
        same_path = refl;
        same_size = λ n q. ground (arith, q);
        resumable = λ upload q. (
          ground (arith, q, eq_iff "1" upload),
          λ n bytes h.
              let (u, m, b) = only_part upload n bytes h in
              rw (m, b) (omega arith, omega arith, refl),
        );
        stored = λ q. absurd (ground (arith, q, eq_iff "uploading" "uploaded"));
      };
      keyed = λ e. refl;
    },
    tt,
  );
  told = tt;
  clean = λ upload n bytes h.
      let (u, m, b) = only_part upload n bytes h in ground (arith, u, eq_iff "1" upload);
}

few_chunks : (length photo.bytes + worker.chunk_size - 1) / worker.chunk_size < 2 ^ 31
few_chunks = omega arith

run_upload_cycle-Sound_example :
    Sound in_memory_shown content 2 photo (run_upload_cycle worker char_log interrupted).1
run_upload_cycle-Sound_example =
    run_upload_cycle-Sound worker char_log in_memory_shown content photo
      (in_memory-IsBlobBackend no_write "memory") disk-IsFiles (omega arith) few_chunks interrupted
      interrupted-Sound

abbrev fresh_world : World InMemoryBlobStore Disk
fresh_world = world_of (row_of "pending" none) new_store

fresh-Good : Good in_memory_shown 2 photo new_store (row_of "pending" none)
fresh-Good = record {
  same_key = refl;
  same_path = refl;
  same_size = λ n q. ground (arith, q);
  resumable = λ upload q. absurd (ground (arith, q));
  stored = λ q. absurd (ground (arith, q, eq_iff "pending" "uploaded"));
}

fresh-Sound : Sound in_memory_shown content 2 photo fresh_world
unfolding object_at parts_of part_at
fresh-Sound = record {
  kept = refl;
  rows = (record { mine = λ e. fresh-Good; keyed = λ e. refl }, tt);
  told = tt;
  clean = λ upload n bytes h. absurd (ground (arith, h));
}

upload_blob_uploads_example :
    ((upload_blob worker char_log (row_of "pending" none) fresh_world).0 ≡ done tt)
    × Uploaded in_memory_shown 2 photo
        (upload_blob worker char_log (row_of "pending" none) fresh_world).1.remote
    × Marked "b1" (upload_blob worker char_log (row_of "pending" none) fresh_world).1.conn.tables
    × ((es : List SyncEvent) × ((upload_blob worker char_log
            (row_of "pending" none)
            fresh_world).1.events
          ≡ es ++ (blob_uploaded "b1" ∷ [])))
upload_blob_uploads_example =
    upload_blob_uploads worker char_log in_memory_shown content photo
      (in_memory-IsBlobBackend no_write "memory") disk-IsFiles disk-Readable memory-Accepts
      (omega arith) few_chunks fresh_world (row_of "pending" none) fresh-Sound refl fresh-Good refl
      refl

in_memory-IsBlobBackend_example : IsBlobBackend (in_memory_blobs no_write "memory") in_memory_shown
in_memory-IsBlobBackend_example = in_memory-IsBlobBackend no_write "memory"

abbrev wakeups : List Wakeup
wakeups =
    received tick
    ∷ received (force_flush 7)
    ∷ received (download "b1")
    ∷ elapsed
    ∷ received (force_flush 8)
    ∷ closed
    ∷ received (force_flush 9)
    ∷ []

run-flushes_example :
    ((run worker char_log wakeups interrupted).0 ≡ done (flushes wakeups))
    × ((run worker char_log wakeups interrupted).1.conn.faults ≡ [])
run-flushes_example = run-flushes worker char_log wakeups interrupted refl

abbrev photo_opts : PutBlobOpts
photo_opts = record { record_id = none; collection = none }
