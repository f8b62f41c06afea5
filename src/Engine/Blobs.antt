-- ===== src/Engine/Blobs.antt =====
-- src/engine.rs: the handlers of blobs.
use squirreld.Prelude.{
  ℕ, String, List, [], ◌∷◌, ◌++◌, Bool, Option, none, some, if◌then◌else◌, str_eq, length, ltb,
}
use Prim.Native.String.{◌++◌ as ◌<>◌}
use squirreld.Error.{Result, ok, err, panic}
use squirreld.Types.{pending, from_db_str, PutBlobOpts, BlobInfo, BlobTrigger, stage, download}
use squirreld.Db.Sql.{BlobRow, Db, Conn, pure, ◌>>=◌}
use squirreld.Db.Blobs
use squirreld.Db.Blobs.{fresh, read_row, from_row}
use squirreld.Engine.{ActorState, Inputs, or_default}

-- `try_send` on the channel to the blob worker, which holds 32 messages: one that does not fit is
-- dropped.
abbrev pub blob_channel_len : ℕ
blob_channel_len = 32

unfoldable pub try_send : BlobTrigger → Option (List BlobTrigger) → Option (List BlobTrigger)
try_send t none = none
try_send t (some ts) = some (if ltb (length ts) blob_channel_len then ts ++ (t ∷ []) else ts)

abbrev pub s3_key_of : String → String
s3_key_of blob_id = "blobs/" <> blob_id

abbrev pub new_blob : String → PutBlobOpts → ℕ → BlobRow
new_blob blob_id opts now = record {
  id = blob_id;
  record_id = opts.record_id;
  collection = opts.collection;
  local_path = none;
  s3_key = s3_key_of blob_id;
  size_bytes = none;
  upload_id = none;
  status = "pending";
  format_version = 0;
  retries = 0;
  next_retry_at = 0;
  last_error = none;
  error_log = none;
  created_at = now;
  updated_at = now;
}

-- The insertion returned: the worker is told.
unfoldable pub staged :
    ActorState → String → String → Result (Unit {0}) × Conn → Result String × ActorState
staged s blob_id src (ok u, c) =
    (ok blob_id, record s { conn = c; blob_trigger = try_send (stage blob_id src) s.blob_trigger })
staged s blob_id src (err e, c) = (err e, record s { conn = c })
staged s blob_id src (panic, c) = (panic, record s { conn = c })

unfoldable pub put_unless :
    ActorState → String → String → PutBlobOpts → ℕ → Result Bool × Conn → Result String × ActorState
put_unless s blob_id src opts now (ok known, c) =
    if known
    then (ok blob_id, record s { conn = c })
    else staged s blob_id src (Blobs.insert (new_blob blob_id opts now) c)
put_unless s blob_id src opts now (err e, c) = (err e, record s { conn = c })
put_unless s blob_id src opts now (panic, c) = (panic, record s { conn = c })

unfoldable pub handle_put_blob :
    ActorState → Inputs → Option String → String → PutBlobOpts → Result String × ActorState
handle_put_blob s i key src opts =
    let blob_id = or_default key i.ulid in
    put_unless s blob_id src opts i.now_ms (Blobs.exists blob_id s.conn)

-- A status that `from_db_str` does not know, such as `download_pending`, counts as pending.
abbrev pub to_info : BlobRow → BlobInfo
to_info r = record {
  id = r.id;
  status = or_default (from_db_str r.status) pending;
  local_path = r.local_path;
  size_bytes = r.size_bytes;
  retries = r.retries;
  last_error = r.last_error;
}

abbrev info_of : Option BlobRow → Option BlobInfo
info_of none = none
info_of (some r) = some (to_info r)

unfoldable pub handle_blob_info : ActorState → String → Result (Option BlobInfo) × ActorState
unfolding info_of
handle_blob_info s blob_id =
    let (r, c) = (Blobs.get blob_id >>= (λ row. pure (info_of row))) s.conn in
    (r, record s { conn = c })

unfoldable pub handle_register_remote_blob :
    ActorState → Inputs → String → Result (Unit {0}) × ActorState
handle_register_remote_blob s i blob_id =
    let (r, c) = Blobs.register_for_download blob_id (s3_key_of blob_id) i.now_ms s.conn in
    (r, record s { conn = c })

abbrev pub local_file : (String → Bool) → Option String → Option String
local_file exists none = none
local_file exists (some p) = if exists p then some p else none

-- No file: an uploaded blob is asked for.
abbrev pub asked : BlobRow → String → ActorState → ActorState
asked r blob_id s =
    if str_eq r.status "uploaded"
    then record s { blob_trigger = try_send (download blob_id) s.blob_trigger }
    else s

abbrev pub or_ask :
    Option String → BlobRow → String → ActorState → Result (Option String) × ActorState
or_ask (some p) r blob_id s = (ok (some p), s)
or_ask none r blob_id s = (ok none, asked r blob_id s)

unfoldable pub get_row :
    Inputs → String → Result (Option BlobRow) → ActorState → Result (Option String) × ActorState
get_row i blob_id (ok none) s = (ok none, s)
get_row i blob_id (ok (some r)) s = or_ask (local_file i.path_exists r.local_path) r blob_id s
get_row i blob_id (err e) s = (err e, s)
get_row i blob_id panic s = (panic, s)

unfoldable pub handle_get_blob : ActorState → Inputs → String → Result (Option String) × ActorState
handle_get_blob s i blob_id =
    let (r, c) = Blobs.get blob_id s.conn in get_row i blob_id r (record s { conn = c })
