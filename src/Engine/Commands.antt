-- ===== src/Engine/Commands.antt =====
-- src/engine.rs: the record handlers that only read or register, and the loop of the actor over its
-- commands.
pub mod Loop
use squirreld.Prelude.{
  ℕ, zero, suc, ◌+◌, String, List, [], ◌∷◌, ◌++◌, Bool, true, false, Option, none, some,
  if◌then◌else◌, ltb, map,
}
use squirreld.Error.{Result, ok, err, panic}
use squirreld.Types.{
  Bytes, Record, RecordMeta, PutOpts, ListOpts, SortOrder, hlc_asc, hlc_desc, PendingError,
  IndexDef, PutBlobOpts, BlobInfo, QueryOpts, SyncStats,
}
use squirreld.Crypto.{Cipher}
use squirreld.Db.Sql.{RecordRow, OutboxEntry, Conn, Sql, lift, pure, continue, ◌>>=◌}
use squirreld.Db.Records
use squirreld.Db.Outbox.{list_pending_errors, clear_error}
use squirreld.Db.Index.{create_shadow_table, create_fts_table}
use squirreld.Engine.Blobs.{
  handle_put_blob, handle_blob_info, handle_get_blob, handle_register_remote_blob,
}
use squirreld.Engine.Queries.{to_metas, handle_query}
use squirreld.Engine.Rebuild.{handle_rebuild_indexes, handle_force_sync, handle_force_flush}
use squirreld.Engine.{ActorState, Inputs, insert_index, handle_put, handle_get, handle_delete}

-- `try_send` on the channel to the sync loop, which holds eight messages: one that does not fit is
-- dropped.
abbrev pub channel_len : ℕ
channel_len = 8

unfoldable pub kicked : Option ℕ → Option ℕ
kicked none = none
kicked (some n) = some (if ltb n channel_len then n + 1 else n)

unfoldable pub kick_sync : ActorState → ActorState
kick_sync s = record s { sync_trigger = kicked s.sync_trigger }

abbrev pub kick_if_ok : {A : Type 0} → Result A × ActorState → Result A × ActorState
kick_if_ok (ok a, s) = (ok a, kick_sync s)
kick_if_ok (err e, s) = (err e, s)
kick_if_ok (panic, s) = (panic, s)

abbrev pub is_asc : SortOrder → Bool
is_asc hlc_asc = true
is_asc hlc_desc = false

unfoldable pub handle_list :
    ActorState → (ℕ → ℕ) → String → ListOpts → Result (List RecordMeta) × ActorState
handle_list s wall collection opts =
    let (r, c) =
      (Records.list collection opts.limit opts.offset opts.include_deleted (is_asc opts.order)
          >>= (λ rows. lift (to_metas wall 0 rows)))
        s.conn in
    (r, record s { conn = c })

abbrev pub pending_error : OutboxEntry → PendingError
pending_error e = record {
  seq = e.seq;
  record_id = e.record_id;
  collection = e.collection;
  retries = e.retries;
  last_error = e.last_error;
  next_retry_at_ms = e.next_retry_at;
}

unfoldable pub handle_pending_errors : ActorState → Result (List PendingError) × ActorState
handle_pending_errors s =
    let (r, c) = (list_pending_errors >>= (λ es. pure (map pending_error es))) s.conn in
    (r, record s { conn = c })

abbrev pub register :
    IndexDef → ActorState → Result (Unit {0}) × Conn → Result (Unit {0}) × ActorState
register def s (ok u, c) =
    (ok u, record s { conn = c; indexes = insert_index def.collection def s.indexes })
register def s (err e, c) = (err e, record s { conn = c })
register def s (panic, c) = (panic, record s { conn = c })

unfoldable pub handle_register_index : ActorState → IndexDef → Result (Unit {0}) × ActorState
handle_register_index s def =
    register def s ((create_shadow_table def >>= (λ u. create_fts_table def)) s.conn)

unfoldable pub handle_clear_error : ActorState → ℕ → Result (Unit {0}) × ActorState
handle_clear_error s seq = let (r, c) = clear_error seq s.conn in (r, record s { conn = c })

pub data Command : Type 0 where
  put : (collection : String) (key : Option String) (payload : Bytes) (opts : PutOpts) → Command
  get : (collection key : String) → Command
  delete : (collection key : String) → Command
  list : (collection : String) (opts : ListOpts) → Command
  pending_errors : Command
  clear : (seq : ℕ) → Command
  register_index : (def : IndexDef) → Command
  put_blob : (key : Option String) (src_path : String) (opts : PutBlobOpts) → Command
  blob_info : (blob_id : String) → Command
  get_blob : (blob_id : String) → Command
  register_remote_blob : (blob_id : String) → Command
  force_sync : Command
  force_flush_blobs : Command
  query : (collection : String) (opts : QueryOpts) → Command
  rebuild_indexes : Command
  shutdown : Command

pub data Reply : Type 0 where
  put_reply : Result String → Reply
  get_reply : Result (Option Record) → Reply
  delete_reply : Result (Unit {0}) → Reply
  list_reply : Result (List RecordMeta) → Reply
  pending_errors_reply : Result (List PendingError) → Reply
  clear_reply : Result (Unit {0}) → Reply
  register_index_reply : Result (Unit {0}) → Reply
  put_blob_reply : Result String → Reply
  blob_info_reply : Result (Option BlobInfo) → Reply
  get_blob_reply : Result (Option String) → Reply
  register_remote_blob_reply : Result (Unit {0}) → Reply
  force_sync_reply : Result SyncStats → Reply
  force_flush_reply : Result (Unit {0}) → Reply
  query_reply : Result (List RecordMeta) → Reply
  rebuild_reply : Result ℕ → Reply

abbrev pub answer : {A : Type 0} → (Result A → Reply) → Result A × ActorState → Reply × ActorState
answer f (r, s) = (f r, s)

-- One turn of the loop; none for a shutdown.
unfoldable pub handle : Cipher → Inputs → Command → ActorState → Option (Reply × ActorState)
handle c i (put collection key payload opts) s =
    some (answer put_reply (kick_if_ok (handle_put c s i collection key payload opts)))
handle c i (get collection key) s =
    some (answer get_reply (handle_get c s i.wall_ms collection key))
handle c i (delete collection key) s =
    some (answer delete_reply (kick_if_ok (handle_delete s i collection key)))
handle c i (list collection opts) s =
    some (answer list_reply (handle_list s (λ k. i.wall_ms) collection opts))
handle c i pending_errors s = some (answer pending_errors_reply (handle_pending_errors s))
handle c i (clear seq) s = some (answer clear_reply (handle_clear_error s seq))
handle c i (register_index def) s = some (answer register_index_reply (handle_register_index s def))
handle c i (put_blob key src_path opts) s =
    some (answer put_blob_reply (handle_put_blob s i key src_path opts))
handle c i (blob_info blob_id) s = some (answer blob_info_reply (handle_blob_info s blob_id))
handle c i (get_blob blob_id) s = some (answer get_blob_reply (handle_get_blob s i blob_id))
handle c i (register_remote_blob blob_id) s =
    some (answer register_remote_blob_reply (handle_register_remote_blob s i blob_id))
handle c i force_sync s = some (answer force_sync_reply (handle_force_sync i.sync_reply s))
handle c i force_flush_blobs s =
    some (answer force_flush_reply (handle_force_flush i.flush_reply s))
handle c i (query collection opts) s =
    some (answer query_reply (handle_query i.select s (λ k. i.wall_ms) collection opts))
handle c i rebuild_indexes s = some (answer rebuild_reply (handle_rebuild_indexes c i.parse_json s))
handle c i shutdown s = none

abbrev pub turned : Option (Reply × ActorState) → ActorState → ActorState
turned none s = s
turned (some (reply, s')) s = s'

abbrev pub if_open :
    Option (Reply × ActorState)
    → List Reply × ActorState
    → List Reply × ActorState
    → List Reply × ActorState
if_open none ended rest = ended
if_open (some (reply, s')) ended (replies, final) = (reply ∷ replies, final)

-- The loop over the commands that come, each with what the environment gives to it; it ends at a
-- shutdown.
unfoldable pub actor_loop : Cipher → List (Inputs × Command) → ActorState → List Reply × ActorState
actor_loop c [] s = ([], s)
actor_loop c ((i, cmd) ∷ cmds) s =
    let (replies, final) = actor_loop c cmds (turned (handle c i cmd s) s) in
    if_open (handle c i cmd s) ([], s) (replies, final)
