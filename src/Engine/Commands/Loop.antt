-- ===== src/Engine/Commands/Loop.antt =====
-- src/engine.rs, `actor_loop` and `handle_register_index`.
use squirreld.Prelude.{
  ℕ, ◌<◌, ◌≤◌, String, List, [], ◌∷◌, ◌≡◌, ◌⊎◌, inr, Bool, true, false, refl, ◌∙◌, arith, Option,
  none, some, if◌then◌else◌, str_eq, eq_iff, ◌&&◌,
}
use squirreld.Error.{Result, ok, err, panic}
use squirreld.Hlc.{Hlc, tick, saturating_succ}
use squirreld.Types.{Bytes, PutOpts, IndexDef}
use squirreld.Crypto.{Cipher}
use squirreld.Db.Sql.{Conn, ◌>>=◌}
use squirreld.Db.Outcome.{is_ok}
use squirreld.Db.Index.{create_shadow_table, create_fts_table}
use squirreld.Db.Sql.{BlobRow}
use squirreld.Db.Blobs
use squirreld.Types.{PutBlobOpts, download}
use squirreld.Engine.Blobs.{
  staged, put_unless, asked, or_ask, get_row, local_file, try_send, handle_put_blob,
  handle_blob_info, handle_get_blob, handle_register_remote_blob,
}
use squirreld.Engine.Queries.{handle_query}
use squirreld.Engine.Rebuild.{handle_rebuild_indexes, handle_force_sync, handle_force_flush}
use squirreld.Engine.{
  or_default, ActorState, Inputs, finish, put_stored, handle_put, handle_get, handle_delete,
  index_of, insert_index,
}
use squirreld.Engine.Encryption.{Stored}
use squirreld.Engine.Commands.{
  Command, put, get, delete, list, pending_errors, clear, register_index, put_blob, blob_info,
  get_blob, register_remote_blob, force_sync, force_flush_blobs, query, rebuild_indexes, shutdown,
  Reply, kick_sync, kick_if_ok, register, handle_register_index, handle_list, handle_pending_errors,
  handle_clear_error, handle, turned, if_open, actor_loop,
}

-- The second clock is of the same node and not before the first, in time and then in the counter.
pub record NotBefore (h h' : Hlc) : Type 0 where
  pub same_node : h'.node_id ≡ h.node_id
  pub later :
      (h.physical_ms < h'.physical_ms)
      ⊎ ((h.physical_ms ≡ h'.physical_ms) × (h.logical ≤ h'.logical))

NotBefore-refl : (h : Hlc) → NotBefore h h
NotBefore-refl h = record { same_node = refl; later = inr (refl, omega arith) }

NotBefore-trans : (a b c : Hlc) → NotBefore a b → NotBefore b c → NotBefore a c
NotBefore-trans a b c p q = record {
  same_node = q.same_node ∙ p.same_node;
  later = ground (arith, p.later, q.later);
}

tick-NotBefore : (wall_ms : ℕ) (h : Hlc) → h.logical < 65536 → NotBefore h (tick wall_ms h)
unfolding tick saturating_succ
tick-NotBefore wall_ms h v = record { same_node = refl; later = ground arith }

tick_u16 : (wall_ms : ℕ) (h : Hlc) → (tick wall_ms h).logical < 65536
unfolding tick saturating_succ
tick_u16 wall_ms h = ground arith

-- The clock is not before `h`, and its counter is a u16.
abbrev pub GoesOn : Hlc → Hlc → Type 0
GoesOn h h' = NotBefore h h' × (h'.logical < 65536)

stays : (h : Hlc) → h.logical < 65536 → GoesOn h h
stays h v = (NotBefore-refl h, v)

ticks : (wall_ms : ℕ) (h : Hlc) → h.logical < 65536 → GoesOn h (tick wall_ms h)
ticks wall_ms h v = (tick-NotBefore wall_ms h v, tick_u16 wall_ms h)

finish-GoesOn :
    {A : Type 0} (s : ActorState) (wall_ms : ℕ) (a : A) (r : Result (Unit {0})) (c : Conn)
    → s.last_hlc.logical < 65536
    → GoesOn s.last_hlc (finish s (tick wall_ms s.last_hlc) a (r, c)).1.last_hlc
finish-GoesOn s wall_ms a (ok u) c v = ticks wall_ms s.last_hlc v
finish-GoesOn s wall_ms a (err e) c v = stays s.last_hlc v
finish-GoesOn s wall_ms a panic c v = stays s.last_hlc v

put_stored-GoesOn :
    (c : Cipher) (s : ActorState) (i : Inputs) (collection key : String) (payload : Bytes)
    (opts : PutOpts) (r : Result Stored)
    → s.last_hlc.logical < 65536
    → GoesOn s.last_hlc (put_stored c s i collection key payload opts r).1.last_hlc
unfolding put_stored
put_stored-GoesOn c s i collection key payload opts (ok stored) v =
    finish-GoesOn s i.wall_ms key _ _ v
put_stored-GoesOn c s i collection key payload opts (err e) v = stays s.last_hlc v
put_stored-GoesOn c s i collection key payload opts panic v = stays s.last_hlc v

kicked-GoesOn :
    {A : Type 0} (h : Hlc) (r : Result A) (s : ActorState)
    → GoesOn h s.last_hlc
    → GoesOn h (kick_if_ok (r, s)).1.last_hlc
unfolding kick_sync
kicked-GoesOn h (ok a) s g = g
kicked-GoesOn h (err e) s g = g
kicked-GoesOn h panic s g = g

register-GoesOn :
    (def : IndexDef) (s : ActorState) (r : Result (Unit {0})) (c : Conn)
    → s.last_hlc.logical < 65536
    → GoesOn s.last_hlc (register def s (r, c)).1.last_hlc
register-GoesOn def s (ok u) c v = stays s.last_hlc v
register-GoesOn def s (err e) c v = stays s.last_hlc v
register-GoesOn def s panic c v = stays s.last_hlc v

staged-GoesOn :
    (s : ActorState) (blob_id src : String) (r : Result (Unit {0}) × Conn)
    → s.last_hlc.logical < 65536
    → GoesOn s.last_hlc (staged s blob_id src r).1.last_hlc
unfolding staged
staged-GoesOn s blob_id src (ok u, c) v = stays s.last_hlc v
staged-GoesOn s blob_id src (err e, c) v = stays s.last_hlc v
staged-GoesOn s blob_id src (panic, c) v = stays s.last_hlc v

unless-GoesOn :
    (s : ActorState) (blob_id src : String) (opts : PutBlobOpts) (now : ℕ) (r : Result Bool × Conn)
    → s.last_hlc.logical < 65536
    → GoesOn s.last_hlc (put_unless s blob_id src opts now r).1.last_hlc
unfolding put_unless
unless-GoesOn s blob_id src opts now (ok true, c) v = stays s.last_hlc v
unless-GoesOn s blob_id src opts now (ok false, c) v = staged-GoesOn s blob_id src _ v
unless-GoesOn s blob_id src opts now (err e, c) v = stays s.last_hlc v
unless-GoesOn s blob_id src opts now (panic, c) v = stays s.last_hlc v

asked-GoesOn :
    (r : BlobRow) (blob_id : String) (s : ActorState)
    → s.last_hlc.logical < 65536
    → GoesOn s.last_hlc (asked r blob_id s).last_hlc
asked-GoesOn r blob_id s v = go (str_eq r.status "uploaded")
  where
    go :
        (b : Bool)
        → GoesOn s.last_hlc
            (if b
              then record s { blob_trigger = try_send (download blob_id) s.blob_trigger }
              else s).last_hlc
    go true = stays s.last_hlc v
    go false = stays s.last_hlc v

get_row-GoesOn :
    (i : Inputs) (blob_id : String) (r : Result (Option BlobRow)) (s : ActorState)
    → s.last_hlc.logical < 65536
    → GoesOn s.last_hlc (get_row i blob_id r s).1.last_hlc
unfolding get_row
get_row-GoesOn i blob_id (ok none) s v = stays s.last_hlc v
get_row-GoesOn i blob_id (ok (some r)) s v = go (local_file i.path_exists r.local_path)
  where
    go : (o : Option String) → GoesOn s.last_hlc (or_ask o r blob_id s).1.last_hlc
    go none = asked-GoesOn r blob_id s v
    go (some p) = stays s.last_hlc v
get_row-GoesOn i blob_id (err e) s v = stays s.last_hlc v
get_row-GoesOn i blob_id panic s v = stays s.last_hlc v

abbrev TurnGoesOn : Hlc → Option (Reply × ActorState) → Type 0
TurnGoesOn h none = Unit
TurnGoesOn h (some (reply, s)) = GoesOn h s.last_hlc

handle-GoesOn :
    (c : Cipher) (i : Inputs) (cmd : Command) (s : ActorState)
    → s.last_hlc.logical < 65536
    → TurnGoesOn s.last_hlc (handle c i cmd s)
unfolding handle handle_put handle_delete handle_get handle_list handle_pending_errors
    handle_clear_error handle_register_index handle_put_blob handle_blob_info handle_get_blob
    handle_register_remote_blob handle_query handle_rebuild_indexes handle_force_sync
    handle_force_flush
handle-GoesOn c i (put collection key payload opts) s v =
    kicked-GoesOn s.last_hlc _ _ (put_stored-GoesOn c s i collection _ payload opts _ v)
handle-GoesOn c i (get collection key) s v = stays s.last_hlc v
handle-GoesOn c i (delete collection key) s v =
    kicked-GoesOn s.last_hlc _ _ (finish-GoesOn s i.wall_ms tt _ _ v)
handle-GoesOn c i (list collection opts) s v = stays s.last_hlc v
handle-GoesOn c i pending_errors s v = stays s.last_hlc v
handle-GoesOn c i (clear seq) s v = stays s.last_hlc v
handle-GoesOn c i (register_index def) s v = register-GoesOn def s _ _ v
handle-GoesOn c i (put_blob key src_path opts) s v =
    unless-GoesOn s _ src_path opts i.now_ms (Blobs.exists (or_default key i.ulid) s.conn) v
handle-GoesOn c i (blob_info blob_id) s v = stays s.last_hlc v
handle-GoesOn c i (get_blob blob_id) s v = get_row-GoesOn i blob_id _ _ v
handle-GoesOn c i (register_remote_blob blob_id) s v = stays s.last_hlc v
handle-GoesOn c i force_sync s v = stays s.last_hlc v
handle-GoesOn c i force_flush_blobs s v = stays s.last_hlc v
handle-GoesOn c i (query collection opts) s v = stays s.last_hlc v
handle-GoesOn c i rebuild_indexes s v = stays s.last_hlc v
handle-GoesOn c i shutdown s v = tt

turned_u16 :
    (o : Option (Reply × ActorState)) (s : ActorState)
    → s.last_hlc.logical < 65536
    → TurnGoesOn s.last_hlc o
    → (turned o s).last_hlc.logical < 65536
turned_u16 none s v g = v
turned_u16 (some (reply, s')) s v g = g.1

after_turn :
    (o : Option (Reply × ActorState)) (s : ActorState) (rest : List Reply × ActorState)
    → TurnGoesOn s.last_hlc o
    → NotBefore (turned o s).last_hlc rest.1.last_hlc
    → NotBefore s.last_hlc (if_open o ([], s) rest).1.last_hlc
after_turn none s rest g h = NotBefore-refl s.last_hlc
after_turn (some (reply, s')) s rest g h = NotBefore-trans s.last_hlc s'.last_hlc _ g.0 h

-- For a clock with a u16 counter, over any run of the actor, whatever the commands, the wall clock
-- and the failures, the clock of the engine never goes back and keeps its node.
pub actor_loop-NotBefore :
    (c : Cipher) (cmds : List (Inputs × Command)) (s : ActorState)
    → s.last_hlc.logical < 65536
    → NotBefore s.last_hlc (actor_loop c cmds s).1.last_hlc
unfolding actor_loop
actor_loop-NotBefore c [] s v = NotBefore-refl s.last_hlc
actor_loop-NotBefore c ((i, cmd) ∷ cmds) s v =
    after_turn (handle c i cmd s) s (actor_loop c cmds (turned (handle c i cmd s) s))
      (handle-GoesOn c i cmd s v)
      (actor_loop-NotBefore c cmds (turned (handle c i cmd s) s)
        (turned_u16 (handle c i cmd s) s v (handle-GoesOn c i cmd s v)))

index_of-insert_index :
    (collection other : String) (def : IndexDef) (defs : List (String × IndexDef))
    → index_of other (insert_index collection def defs)
      ≡ (if str_eq collection other then some def else index_of other defs)
unfolding index_of insert_index
index_of-insert_index collection other def [] = refl
index_of-insert_index collection other def ((k, old) ∷ rest) = ground (
  arith,
  eq_iff k collection,
  eq_iff k other,
  eq_iff collection other,
  index_of-insert_index collection other def rest,
)

-- A registration that returned has the new definition for its collection, and only there; one that
-- failed has registered nothing.
pub handle_register_index_lem :
    (s : ActorState) (def : IndexDef) (other : String)
    → index_of other (handle_register_index s def).1.indexes ≡ (
        if is_ok (handle_register_index s def).0 && str_eq def.collection other
        then some def
        else index_of other s.indexes)
unfolding handle_register_index
handle_register_index_lem s def other =
    go ((create_shadow_table def >>= (λ u. create_fts_table def)) s.conn).0
  where
    go :
        (r : Result (Unit {0}))
        → index_of other
            (register def s
              (r, ((create_shadow_table def >>= (λ u. create_fts_table def)) s.conn).1)).1.indexes
          ≡ (if is_ok
                  (register def s
                    (r, ((create_shadow_table def >>= (λ u. create_fts_table def)) s.conn).1)).0
                && str_eq def.collection other
              then some def
              else index_of other s.indexes)
    go (ok u) = index_of-insert_index def.collection other def s.indexes
    go (err e) = refl
    go panic = refl
