-- ===== src/Engine/Put/Atomic.antt =====
-- src/engine.rs, `handle_put`: its errors, and its clock.
use squirreld.Prelude.{◌<◌, ◌≤◌, String, ◌≡◌, refl, false, Option, Ordering}
use squirreld.Error.{Result, SquirrelError, ok, err, panic}
use squirreld.Hlc.{Hlc, tick, cmp, max_logical}
use squirreld.Hlc.Clock.{cmp-tick}
use squirreld.Types.{Bytes, PutOpts}
use squirreld.Crypto.{Cipher}
use squirreld.Db.Sql.{Conn, Sql, transaction}
use squirreld.Db.Outcome.{is_ok, transaction_rollback}
use squirreld.Engine.Encryption.{Stored}
use squirreld.Engine.{ActorState, Inputs, finish, put_stored, handle_put}
use squirreld.Engine.Put.{handle_put_ok}

-- Tables, clock, key, indexes and the channels to both workers are what they were.
pub record Unchanged (s s' : ActorState) : Type 0 where
  pub tables : s'.conn.tables ≡ s.conn.tables
  pub last_hlc : s'.last_hlc ≡ s.last_hlc
  pub kek : s'.kek ≡ s.kek
  pub indexes : s'.indexes ≡ s.indexes
  pub sync_trigger : s'.sync_trigger ≡ s.sync_trigger
  pub blob_trigger : s'.blob_trigger ≡ s.blob_trigger

finish_err :
    {A : Type 0} (s : ActorState) (hlc : Hlc) (a : A) (r : Result (Unit {0}) × Conn)
    (e : SquirrelError)
    → (is_ok r.0 ≡ false → r.1.tables ≡ s.conn.tables)
    → (finish s hlc a r).0 ≡ err e
    → Unchanged s (finish s hlc a r).1
finish_err s hlc a (ok u, c) e keep h = cc
finish_err s hlc a (err x, c) e keep h = record {
  tables = keep refl;
  last_hlc = refl;
  kek = refl;
  indexes = refl;
  sync_trigger = refl;
  blob_trigger = refl;
}
finish_err s hlc a (panic, c) e keep h = cc

pub finish-Unchanged :
    {A : Type 0} (s : ActorState) (hlc : Hlc) (a : A) (body : Sql (Unit {0})) (e : SquirrelError)
    → (finish s hlc a (transaction body s.conn)).0 ≡ err e
    → Unchanged s (finish s hlc a (transaction body s.conn)).1
finish-Unchanged s hlc a body e h =
    finish_err s hlc a (transaction body s.conn) e (transaction_rollback body s.conn) h

put_stored-Unchanged :
    (c : Cipher) (s : ActorState) (i : Inputs) (collection key : String) (payload : Bytes)
    (opts : PutOpts) (r : Result Stored) (e : SquirrelError)
    → (put_stored c s i collection key payload opts r).0 ≡ err e
    → Unchanged s (put_stored c s i collection key payload opts r).1
unfolding put_stored
put_stored-Unchanged c s i collection key payload opts (err x) e h = record {
  tables = refl;
  last_hlc = refl;
  kek = refl;
  indexes = refl;
  sync_trigger = refl;
  blob_trigger = refl;
}
put_stored-Unchanged c s i collection key payload opts panic e h = cc
put_stored-Unchanged c s i collection key payload opts (ok stored) e h =
    finish-Unchanged s (tick i.wall_ms s.last_hlc) key _ e h

-- A put that returns an error, at whichever statement or for want of a key, has changed no table, not
-- the clock, the key, the registered indexes or the triggers of the sync loop and the blob worker.
pub handle_put-Unchanged :
    (c : Cipher) (s : ActorState) (i : Inputs) (collection : String) (key : Option String)
    (payload : Bytes) (opts : PutOpts) (e : SquirrelError)
    → (handle_put c s i collection key payload opts).0 ≡ err e
    → Unchanged s (handle_put c s i collection key payload opts).1
unfolding handle_put
handle_put-Unchanged c s i collection key payload opts e h =
    put_stored-Unchanged c s i collection _ payload opts _ e h

-- A put that returned has moved the clock of the engine strictly forward, if the counter has room or
-- the wall clock is ahead.
pub handle_put_clock :
    (c : Cipher) (s : ActorState) (i : Inputs) (collection : String) (key : Option String)
    (payload : Bytes) (opts : PutOpts) (k : String)
    → (i.wall_ms ≤ s.last_hlc.physical_ms → s.last_hlc.logical < max_logical)
    → (handle_put c s i collection key payload opts).0 ≡ ok k
    → cmp s.last_hlc (handle_put c s i collection key payload opts).1.last_hlc ≡ Ordering.lt
handle_put_clock c s i collection key payload opts k room h =
    let (stored, enc, same, a) = handle_put_ok c s i collection payload opts key k h in
    rw a.clock (cmp-tick i.wall_ms s.last_hlc room).0
