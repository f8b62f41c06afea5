-- ===== src/Engine/Replicates.antt =====
-- From `handle_put` on one device over the push, the remote store and the pull to `handle_get` on
-- another one.
use squirreld.Prelude.{
  ℕ, ◌<◌, ◌^◌, suc, String, ◌≡◌, refl, ap, ◌∙◌, sym, arith, false, Option, none, some, eq_iff,
}
use squirreld.Error.{ok}
use squirreld.Hlc.{IsHlc, tick, fmt}
use squirreld.Hlc.Clock.{tick-IsHlc}
use squirreld.Hlc.Format.{from_str-fmt}
use squirreld.Types.{Bytes, PutOpts}
use squirreld.Crypto.{Cipher, IsAead, IsEntropy}
use squirreld.Db.Sql.{RecordRow, OutboxEntry, Db, healthy, exec}
use squirreld.Db.Records
use squirreld.Db.Records.{find_id, select_row, in_collection}
use squirreld.Db.Records.Laws.{stored_over}
use squirreld.Db.Outbox.{new_entry}
use squirreld.Backend.{OutboxPushEntry, RemoteRecord}
use squirreld.Backend.InMemory
use squirreld.Backend.InMemory.{InMemoryStore, push_one, is_stale, remote_record}
use squirreld.Backend.InMemory.Newest.{get-insert}
use squirreld.Sync.{push_entry, build_push_entry, entry_of_row}
use squirreld.Sync.Pull.{is_current, row_of_remote}
use squirreld.Sync.Newer.{applied, applied_newer, select_upserted}
use squirreld.Engine.Encryption.{maybe_encrypt, Stored, maybe_decrypt-maybe_encrypt}
use squirreld.Engine.{ActorState, Inputs, or_default, handle_put, handle_get, shown}
use squirreld.Engine.Put.{After, handle_put_ok}
use squirreld.Engine.Put.Reads.{created_over, handle_get-calm, shown_live, select-After}

-- The time of creation is that of the row that was there, if there was one.
stored_remote :
    (collection : String) (now : ℕ) (r : RemoteRecord) (o : Option RecordRow)
    → stored_over (row_of_remote now r (in_collection collection o)) o
      ≡ record (row_of_remote now r none) { created_at = created_over now o }
unfolding in_collection
stored_remote collection now r none = refl
stored_remote collection now r (some old) = refl

module _ (c : Cipher) (s : ActorState) (i : Inputs) (collection : String) (payload : Bytes)
    (opts : PutOpts) where
  -- The entry that a put has queued, and what is sent for it.
  abbrev pub queued : String → OutboxEntry
  queued k =
      new_entry (suc s.conn.tables.outbox_seq) k collection "upsert"
        (fmt (tick i.wall_ms s.last_hlc)) (some payload) i.outbox_ms

  abbrev pub sent : String → Stored → OutboxPushEntry
  sent k stored =
      push_entry (queued k) (some stored.0) stored.1 (or_default opts.schema_version 0) stored.2

  built :
      (k : String) (stored : Stored) (s' : ActorState)
      → After c s i collection payload opts k stored s'
      → (build_push_entry (queued k) (healthy s'.conn.tables)).0 ≡ some (sent k stored)
  unfolding build_push_entry entry_of_row Records.get exec
  built k stored s' a =
      ap (λ o. entry_of_row (queued k) (ok o))
        (select-After c s i collection payload opts k stored s' a)

  accepted :
      (p : OutboxPushEntry) (store : InMemoryStore)
      → is_stale p (InMemory.get p.record_id p.collection store) ≡ false
      → InMemory.get p.record_id p.collection (push_one p store).1 ≡ some (remote_record p)
  unfolding push_one InMemory.same_key
  accepted p store h = rw h (
      get-insert p.record_id p.collection (remote_record p) store
      ∙ ground (arith, eq_iff p.record_id p.record_id, eq_iff p.collection p.collection))

  received :
      (k : String) (stored : Stored) (d : Db) (now : ℕ)
      → is_current (select_row collection k d) (remote_record (sent k stored)) ≡ false
      → select_row collection k (applied now (remote_record (sent k stored)) d)
        ≡ some (record (row_of_remote now (remote_record (sent k stored)) none) {
          created_at = created_over now (find_id k d.records);
        })
  unfolding select_row
  received k stored d now h =
      let r = remote_record (sent k stored) in
      ap (λ rs. in_collection collection (find_id k rs)) (applied_newer now r d h)
      ∙ select_upserted (row_of_remote now r (select_row collection k d)) d.records
      ∙ ap some (stored_remote collection now r (find_id k d.records))

  -- For an AEAD that keeps its contract, random bytes of the right lengths, clocks in range and no
  -- failures: a record that was put on one device, encrypted or not, is pushed as it is stored; a
  -- remote store in memory that has nothing newer keeps it; and another device with the same key and
  -- nothing newer that applies it gets the payload in the clear, under the clock of the put.
  pub put_replicates :
      (key : Option String) (k : String) (stored : Stored) (store : InMemoryStore) (t : ActorState)
      (now wall_ms : ℕ)
      → IsAead c
      → IsEntropy i.entropy
      → IsHlc s.last_hlc
      → i.wall_ms < 2 ^ 64
      → maybe_encrypt c i.entropy s.kek payload opts.encryption ≡ ok stored
      → (handle_put c s i collection key payload opts).0 ≡ ok k
      → is_stale (sent k stored) (InMemory.get k collection store) ≡ false
      → is_current (select_row collection k t.conn.tables) (remote_record (sent k stored)) ≡ false
      → t.kek ≡ s.kek
      → ((build_push_entry
            (queued k)
            (healthy (handle_put c s i collection key payload opts).1.conn.tables)).0
          ≡ some (sent k stored))
        × (InMemory.get k collection (push_one (sent k stored) store).1
            ≡ some (remote_record (sent k stored)))
        × ((handle_get c
              (record t {
                conn = healthy (applied now (remote_record (sent k stored)) t.conn.tables);
              })
              wall_ms
              collection
              k).0
            ≡ ok (
                some (record {
                  id = k;
                  collection = collection;
                  payload = payload;
                  hlc = tick i.wall_ms s.last_hlc;
                  schema_version = or_default opts.schema_version 0;
                  deleted = false;
                  created_at = created_over now (find_id k t.conn.tables.records);
                  updated_at = now;
                })))
  put_replicates key k stored store t now wall_ms aead he hh hw enc h fresh newer same_key =
      let (stored', enc', same, a) = handle_put_ok c s i collection payload opts key k h in
      let eq : stored' ≡ stored = ground (arith, enc, enc') in
      let r = remote_record (sent k stored) in
      let row : RecordRow = record (row_of_remote now r none) {
        created_at = created_over now (find_id k t.conn.tables.records);
      } in
      (
        built k stored _ (rw (eq, sym same) at a),
        accepted (sent k stored) store fresh,
        handle_get-calm c (record t { conn = healthy (applied now r t.conn.tables) }) wall_ms
              collection k
            ∙ ap (shown c t.kek wall_ms) (received k stored t.conn.tables now newer)
            ∙ rw same_key (
                shown_live c s.kek wall_ms row
                  (record row { payload = payload; dek_encrypted = none })
                  (tick i.wall_ms s.last_hlc) refl
                  (maybe_decrypt-maybe_encrypt c i.entropy s.kek payload opts.encryption row aead he
                    enc)
                  (from_str-fmt (tick i.wall_ms s.last_hlc)
                    (tick-IsHlc i.wall_ms s.last_hlc hw hh))),
      )
