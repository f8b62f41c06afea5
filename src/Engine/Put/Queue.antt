-- ===== src/Engine/Put/Queue.antt =====
-- src/engine.rs, `handle_put`: what it leaves in the outbox.
use squirreld.Prelude.{suc, String, [], ◌∷◌, ◌++◌, ◌≡◌, refl, sym, arith, Option, some, eq_iff}
use squirreld.Error.{ok}
use squirreld.Hlc.{fmt}
use squirreld.Types.{Bytes, PutOpts, enabled}
use squirreld.Crypto.{Cipher}
use squirreld.Db.Sql.{RecordRow, OutboxEntry}
use squirreld.Db.Outbox.{append_entry, new_entry}
use squirreld.Db.Records.{find_id}
use squirreld.Engine.Encryption.{Stored, maybe_encrypt, encrypt_with, should_encrypt}
use squirreld.Engine.{ActorState, Inputs, handle_put}
use squirreld.Engine.Put.{new_row, After, handle_put_ok}
use squirreld.Engine.Put.Reads.{find-After, created_over, stored_over-eq}

module _ (c : Cipher) (s : ActorState) (i : Inputs) (collection : String) (payload : Bytes)
    (opts : PutOpts) where
  find_put :
      (k : String) (stored : Stored) (s' : ActorState)
      → After c s i collection payload opts k stored s'
      → find_id k s'.conn.tables.records
        ≡ some (record (new_row c s i collection payload opts k stored) {
          created_at = created_over i.now_ms (find_id k s.conn.tables.records);
        })
  find_put k stored s' a = ground (
    arith,
    find-After c s i collection payload opts k k stored s' a,
    eq_iff k k,
    stored_over-eq (new_row c s i collection payload opts k stored)
        (find_id k s.conn.tables.records),
  )

  -- A put that returned has queued exactly one entry, behind all others, with the new clock of the
  -- engine and the payload in the clear.
  pub outbox-handle_put :
      (key : Option String) (k : String)
      → (handle_put c s i collection key payload opts).0 ≡ ok k
      → (handle_put c s i collection key payload opts).1.conn.tables.outbox
        ≡ s.conn.tables.outbox
          ++ (new_entry
                (suc s.conn.tables.outbox_seq)
                k
                collection
                "upsert"
                (fmt (handle_put c s i collection key payload opts).1.last_hlc)
                (some payload)
                i.outbox_ms
              ∷ [])
  unfolding append_entry
  outbox-handle_put key k h =
      let (stored, enc, same, a) = handle_put_ok c s i collection payload opts key k h in
      rw (same, a.clock) a.written.1

  sealed_version :
      (kek : Bytes) (stored : Stored)
      → s.kek ≡ some kek
      → opts.encryption ≡ enabled
      → maybe_encrypt c i.entropy s.kek payload opts.encryption ≡ ok stored
      → stored.2 ≡ 1
  unfolding encrypt_with maybe_encrypt should_encrypt
  sealed_version kek (sealed, dek, version) hk he h = ground arith

  -- The outbox is not covered by the encryption at rest: after a put that returned, of a record that
  -- must be encrypted with a key that is there, its row is marked as encrypted, and the entry queued
  -- for it holds the plain payload.
  pub outbox_holds_plaintext :
      (key : Option String) (k : String) (kek : Bytes)
      → s.kek ≡ some kek
      → opts.encryption ≡ enabled
      → (handle_put c s i collection key payload opts).0 ≡ ok k
      → (row : RecordRow) × (entry : OutboxEntry) × (find_id k
            (handle_put c s i collection key payload opts).1.conn.tables.records
          ≡ some row)
        × (row.format_version ≡ 1)
        × ((handle_put c s i collection key payload opts).1.conn.tables.outbox
            ≡ s.conn.tables.outbox ++ (entry ∷ []))
        × (entry.record_id ≡ k)
        × (entry.payload ≡ some payload)
  outbox_holds_plaintext key k kek hk he h =
      let (stored, enc, same, a) = handle_put_ok c s i collection payload opts key k h in
      (
        record (new_row c s i collection payload opts k stored) {
          created_at = created_over i.now_ms (find_id k s.conn.tables.records);
        },
        _,
        find_put k stored _ (rw (sym same) at a),
        sealed_version kek stored hk he enc,
        outbox-handle_put key k h,
        refl,
        refl,
      )
