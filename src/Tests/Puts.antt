-- ===== src/Tests/Puts.antt =====
-- src/engine.rs at concrete calls: `alice` puts a note under the id "a", and deletes it.
use squirreld.Prelude.{
  suc, String, [], ◌∷◌, ◌++◌, ◌≡◌, ◌≢◌, refl, arith, true, false, none, some, str_eq, eq_iff,
}
use squirreld.Error.{Result, db, ok, err}
use squirreld.Hlc.{tick, fmt}
use squirreld.Types.{Bytes, PutOpts, default_put_opts, enabled}
use squirreld.Crypto.{encrypt, encrypt_record}
use squirreld.Db.Sql.{RecordRow, OutboxEntry, exec, transaction}
use squirreld.Db.Records
use squirreld.Db.Records.{find_id, update_where}
use squirreld.Db.Outbox
use squirreld.Db.Outbox.{new_entry}
use squirreld.Engine.Encryption.{maybe_encrypt, encrypt_with, should_encrypt}
use squirreld.Engine.{
  ActorState, handle_put, put_stored, put_body, maintain_index, index_of, handle_get, handle_delete,
  delete_body,
}
use squirreld.Engine.Put.Reads.{calm, as_put, get-put, get-put_other_collection}
use squirreld.Engine.Put.Atomic.{Unchanged, handle_put-Unchanged}
use squirreld.Engine.Put.Queue.{outbox-handle_put, outbox_holds_plaintext}
use squirreld.Engine.Delete.{get-delete, handle_delete-Unchanged}
use squirreld.Tests.Data.{
  framing, framing-IsAead, some_entropy-IsEntropy, alice_clock-IsHlc, alice, first_inputs,
  second_inputs, hello, repeat,
}

different : (a b : String) → str_eq a b ≡ false → a ≢ b
different a b h e = ground (arith, eq_iff a b, e, h)

abbrev put_result : ActorState → Result String × ActorState
put_result s = handle_put framing s first_inputs "notes" (some "a") hello default_put_opts

abbrev after_put : ActorState
after_put = (put_result alice).1

put_ok : (put_result alice).0 ≡ ok "a"
unfolding handle_put put_stored put_body maintain_index index_of maybe_encrypt encrypt_with
    should_encrypt encrypt encrypt_record exec transaction Records.upsert Outbox.append
put_ok = refl

get-put_example :
    (handle_get framing (calm after_put) 2000 "notes" "a").0
    ≡ ok (some (as_put framing alice first_inputs "notes" hello default_put_opts "a" none))
unfolding find_id
get-put_example =
    get-put framing alice first_inputs "notes" hello default_put_opts (some "a") "a" 2000
      framing-IsAead some_entropy-IsEntropy alice_clock-IsHlc (ground arith) put_ok

get-put_other_collection_example :
    (handle_get framing (calm after_put) 2000 "tasks" "a").0 ≡ ok none
get-put_other_collection_example =
    get-put_other_collection framing alice first_inputs "notes" hello default_put_opts (some "a")
      "a" "tasks" 2000 put_ok (different "notes" "tasks" refl)

abbrev sealed_hello : Bytes
sealed_hello = repeat 12 8 ++ (repeat 16 0 ++ hello)

abbrev sealed_dek : Bytes
sealed_dek = repeat 12 9 ++ (repeat 16 0 ++ repeat 32 7)

-- The third statement, the one on the outbox, fails.
abbrev broken : ActorState
broken = record alice { conn = record alice.conn { faults = false ∷ false ∷ true ∷ [] } }

put_broken : (put_result broken).0 ≡ err db
unfolding handle_put put_stored put_body maintain_index index_of maybe_encrypt encrypt_with
    should_encrypt encrypt encrypt_record exec transaction Records.upsert Outbox.append
put_broken = refl

handle_put-Unchanged_example : Unchanged broken (put_result broken).1
handle_put-Unchanged_example =
    handle_put-Unchanged framing broken first_inputs "notes" (some "a") hello default_put_opts db
      put_broken

outbox-handle_put_example :
    after_put.conn.tables.outbox
    ≡ [] ++ (new_entry (suc 0) "a" "notes" "upsert" (fmt after_put.last_hlc) (some hello) 1002 ∷ [])
outbox-handle_put_example =
    outbox-handle_put framing alice first_inputs "notes" hello default_put_opts (some "a") "a"
      put_ok

abbrev sealed_opts : PutOpts
sealed_opts = record default_put_opts { encryption = enabled }

abbrev after_sealed_put : ActorState
after_sealed_put = (handle_put framing alice first_inputs "notes" (some "a") hello sealed_opts).1

outbox_holds_plaintext_example :
    (row : RecordRow) × (entry : OutboxEntry) × (find_id "a" after_sealed_put.conn.tables.records
      ≡ some row)
    × (row.format_version ≡ 1)
    × (after_sealed_put.conn.tables.outbox ≡ [] ++ (entry ∷ []))
    × (entry.record_id ≡ "a")
    × (entry.payload ≡ some hello)
unfolding handle_put put_stored put_body maintain_index index_of maybe_encrypt encrypt_with
    should_encrypt encrypt encrypt_record exec transaction Records.upsert Outbox.append
outbox_holds_plaintext_example =
    outbox_holds_plaintext framing alice first_inputs "notes" hello sealed_opts (some "a") "a"
      (repeat 32 5) refl refl refl

delete_ok : (handle_delete after_put second_inputs "notes" "a").0 ≡ ok tt
unfolding handle_delete delete_body handle_put put_stored put_body maintain_index index_of
    maybe_encrypt encrypt_with should_encrypt encrypt encrypt_record exec transaction Records.upsert
    Records.soft_delete Outbox.append
delete_ok = refl

get-delete_example :
    (handle_get framing
      (calm (handle_delete after_put second_inputs "notes" "a").1)
      2000
      "notes"
      "a").0
    ≡ ok none
get-delete_example = get-delete after_put second_inputs "notes" "a" framing 2000 delete_ok

-- What the put of "a" stored.
abbrev stored_row : RecordRow
stored_row = record {
  id = "a";
  collection = "notes";
  payload = sealed_hello;
  hlc = fmt (tick 1000 alice.last_hlc);
  schema_version = 0;
  format_version = 1;
  dek_encrypted = some sealed_dek;
  deleted = false;
  synced = false;
  created_at = 1001;
  updated_at = 1001;
}

-- The first statement, the one that begins the transaction, fails.
delete_broken :
    (handle_delete
      (record after_put { conn = record after_put.conn { faults = true ∷ [] } })
      second_inputs
      "notes"
      "a").0
    ≡ err db
unfolding handle_delete exec transaction
delete_broken = refl

handle_delete-Unchanged_example :
    Unchanged
      (record after_put { conn = record after_put.conn { faults = true ∷ [] } })
      (handle_delete
        (record after_put { conn = record after_put.conn { faults = true ∷ [] } })
        second_inputs
        "notes"
        "a").1
handle_delete-Unchanged_example =
    handle_delete-Unchanged
      (record after_put { conn = record after_put.conn { faults = true ∷ [] } }) second_inputs
      "notes" "a" db delete_broken
