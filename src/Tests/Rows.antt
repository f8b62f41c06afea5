-- ===== src/Tests/Rows.antt =====
-- src/crypto.rs and src/db/ at concrete rows.
use squirreld.Prelude.{
  ℕ, ◌+◌, ◌≤◌, List, [], ◌∷◌, ◌++◌, ◌≡◌, refl, arith, true, false, none, some, if◌then◌else◌,
  str_eq, All, ◌≢◌, ◌⊎◌, drop, ◌-◌, ◌==◌, length, min, ◌*◌, ◌^◌,
}
use squirreld.Error.{ok}
use squirreld.Types.{Bytes, enabled}
use squirreld.Crypto.{encrypt, encrypt_record, decrypt_record}
use squirreld.Crypto.RoundTrip.{decrypt_record-encrypt_record}
use squirreld.Db.Sql.{RecordRow, OutboxEntry, Db, Conn, healthy, empty_db}
use squirreld.Db.Outbox.{
  append, delete_seqs, mark_retry, clear_error, find_seq, read_log, new_entry,
}
use squirreld.Db.Outbox.Backoff.{mark_retry_lem}
use squirreld.Db.Outbox.Contents.{IsAmong, outbox_contents}
use squirreld.Db.SyncState.{checkpoint_of, put_checkpoint, checkpoint_of-put}
use squirreld.Db.Config.{
  get_or_create_node_id, node_id_stable, setting, get, set, node_id_or_new, put_setting,
}
use squirreld.Hex.{hex_encode}
use squirreld.Db.Sql.{exec}
use squirreld.Engine.Encryption.{
  maybe_encrypt, should_encrypt, encrypt_with, maybe_decrypt, maybe_decrypt-maybe_encrypt,
}
use squirreld.Tests.Data.{
  framing, framing-IsAead, some_entropy, some_entropy-IsEntropy, hello, char_log, char_log-IsJson,
  repeat,
}

abbrev kek : Bytes
kek = repeat 32 5

abbrev frame : Bytes → Bytes → Bytes
frame nonce plaintext = nonce ++ (repeat 16 0 ++ plaintext)

decrypt_record-encrypt_record_example :
    decrypt_record framing kek (frame (repeat 12 8) hello) (frame (repeat 12 9) (repeat 32 7))
    ≡ ok hello
unfolding encrypt encrypt_record
decrypt_record-encrypt_record_example =
    decrypt_record-encrypt_record framing framing-IsAead some_entropy kek hello
      (frame (repeat 12 8) hello) (frame (repeat 12 9) (repeat 32 7)) some_entropy-IsEntropy refl

abbrev pub sealed_row : RecordRow
sealed_row = record {
  id = "a";
  collection = "notes";
  payload = frame (repeat 12 8) hello;
  hlc = 48 ∷ [];
  schema_version = 0;
  format_version = 1;
  dek_encrypted = some (frame (repeat 12 9) (repeat 32 7));
  deleted = false;
  synced = false;
  created_at = 1;
  updated_at = 1;
}

maybe_decrypt-maybe_encrypt_example :
    maybe_decrypt framing (some kek) sealed_row
    ≡ ok (record sealed_row { payload = hello; dek_encrypted = none })
unfolding encrypt encrypt_record maybe_encrypt should_encrypt encrypt_with
maybe_decrypt-maybe_encrypt_example =
    maybe_decrypt-maybe_encrypt framing some_entropy (some kek) hello enabled sealed_row
      framing-IsAead some_entropy-IsEntropy refl

abbrev queue : Db
queue = record empty_db {
  outbox =
      new_entry 3 "a" "notes" "upsert" (48 ∷ []) none 1
      ∷ new_entry 5 "b" "notes" "delete" (49 ∷ []) none 2
      ∷ [];
  outbox_seq = 6;
}

mark_retry_lem_example :
    (e' : OutboxEntry) × (find_seq 5
        (mark_retry char_log 100 101 3 "x" (healthy queue)).1.tables.outbox
      ≡ (if 3 == 5 then some e' else find_seq 5 queue.outbox))
    × (e'.retries ≡ 0 + 1)
    × (e'.next_retry_at ≡ 100 + min (1000 * 2 ^ 0) 300000)
    × (e'.last_error ≡ some "x")
    × (read_log char_log e'.error_log
        ≡ drop
            (length (read_log char_log none ++ (char_log.log_entry 101 "x" ∷ [])) - 20)
            (read_log char_log none ++ (char_log.log_entry 101 "x" ∷ [])))
    × (length (read_log char_log e'.error_log) ≤ 20)
unfolding find_seq
mark_retry_lem_example =
    mark_retry_lem char_log char_log-IsJson 100 101 3 5 "x" queue
      (new_entry 3 "a" "notes" "upsert" (48 ∷ []) none 1) refl (omega arith)

abbrev shaky : Conn
shaky = record { tables = queue; faults = false ∷ true ∷ [] }

outbox_contents_example :
    ((append "c" "notes" "upsert" (50 ∷ []) none 7 shaky).0 ≡ ok tt)
    × (find_seq 5 (append "c" "notes" "upsert" (50 ∷ []) none 7 shaky).1.tables.outbox ≡ (
        if 5 == 7
        then some (record {
          seq = 7;
          record_id = "c";
          collection = "notes";
          operation = "upsert";
          hlc = 50 ∷ [];
          payload = none;
          created_at = 7;
          next_retry_at = 0;
          retries = 0;
          last_error = none;
          error_log = none;
        })
        else find_seq 5 queue.outbox))
    × ((delete_seqs (3 ∷ 5 ∷ []) shaky).0 ≡ ok tt)
    × ((IsAmong 5 (3 ∷ 5 ∷ [])
          × (find_seq 5 (delete_seqs (3 ∷ 5 ∷ []) shaky).1.tables.outbox ≡ none))
        ⊎ (All {A = ℕ} (λ s. s ≢ 5) (3 ∷ 5 ∷ [])
            × (find_seq 5 (delete_seqs (3 ∷ 5 ∷ []) shaky).1.tables.outbox
                ≡ find_seq 5 queue.outbox)))
    × ((clear_error 3 shaky).0 ≡ ok tt)
    × (find_seq 5 (clear_error 3 shaky).1.tables.outbox
        ≡ (if 3 == 5 then none else find_seq 5 queue.outbox))
outbox_contents_example =
    outbox_contents "c" "notes" "upsert" (50 ∷ []) none 7 (3 ∷ 5 ∷ []) 3 5 shaky (ground arith) refl

checkpoint_of-put_example :
    checkpoint_of "s3" (put_checkpoint "dynamo" (48 ∷ []) (("s3", some (49 ∷ [])) ∷ [])) ≡ (
      if str_eq "dynamo" "s3"
      then some (48 ∷ [])
      else checkpoint_of "s3" (("s3", some (49 ∷ [])) ∷ []))
checkpoint_of-put_example = checkpoint_of-put "dynamo" "s3" (48 ∷ []) (("s3", some (49 ∷ [])) ∷ [])

abbrev first_id : List ℕ
first_id = 1 ∷ 2 ∷ 3 ∷ 4 ∷ 5 ∷ 255 ∷ []

abbrev zero_id : List ℕ
zero_id = 0 ∷ 0 ∷ 0 ∷ 0 ∷ 0 ∷ 0 ∷ []

-- The database after the first call and a later setting, on a connection that fails at times.
abbrev first_conn : Conn
first_conn = record { tables = empty_db; faults = false ∷ [] }

abbrev later_conn : Conn
later_conn = record {
  tables = record empty_db {
    config = ("kek_salt", 48 ∷ 48 ∷ []) ∷ ("node_id", hex_encode first_id) ∷ [];
  };
  faults = false ∷ true ∷ [];
}

node_id_stable_example :
    (first_id ≡ first_id)
    × (setting "node_id" (get_or_create_node_id first_id first_conn).1.tables.config
        ≡ some (hex_encode first_id))
    × ((get_or_create_node_id zero_id later_conn).0 ≡ ok first_id)
    × ((get_or_create_node_id zero_id later_conn).1.tables ≡ later_conn.tables)
unfolding get_or_create_node_id get set node_id_or_new put_setting exec setting
node_id_stable_example =
    node_id_stable first_id zero_id first_id first_conn later_conn refl refl (ground arith) refl
      refl refl
