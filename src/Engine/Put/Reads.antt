-- ===== src/Engine/Put/Reads.antt =====
-- src/engine.rs: `handle_get` after `handle_put`.
use squirreld.Prelude.{
  ℕ, ◌<◌, ◌^◌, String, ◌≡◌, ◌≢◌, refl, ap, ◌∙◌, sym, arith, false, Option, none, some,
  if◌then◌else◌, str_eq, eq_iff,
}
use squirreld.Error.{ok}
use squirreld.Hlc.{Hlc, IsHlc, tick, from_str}
use squirreld.Hlc.Clock.{tick-IsHlc}
use squirreld.Hlc.Format.{from_str-fmt}
use squirreld.Types.{Bytes, Record, PutOpts}
use squirreld.Crypto.{Cipher, IsAead, IsEntropy}
use squirreld.Db.Sql.{RecordRow, healthy, exec}
use squirreld.Db.Records
use squirreld.Db.Records.{find_id, upsert_row, select_row, in_collection}
use squirreld.Db.Records.Laws.{stored_over, find_id-upsert_row}
use squirreld.Engine.Encryption.{maybe_encrypt, maybe_decrypt, Stored, maybe_decrypt-maybe_encrypt}
use squirreld.Engine.{
  ActorState, Inputs, or_default, handle_put, handle_get, shown, to_record, hlc_or_new, record_of,
}
use squirreld.Engine.Put.{new_row, After, handle_put_ok}

-- The state from which every further statement succeeds.
abbrev pub calm : ActorState → ActorState
calm s = record s { conn = healthy s.conn.tables }

-- What a get of `key` sees in the tables.
pub handle_get-calm :
    (c : Cipher) (s : ActorState) (wall_ms : ℕ) (collection key : String)
    → (handle_get c (calm s) wall_ms collection key).0
      ≡ shown c s.kek wall_ms (select_row collection key s.conn.tables)
unfolding handle_get Records.get exec
handle_get-calm c s wall_ms collection key = refl

-- A row that is not deleted, is decrypted and has a readable clock is shown.
pub shown_live :
    (c : Cipher) (kek : Option Bytes) (wall_ms : ℕ) (r plain : RecordRow) (h : Hlc)
    → r.deleted ≡ false
    → maybe_decrypt c kek r ≡ ok plain
    → from_str plain.hlc ≡ ok h
    → shown c kek wall_ms (some r) ≡ ok (some (record_of plain h))
unfolding shown to_record hlc_or_new
shown_live c kek wall_ms r plain h live e f = ground arith

pub shown-none :
    (c : Cipher) (kek : Option Bytes) (wall_ms : ℕ) → shown c kek wall_ms none ≡ ok none
unfolding shown
shown-none c kek wall_ms = refl

abbrev pub created_over : ℕ → Option RecordRow → ℕ
created_over now none = now
created_over now (some old) = old.created_at

pub stored_over-eq :
    (row : RecordRow) (o : Option RecordRow)
    → stored_over row o ≡ record row { created_at = created_over row.created_at o }
stored_over-eq row none = refl
stored_over-eq row (some old) = refl

module _ (c : Cipher) (s : ActorState) (i : Inputs) (collection : String) (payload : Bytes)
    (opts : PutOpts) where
  -- The record that a caller gets back.
  abbrev pub as_put : String → Option RecordRow → Record
  as_put key old = record {
    id = key;
    collection = collection;
    payload = payload;
    hlc = tick i.wall_ms s.last_hlc;
    schema_version = or_default opts.schema_version 0;
    deleted = false;
    created_at = created_over i.now_ms old;
    updated_at = i.now_ms;
  }

  pub find-After :
      (key j : String) (stored : Stored) (s' : ActorState)
      → After c s i collection payload opts key stored s'
      → find_id j s'.conn.tables.records ≡ (
          if str_eq key j
          then some (
              stored_over
                (new_row c s i collection payload opts key stored)
                (find_id key s.conn.tables.records))
          else find_id j s.conn.tables.records)
  find-After key j stored s' a = rw a.written.0 (find_id-upsert_row j _ s.conn.tables.records)

  pub select-After :
      (key : String) (stored : Stored) (s' : ActorState)
      → After c s i collection payload opts key stored s'
      → select_row collection key s'.conn.tables
        ≡ some (record (new_row c s i collection payload opts key stored) {
          created_at = created_over i.now_ms (find_id key s.conn.tables.records);
        })
  unfolding select_row in_collection
  select-After key stored s' a = ground (
    arith,
    find-After key key stored s' a,
    stored_over-eq (new_row c s i collection payload opts key stored)
        (find_id key s.conn.tables.records),
    eq_iff key key,
    eq_iff collection collection,
  )

  get-After :
      (key : String) (stored : Stored) (s' : ActorState) (wall_ms : ℕ)
      → IsAead c
      → IsEntropy i.entropy
      → IsHlc (tick i.wall_ms s.last_hlc)
      → maybe_encrypt c i.entropy s.kek payload opts.encryption ≡ ok stored
      → After c s i collection payload opts key stored s'
      → (handle_get c (calm s') wall_ms collection key).0
        ≡ ok (some (as_put key (find_id key s.conn.tables.records)))
  get-After key stored s' wall_ms aead he hh enc a =
      let row : RecordRow = record (new_row c s i collection payload opts key stored) {
        created_at = created_over i.now_ms (find_id key s.conn.tables.records);
      } in
      handle_get-calm c s' wall_ms collection key
      ∙ ap (shown c s'.kek wall_ms) (select-After key stored s' a)
      ∙ rw a.same_kek (
          shown_live c s.kek wall_ms row (record row { payload = payload; dek_encrypted = none })
            (tick i.wall_ms s.last_hlc) refl
            (maybe_decrypt-maybe_encrypt c i.entropy s.kek payload opts.encryption row aead he enc)
            (from_str-fmt (tick i.wall_ms s.last_hlc) hh))

  select_other :
      (j other key : String) (stored : Stored) (s' : ActorState)
      → key ≢ j
      → After c s i collection payload opts key stored s'
      → select_row other j s'.conn.tables ≡ select_row other j s.conn.tables
  unfolding select_row
  select_other j other key stored s' ne a =
      ap (in_collection other) (ground (arith, find-After key j stored s' a, eq_iff key j))

  select_elsewhere :
      (other key : String) (stored : Stored) (s' : ActorState)
      → collection ≢ other
      → After c s i collection payload opts key stored s'
      → select_row other key s'.conn.tables ≡ none
  unfolding select_row in_collection
  select_elsewhere other key stored s' ne a = ground (
    arith,
    find-After key key stored s' a,
    stored_over-eq (new_row c s i collection payload opts key stored)
        (find_id key s.conn.tables.records),
    eq_iff key key,
    eq_iff collection other,
  )

  -- For an AEAD that keeps its contract, random bytes of the right lengths, and a clock and a wall
  -- clock in range: after a put that returned, a get that meets no failure returns the payload in
  -- the clear, with the new clock of the engine and the time of creation of the row that the put
  -- replaced, if there was one.
  pub get-put :
      (key : Option String) (k : String) (wall_ms : ℕ)
      → IsAead c
      → IsEntropy i.entropy
      → IsHlc s.last_hlc
      → i.wall_ms < 2 ^ 64
      → (handle_put c s i collection key payload opts).0 ≡ ok k
      → (handle_get c
          (calm (handle_put c s i collection key payload opts).1)
          wall_ms
          collection
          k).0
        ≡ ok (some (as_put k (find_id k s.conn.tables.records)))
  get-put key k wall_ms aead he hh hw h =
      let (stored, enc, same, a) = handle_put_ok c s i collection payload opts key k h in
      rw same (
        get-After (or_default key i.ulid) stored _ wall_ms aead he
          (tick-IsHlc i.wall_ms s.last_hlc hw hh) enc a)

  -- A put that returned changes what a get without failures returns for no other id.
  pub get-put_ne :
      (key : Option String) (k j other : String) (wall_ms : ℕ)
      → (handle_put c s i collection key payload opts).0 ≡ ok k
      → k ≢ j
      → (handle_get c (calm (handle_put c s i collection key payload opts).1) wall_ms other j).0
        ≡ (handle_get c (calm s) wall_ms other j).0
  get-put_ne key k j other wall_ms h ne =
      let (stored, enc, same, a) = handle_put_ok c s i collection payload opts key k h in
      handle_get-calm c (handle_put c s i collection key payload opts).1 wall_ms other j
      ∙ rw a.same_kek
          (ap (shown c s.kek wall_ms) (select_other j other _ stored _ (λ e. ne (same ∙ e)) a))
      ∙ sym (handle_get-calm c s wall_ms other j)

  -- The id alone is the key of the table: a put that returned takes the id away from any other
  -- collection, where a get without failures then finds nothing, whatever was there before.
  pub get-put_other_collection :
      (key : Option String) (k other : String) (wall_ms : ℕ)
      → (handle_put c s i collection key payload opts).0 ≡ ok k
      → collection ≢ other
      → (handle_get c (calm (handle_put c s i collection key payload opts).1) wall_ms other k).0
        ≡ ok none
  get-put_other_collection key k other wall_ms h ne =
      let (stored, enc, same, a) = handle_put_ok c s i collection payload opts key k h in
      handle_get-calm c (handle_put c s i collection key payload opts).1 wall_ms other k
      ∙ ap (shown c _ wall_ms) (rw same (select_elsewhere other _ stored _ ne a))
      ∙ shown-none c _ wall_ms
