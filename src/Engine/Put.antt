-- ===== src/Engine/Put.antt =====
-- src/engine.rs, `handle_put`: the records and the outbox after it.
pub mod Reads
pub mod Queue
pub mod Atomic
use squirreld.Prelude.{
  ℕ, ◌<◌, ◌≤◌, ◌^◌, suc, String, List, [], ◌∷◌, ◌++◌, Text, ◌≡◌, ◌≢◌, refl, ap, ◌∙◌, sym, arith,
  Bool, true, false, not, ◌||◌, Option, none, some, if◌then◌else◌, str_eq, eq_iff, eq_refl,
}
use squirreld.Error.{Result, ok, err, panic}
use squirreld.Hlc.{Hlc, IsHlc, tick, fmt, from_str}
use squirreld.Hlc.Clock.{tick-IsHlc}
use squirreld.Hlc.Format.{from_str-fmt}
use squirreld.Types.{Bytes, Record, PutOpts, IndexDef, IndexValue}
use squirreld.Crypto.{Cipher, IsAead, Entropy, IsEntropy}
use squirreld.Db.Sql.{
  RecordRow, OutboxEntry, Db, Conn, Sql, healthy, pure, lift, exec, query, write, transaction,
  continue, ◌>>=◌, ◌>>◌,
}
use squirreld.Db.Keeps.{Keeps, keeps_rules, Keeps-exec, Keeps-pure, Keeps-lift, Keeps-bind}
use squirreld.Db.Outcome.{is_ok, write-bind_ok, transaction_ok, transaction_rollback}
use squirreld.Db.Records
use squirreld.Db.Records.{find_id, upsert_row, select_row, in_collection}
use squirreld.Db.Records.Laws.{stored_over, find_id-upsert_row}
use squirreld.Db.Outbox
use squirreld.Db.Outbox.{append_entry}
use squirreld.Db.Index.{on_sidx, on_fts, sanitize_all, sanitize_ident, field_names}
use squirreld.Db.Index.Rows.{is_empty}
use squirreld.Db.Index.Writes.{Keeps-when, upsert_index_row-Keeps, upsert_fts_row-Keeps}
use squirreld.Engine.Encryption.{maybe_encrypt, maybe_decrypt, Stored, maybe_decrypt-maybe_encrypt}
use squirreld.Engine.{
  ActorState, Inputs, index_of, or_default, row_of, maintain_index, put_body, finish, put_stored,
  handle_put, handle_get, shown, to_record, hlc_or_new,
}

-- The tables of records and of the outbox are what they were.
abbrev pub SameData : List RecordRow → List OutboxEntry → Db → Type 0
SameData rs os d = (d.records ≡ rs) × (d.outbox ≡ os)

module _ (rs : List RecordRow) (os : List OutboxEntry) where
  maintain_index-SameData :
      (def : Option IndexDef) (key : String) (values : List (String × IndexValue))
      → Keeps (SameData rs os) (maintain_index def key values)
  unfolding maintain_index
  maintain_index-SameData none key values = Keeps-pure tt
  maintain_index-SameData (some def) key values =
      Keeps-bind _ _
        (Keeps-when (SameData rs os) (not (is_empty values) || not (is_empty def.fields)) _
          (upsert_index_row-Keeps (SameData rs os) (λ d ts h. h) (λ d ts h. h) def key values))
        (λ u.
          Keeps-when (SameData rs os) (not (is_empty def.fts_fields)) _
            (upsert_fts_row-Keeps (SameData rs os) (λ d ts h. h) (λ d ts h. h) def key values))

put_body_ok :
    (def : Option IndexDef) (row : RecordRow) (payload : Bytes) (ms : ℕ) (opts : PutOpts) (c : Conn)
    → (put_body def row payload ms opts c).0 ≡ ok tt
    → SameData
        (upsert_row (record row { deleted = false; synced = false }) c.tables.records)
        (append_entry row.id row.collection "upsert" row.hlc (some payload) ms c.tables).outbox
        (put_body def row payload ms opts c).1.tables
unfolding put_body Records.upsert Outbox.append append_entry
put_body_ok def row payload ms opts c h =
    let (c₁, e₁, r₁) = write-bind_ok _ _ c tt h in
    let (c₂, e₂, r₂) = write-bind_ok _ _ c₁ tt (rw r₁ at h) in
    let final =
      (maintain_index-SameData _ _ def row.id opts.index_fields).at c₂ (rw (e₂, e₁) (refl, refl)) in
    rw (r₁, r₂) final

pub finish_ok {ℓ} :
    {A : Type ℓ} (s : ActorState) (hlc : Hlc) (key k : A) (r : Result (Unit {0}) × Conn)
    → (finish s hlc key r).0 ≡ ok k
    → (r.0 ≡ ok tt) × (k ≡ key) × ((finish s hlc key r).1 ≡ record s { conn = r.1; last_hlc = hlc })
finish_ok s hlc key k (ok u, c) h = ground arith
finish_ok s hlc key k (err e, c) h = cc
finish_ok s hlc key k (panic, c) h = cc

module _ (c : Cipher) (s : ActorState) (i : Inputs) (collection : String) (payload : Bytes)
    (opts : PutOpts) where
  abbrev pub new_row : String → Stored → RecordRow
  new_row key stored = row_of collection key stored (tick i.wall_ms s.last_hlc) opts i.now_ms

  -- The state after a put of `key` with these stored bytes, as far as records and outbox go.
  pub record After (key : String) (stored : Stored) (s' : ActorState) : Type 0 where
    pub clock : s'.last_hlc ≡ tick i.wall_ms s.last_hlc
    pub same_kek : s'.kek ≡ s.kek
    pub written :
        SameData
          (upsert_row (new_row key stored) s.conn.tables.records)
          (append_entry key collection "upsert"
            (fmt (tick i.wall_ms s.last_hlc))
            (some payload)
            i.outbox_ms
            s.conn.tables).outbox
          s'.conn.tables

  put_stored_ok :
      (key k : String) (r : Result Stored)
      → (put_stored c s i collection key payload opts r).0 ≡ ok k
      → (stored : Stored) × (r ≡ ok stored)
        × (k ≡ key)
        × After key stored (put_stored c s i collection key payload opts r).1
  unfolding put_stored
  put_stored_ok key k (err e) h = cc
  put_stored_ok key k panic h = cc
  put_stored_ok key k (ok stored) h =
      let body =
        put_body (index_of collection s.indexes) (new_row key stored) payload i.outbox_ms opts in
      let (returned, same, state) =
        finish_ok s (tick i.wall_ms s.last_hlc) key k (transaction body s.conn) h in
      let (c', same_tables, ran, kept) = transaction_ok body s.conn tt returned in
      let data' =
        put_body_ok (index_of collection s.indexes) (new_row key stored) payload i.outbox_ms opts c'
          ran in
      (
        stored,
        refl,
        same,
        rw state
            (record { clock = refl; same_kek = refl; written = rw kept (rw same_tables at data') }),
      )

  pub handle_put_ok :
      (key : Option String) (k : String)
      → (handle_put c s i collection key payload opts).0 ≡ ok k
      → (stored : Stored) × (maybe_encrypt c i.entropy s.kek payload opts.encryption ≡ ok stored)
        × (k ≡ or_default key i.ulid)
        × After (or_default key i.ulid) stored (handle_put c s i collection key payload opts).1
  unfolding handle_put
  handle_put_ok key k h = put_stored_ok (or_default key i.ulid) k _ h
