-- ===== src/Engine/Delete.antt =====
-- src/engine.rs, `handle_delete`, and `handle_get` after it.
use squirreld.Prelude.{
  ℕ, String, List, Text, ◌≡◌, refl, ap, ◌∙◌, arith, Bool, true, false, Option, none, some,
  if◌then◌else◌, str_eq, eq_iff,
}
use squirreld.Error.{SquirrelError, ok, err}
use squirreld.Hlc.{tick, fmt}
use squirreld.Types.{Bytes, IndexDef}
use squirreld.Crypto.{Cipher}
use squirreld.Db.Sql.{RecordRow, OutboxEntry, Conn, Sql, pure, transaction}
use squirreld.Db.Keeps.{Keeps, Keeps-exec, Keeps-pure, Keeps-lift, Keeps-bind}
use squirreld.Db.Outcome.{write-bind_ok, transaction_ok}
use squirreld.Db.Records
use squirreld.Db.Records.{find_id, update_where, bury, select_row, in_collection}
use squirreld.Db.Records.Laws.{find_id-update_where, changed}
use squirreld.Db.Outbox
use squirreld.Db.Outbox.{append_entry}
use squirreld.Db.Index.{sanitize_ident}
use squirreld.Db.Index.Rows.{delete_index_rows, is_empty}
use squirreld.Engine.{ActorState, Inputs, index_of, delete_body, handle_delete, handle_get, shown}
use squirreld.Engine.Put.{SameData, finish_ok}
use squirreld.Engine.Put.Reads.{calm, handle_get-calm}
use squirreld.Engine.Put.Atomic.{Unchanged, finish-Unchanged}
use mathlib.Core.Option

module _ (rs : List RecordRow) (os : List OutboxEntry) where
  Keeps-unless :
      (b : Bool) (m : Sql (Unit {0}))
      → Keeps (SameData rs os) m
      → Keeps (SameData rs os) (if b then pure tt else m)
  Keeps-unless true m k = Keeps-pure tt
  Keeps-unless false m k = k

  delete_index_rows-SameData :
      (def : IndexDef) (key : String) → Keeps (SameData rs os) (delete_index_rows def key)
  unfolding delete_index_rows
  delete_index_rows-SameData def key =
      Keeps-bind _ _ (Keeps-lift (sanitize_ident def.collection)) (λ col.
        Keeps-bind _ _ (Keeps-unless (is_empty def.fields) _ (Keeps-exec _ (λ d h. h)))
          (λ u. Keeps-unless (is_empty def.fts_fields) _ (Keeps-exec _ (λ d h. h))))

  index_rows-SameData :
      (def : Option IndexDef) (key : String)
      → Keeps (SameData rs os) (elim def [ none ↦ pure tt | some d ↦ delete_index_rows d key ])
  index_rows-SameData none key = Keeps-pure tt
  index_rows-SameData (some d) key = delete_index_rows-SameData d key

delete_body_ok :
    (def : Option IndexDef) (collection key : String) (hlc : Text) (now ms : ℕ) (c : Conn)
    → (delete_body def collection key hlc now ms c).0 ≡ ok tt
    → SameData
        (update_where (bury hlc now) collection key c.tables.records)
        (append_entry key collection "delete" hlc none ms c.tables).outbox
        (delete_body def collection key hlc now ms c).1.tables
unfolding delete_body Records.soft_delete Outbox.append append_entry
delete_body_ok def collection key hlc now ms c h =
    let (c₁, e₁, r₁) = write-bind_ok _ _ c tt h in
    let (c₂, e₂, r₂) = write-bind_ok _ _ c₁ tt (rw r₁ at h) in
    let final = (index_rows-SameData _ _ def key).at c₂ (rw (e₂, e₁) (refl, refl)) in
    rw (r₁, r₂) final

module _ (s : ActorState) (i : Inputs) (collection key : String) where
  -- What a delete that returned has done to records, outbox and clock.
  pub handle_delete_ok :
      (handle_delete s i collection key).0 ≡ ok tt
      → ((handle_delete s i collection key).1.last_hlc ≡ tick i.wall_ms s.last_hlc)
        × SameData
            (update_where
              (bury (fmt (tick i.wall_ms s.last_hlc)) i.now_ms)
              collection
              key
              s.conn.tables.records)
            (append_entry key collection "delete"
              (fmt (tick i.wall_ms s.last_hlc))
              none
              i.outbox_ms
              s.conn.tables).outbox
            (handle_delete s i collection key).1.conn.tables
  unfolding handle_delete
  handle_delete_ok h =
      let hlc = tick i.wall_ms s.last_hlc in
      let body =
        delete_body (index_of collection s.indexes) collection key (fmt hlc) i.now_ms i.outbox_ms in
      let (returned, same, state) = finish_ok s hlc tt tt (transaction body s.conn) h in
      let (c', same_tables, ran, kept) = transaction_ok body s.conn tt returned in
      let data' =
        delete_body_ok (index_of collection s.indexes) collection key (fmt hlc) i.now_ms i.outbox_ms
          c' ran in
      rw state (refl, rw kept (rw same_tables at data'))

  find_deleted :
      (j : String)
      → (handle_delete s i collection key).0 ≡ ok tt
      → find_id j (handle_delete s i collection key).1.conn.tables.records ≡ (
          if str_eq key j
          then Option.map
              (changed (bury (fmt (tick i.wall_ms s.last_hlc)) i.now_ms) collection)
              (find_id j s.conn.tables.records)
          else find_id j s.conn.tables.records)
  find_deleted j h =
      rw (handle_delete_ok h).1.0
        (find_id-update_where _ collection key j s.conn.tables.records (λ r. refl))

  buried_hidden :
      (c : Cipher) (kek : Option Bytes) (wall_ms now : ℕ) (hlc : Text) (o : Option RecordRow)
      → shown c kek wall_ms
          (in_collection collection (Option.map (changed (bury hlc now) collection) o))
        ≡ ok none
  unfolding shown in_collection
  buried_hidden c kek wall_ms now hlc none = refl
  buried_hidden c kek wall_ms now hlc (some r) = ground (arith, eq_iff r.collection collection)

  select_deleted :
      (handle_delete s i collection key).0 ≡ ok tt
      → select_row collection key (handle_delete s i collection key).1.conn.tables
        ≡ in_collection collection (
            Option.map
              (changed (bury (fmt (tick i.wall_ms s.last_hlc)) i.now_ms) collection)
              (find_id key s.conn.tables.records))
  unfolding select_row
  select_deleted h =
      ap (in_collection collection) (find_deleted key h ∙ rw ((eq_iff key key).1 refl) refl)

  -- After a delete that returned, a get of that record without failures finds nothing, whatever was
  -- there.
  pub get-delete :
      (c : Cipher) (wall_ms : ℕ)
      → (handle_delete s i collection key).0 ≡ ok tt
      → (handle_get c (calm (handle_delete s i collection key).1) wall_ms collection key).0
        ≡ ok none
  get-delete c wall_ms h =
      handle_get-calm c (handle_delete s i collection key).1 wall_ms collection key
      ∙ ap (shown c (handle_delete s i collection key).1.kek wall_ms) (select_deleted h)
      ∙ buried_hidden c (handle_delete s i collection key).1.kek wall_ms i.now_ms
          (fmt (tick i.wall_ms s.last_hlc)) (find_id key s.conn.tables.records)

  -- A delete that returns an error has changed no table and not the clock.
  pub handle_delete-Unchanged :
      (e : SquirrelError)
      → (handle_delete s i collection key).0 ≡ err e
      → Unchanged s (handle_delete s i collection key).1
  unfolding handle_delete
  handle_delete-Unchanged e h = finish-Unchanged s (tick i.wall_ms s.last_hlc) tt _ e h
