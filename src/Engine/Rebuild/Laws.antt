-- ===== src/Engine/Rebuild/Laws.antt =====
-- src/engine.rs, `handle_rebuild_indexes`: what it leaves alone, and what it counts.
use squirreld.Prelude.{
  ℕ, ◌+◌, ◌%◌, ◌^◌, ◌<◌, String, List, [], ◌∷◌, ◌≡◌, refl, sym, ap, ◌∙◌, arith, true, false, not,
  Option, none, if◌then◌else◌,
}
use squirreld.Error.{Result, ok, err, panic}
use squirreld.Types.{Bytes, IndexDef}
use squirreld.Crypto.{Cipher}
use squirreld.Db.Sql.{RecordRow, Db, Conn, query}
use squirreld.Db.Keeps.{Keeps, Keeps-exec, Keeps-pure, Keeps-lift, Keeps-bind}
use squirreld.Db.Outcome.{is_ok, bind_ok, query_ok}
use squirreld.Db.Records
use squirreld.Db.Records.{select_list}
use squirreld.Db.Index.Rows.{is_empty}
use squirreld.Db.Index.Writes.{Keeps-when, upsert_index_row-Keeps, upsert_fts_row-Keeps}
use squirreld.Engine.{ActorState, JsonFields}
use squirreld.Engine.Encryption.{maybe_decrypt}
use squirreld.Engine.Rebuild.{
  index_plain, rebuild_row, rebuild_rows, rebuild_all, handle_rebuild_indexes,
}

-- The tables but for those of the indexes.
abbrev pub unindexed : Db → Db
unindexed d = record d { sidx = []; fts = [] }

abbrev Stays : Db → Db → Type 0
Stays d₀ d = unindexed d ≡ unindexed d₀

module _ (c : Cipher) (kek : Option Bytes) where
  -- The rows that can be read.
  unfoldable pub readable : List RecordRow → ℕ
  readable [] = 0
  readable (r ∷ rs) = (if is_ok (maybe_decrypt c kek r) then 1 else 0) + readable rs

  -- Those of all definitions, among the rows that are not deleted.
  unfoldable pub indexable : List (String × IndexDef) → Db → ℕ
  indexable [] d = 0
  indexable ((collection, def) ∷ defs) d =
      readable (select_list collection none 0 false true d) + indexable defs d

  indexable-unindexed :
      (defs : List (String × IndexDef)) (d : Db) → indexable defs (unindexed d) ≡ indexable defs d
  unfolding indexable select_list
  indexable-unindexed [] d = refl
  indexable-unindexed ((collection, def) ∷ defs) d =
      ap (λ n. readable (select_list collection none 0 false true d) + n)
        (indexable-unindexed defs d)

  indexable-Stays :
      (defs : List (String × IndexDef)) (d₀ d : Db)
      → Stays d₀ d
      → indexable defs d ≡ indexable defs d₀
  indexable-Stays defs d₀ d e =
      sym (indexable-unindexed defs d) ∙ (ap (indexable defs) e ∙ indexable-unindexed defs d₀)

add_wrapped :
    (n total next a b : ℕ)
    → n ≡ (next + b) % 2 ^ 32
    → next ≡ (total + a) % 2 ^ 32
    → n ≡ (total + (a + b)) % 2 ^ 32
add_wrapped n total next a b h k = omega arith

module _ (c : Cipher) (kek : Option Bytes) (parse : Bytes → Option JsonFields) where
  module _ (d₀ : Db) where
    index_plain-Stays :
        (def : IndexDef) (r : RecordRow) → Keeps (Stays d₀) (index_plain c kek parse def r)
    unfolding index_plain
    index_plain-Stays def r =
        Keeps-bind _ _ (upsert_index_row-Keeps (Stays d₀) (λ d ts h. h) (λ d ts h. h) def r.id _)
          (λ u.
            Keeps-when (Stays d₀) (not (is_empty def.fts_fields)) _
              (upsert_fts_row-Keeps (Stays d₀) (λ d ts h. h) (λ d ts h. h) def r.id _))

    rebuild_row-Stays :
        (def : IndexDef) (total : ℕ) (r : Result RecordRow)
        → Keeps (Stays d₀) (rebuild_row c kek parse def total r)
    unfolding rebuild_row
    rebuild_row-Stays def total (err e) = Keeps-pure total
    rebuild_row-Stays def total panic = Keeps-lift panic
    rebuild_row-Stays def total (ok r) =
        Keeps-bind _ _ (index_plain-Stays def r) (λ u. Keeps-pure _)

    rebuild_rows-Stays :
        (def : IndexDef) (rs : List RecordRow) (total : ℕ)
        → Keeps (Stays d₀) (rebuild_rows c kek parse def rs total)
    unfolding rebuild_rows
    rebuild_rows-Stays def [] total = Keeps-pure total
    rebuild_rows-Stays def (r ∷ rs) total =
        Keeps-bind _ _ (rebuild_row-Stays def total (maybe_decrypt c kek r))
          (λ next. rebuild_rows-Stays def rs next)

    rebuild_all-Stays :
        (defs : List (String × IndexDef)) (total : ℕ)
        → Keeps (Stays d₀) (rebuild_all c kek parse defs total)
    unfolding rebuild_all Records.list
    rebuild_all-Stays [] total = Keeps-pure total
    rebuild_all-Stays ((collection, def) ∷ defs) total =
        Keeps-bind _ _ (Keeps-exec _ (λ d h. h)) (λ rows.
          Keeps-bind _ _ (rebuild_rows-Stays def rows total) (λ next. rebuild_all-Stays defs next))

  rebuild_row-ok :
      (def : IndexDef) (total n : ℕ) (r : Result RecordRow) (conn : Conn)
      → total < 2 ^ 32
      → (rebuild_row c kek parse def total r conn).0 ≡ ok n
      → n ≡ (total + (if is_ok r then 1 else 0)) % 2 ^ 32
  unfolding rebuild_row
  rebuild_row-ok def total n (err e) conn b h = ground (arith, h, b)
  rebuild_row-ok def total n panic conn b h = absurd (cc)
  rebuild_row-ok def total n (ok r) conn b h =
      let (u, _, _, e) = bind_ok (index_plain c kek parse def r) _ conn n h in ground (arith, e)

  rebuild_rows-ok :
      (def : IndexDef) (rs : List RecordRow) (total n : ℕ) (conn : Conn)
      → total < 2 ^ 32
      → (rebuild_rows c kek parse def rs total conn).0 ≡ ok n
      → n ≡ (total + readable c kek rs) % 2 ^ 32
  unfolding rebuild_rows readable
  rebuild_rows-ok def [] total n conn b h = ground (arith, h, b)
  rebuild_rows-ok def (r ∷ rs) total n conn b h =
      let (next, e, _, h') =
        bind_ok (rebuild_row c kek parse def total (maybe_decrypt c kek r)) _ conn n h in
      let one = rebuild_row-ok def total next (maybe_decrypt c kek r) conn b e in
      let more = rebuild_rows-ok def rs next n _ (omega (arith, one)) h' in omega (arith, one, more)

  rebuild_all-ok :
      (defs : List (String × IndexDef)) (total n : ℕ) (conn : Conn)
      → total < 2 ^ 32
      → (rebuild_all c kek parse defs total conn).0 ≡ ok n
      → n ≡ (total + indexable c kek defs conn.tables) % 2 ^ 32
  unfolding rebuild_all indexable Records.list
  rebuild_all-ok [] total n conn b h = ground (arith, h, b)
  rebuild_all-ok ((collection, def) ∷ defs) total n conn b h =
      let (rows, e₁, _, h₁) =
        bind_ok (query (select_list collection none 0 false true)) _ conn n h in
      let (read, same) = query_ok (select_list collection none 0 false true) conn rows e₁ in
      let listed = (query (select_list collection none 0 false true) conn).1 in
      let (next, e₂, _, h₂) = bind_ok (rebuild_rows c kek parse def rows total) _ listed n h₁ in
      let kept = (rebuild_rows-Stays conn.tables def rows total).at listed (ap unindexed same) in
      let counted = rebuild_rows-ok def rows total next listed b e₂ in
      let rest = rebuild_all-ok defs next n _ (omega (arith, counted)) h₂ in
      add_wrapped n total next
        (readable c kek (select_list collection none 0 false true conn.tables))
        (indexable c kek defs conn.tables)
        (rest ∙ ap (λ k. (next + k) % 2 ^ 32) (indexable-Stays c kek defs conn.tables _ kept))
        (counted ∙ ap (λ rs. (total + readable c kek rs) % 2 ^ 32) read)

-- Whichever statements fail, a rebuild changes no table but those of the indexes; and where it returns,
-- the number is that of the rows of all registered collections that are not deleted and can be read.
pub handle_rebuild_indexes_lem :
    (c : Cipher) (parse : Bytes → Option JsonFields) (s : ActorState)
    → (unindexed (handle_rebuild_indexes c parse s).1.conn.tables ≡ unindexed s.conn.tables)
      × ((n : ℕ)
          → (handle_rebuild_indexes c parse s).0 ≡ ok n
          → n ≡ indexable c s.kek s.indexes s.conn.tables % 2 ^ 32)
unfolding handle_rebuild_indexes
handle_rebuild_indexes_lem c parse s = (
  (rebuild_all-Stays c s.kek parse s.conn.tables s.indexes 0).at s.conn refl,
  λ n h. omega (arith, rebuild_all-ok c s.kek parse s.indexes 0 n s.conn (omega arith) h),
)
