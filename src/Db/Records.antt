-- ===== src/Db/Records.antt =====
-- src/db/records.rs: the statements on the `records` table.
pub mod Laws
pub mod Listing
use squirreld.Prelude.{
  ℕ, zero, suc, ◌^◌, ◌<◌, String, List, [], ◌∷◌, Text, ◌≡◌, Bool, true, false, not, ◌&&◌, ◌||◌,
  Option, none, some, Ordering, if◌then◌else◌, str_eq, ltb, text_lt, cmp_text, take, drop, keep_if,
}
use squirreld.Error.{Result}
use squirreld.Db.Sql.{RecordRow, Db, Sql, write, query}
use mathlib.Core.Option

-- The row with this primary key.
unfoldable pub find_id : String → List RecordRow → Option RecordRow
find_id i [] = none
find_id i (r ∷ rs) = if str_eq r.id i then some r else find_id i rs

-- `INSERT .. ON CONFLICT(id) DO UPDATE SET ..` of everything but `id` and `created_at`.
unfoldable pub upsert_row : RecordRow → List RecordRow → List RecordRow
upsert_row row [] = row ∷ []
upsert_row row (r ∷ rs) =
    if str_eq r.id row.id
    then record row { created_at = r.created_at } ∷ rs
    else r ∷ upsert_row row rs

unfoldable pub upsert : RecordRow → Sql (Unit {0})
upsert row = write (λ d. record d {
  records = upsert_row (record row { deleted = false; synced = false }) d.records;
})

unfoldable pub upsert_remote : RecordRow → Sql (Unit {0})
upsert_remote row =
    write (λ d. record d { records = upsert_row (record row { synced = true }) d.records })

-- `AND collection = ?2`
unfoldable pub in_collection : String → Option RecordRow → Option RecordRow
in_collection collection none = none
in_collection collection (some r) = if str_eq r.collection collection then some r else none

unfoldable pub select_row : String → String → Db → Option RecordRow
select_row collection i d = in_collection collection (find_id i d.records)

unfoldable pub get : String → String → Sql (Option RecordRow)
get collection i = query (select_row collection i)

-- `UPDATE records SET .. WHERE id = ? AND collection = ?`
unfoldable pub update_where :
    (RecordRow → RecordRow) → String → String → List RecordRow → List RecordRow
update_where f collection i [] = []
update_where f collection i (r ∷ rs) =
    (if str_eq r.id i && str_eq r.collection collection then f r else r)
    ∷ update_where f collection i rs

abbrev pub bury : Text → ℕ → RecordRow → RecordRow
bury hlc now r = record r { deleted = true; hlc = hlc; synced = false; updated_at = now }

unfoldable pub soft_delete : String → String → Text → ℕ → Sql (Unit {0})
soft_delete collection i hlc now =
    write (λ d. record d { records = update_where (bury hlc now) collection i d.records })

-- `ORDER BY hlc`; rows of one `hlc`, whose order SQLite leaves open, stay in row order.
unfoldable pub insert_by_hlc : Bool → RecordRow → List RecordRow → List RecordRow
insert_by_hlc asc r [] = r ∷ []
insert_by_hlc asc r (x ∷ xs) =
    if (if asc then text_lt x.hlc r.hlc else text_lt r.hlc x.hlc)
    then x ∷ insert_by_hlc asc r xs
    else r ∷ x ∷ xs

unfoldable pub order_by_hlc : Bool → List RecordRow → List RecordRow
order_by_hlc asc [] = []
order_by_hlc asc (r ∷ rs) = insert_by_hlc asc r (order_by_hlc asc rs)

-- `LIMIT ? OFFSET ?`, the offset cast to i64: a negative one is no offset for SQLite, and a negative
-- limit is no limit.
abbrev pub offset_val : ℕ → ℕ
offset_val n = if ltb n (2 ^ 63) then n else 0

abbrev pub limit_rows : Option ℕ → List RecordRow → List RecordRow
limit_rows none rows = rows
limit_rows (some n) rows = if ltb n (2 ^ 63) then take n rows else rows

unfoldable pub listed : String → Bool → RecordRow → Bool
listed collection include_deleted r =
    str_eq r.collection collection && (include_deleted || not r.deleted)

unfoldable pub select_list : String → Option ℕ → ℕ → Bool → Bool → Db → List RecordRow
select_list collection limit offset include_deleted asc d = limit_rows limit (
    drop (offset_val offset)
      (order_by_hlc asc (keep_if (listed collection include_deleted) d.records)))

unfoldable pub list : String → Option ℕ → ℕ → Bool → Bool → Sql (List RecordRow)
list collection limit offset include_deleted asc =
    query (select_list collection limit offset include_deleted asc)

-- `MAX(hlc)`, which is NULL for no rows.
unfoldable pub max_of : Option Text → List RecordRow → Option Text
max_of best [] = best
max_of none (r ∷ rs) = max_of (some r.hlc) rs
max_of (some t) (r ∷ rs) = max_of (some (if text_lt t r.hlc then r.hlc else t)) rs

unfoldable pub max_hlc : Sql (Option Text)
max_hlc = query (λ d. max_of none d.records)
