-- ===== src/Db/Records/Laws.antt =====
-- src/db/records.rs: reads after writes of the `records` table.
use squirreld.Prelude.{
  String, List, [], ◌∷◌, ◌≡◌, refl, arith, Option, none, some, if◌then◌else◌, str_eq, eq_iff,
}
use squirreld.Db.Sql.{RecordRow}
use squirreld.Db.Records.{find_id, upsert_row, update_where}
use mathlib.Core.Option

-- What an upsert stores over an old row.
abbrev pub stored_over : RecordRow → Option RecordRow → RecordRow
stored_over row none = row
stored_over row (some old) = record row { created_at = old.created_at }

pub find_id-id :
    (j : String) (rs : List RecordRow) (r : RecordRow) → find_id j rs ≡ some r → r.id ≡ j
unfolding find_id
find_id-id j [] r h = cc
find_id-id j (x ∷ rs) r h = ground (arith, eq_iff x.id j, find_id-id j rs r)

-- An upsert stores the row under its id, keeps the time of creation, and leaves other ids alone.
pub find_id-upsert_row :
    (j : String) (row : RecordRow) (rs : List RecordRow)
    → find_id j (upsert_row row rs)
      ≡ (if str_eq row.id j then some (stored_over row (find_id row.id rs)) else find_id j rs)
unfolding find_id upsert_row
find_id-upsert_row j row [] = refl
find_id-upsert_row j row (r ∷ rs) =
    ground (arith, eq_iff r.id row.id, eq_iff r.id j, eq_iff row.id j, find_id-upsert_row j row rs)

abbrev pub changed : (RecordRow → RecordRow) → String → RecordRow → RecordRow
changed f collection r = if str_eq r.collection collection then f r else r

-- An update that keeps ids changes the row of its id, if that row is in the collection, and no other.
pub find_id-update_where :
    (f : RecordRow → RecordRow) (collection i j : String) (rs : List RecordRow)
    → ((r : RecordRow) → (f r).id ≡ r.id)
    → find_id j (update_where f collection i rs)
      ≡ (if str_eq i j then Option.map (changed f collection) (find_id j rs) else find_id j rs)
unfolding find_id update_where
find_id-update_where f collection i j [] keep = ground arith
find_id-update_where f collection i j (r ∷ rs) keep = ground (
  arith,
  keep r,
  eq_iff r.id i,
  eq_iff r.id j,
  eq_iff i j,
  find_id-update_where f collection i j rs keep,
)
