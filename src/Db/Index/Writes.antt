-- ===== src/Db/Index/Writes.antt =====
-- src/db/index.rs: the rows of the shadow tables are written, and nothing else.
use squirreld.Prelude.{String, List, [], ◌∷◌, Bool, true, false, if◌then◌else◌}
use squirreld.Types.{IndexDef, IndexValue}
use squirreld.Db.Sql.{Db, Sql, ShadowTable, pure}
use squirreld.Db.Keeps.{Keeps, Keeps-exec, Keeps-pure, Keeps-lift, Keeps-bind}
use squirreld.Db.Index.{sanitize_all, sanitize_ident, field_names}
use squirreld.Db.Index.Rows.{
  upsert_index_row, upsert_index_columns, upsert_fts_row, upsert_fts_columns,
}

pub Keeps-when :
    (P : Db → Type 0) (b : Bool) (m : Sql (Unit {0}))
    → Keeps P m
    → Keeps P (if b then m else pure tt)
Keeps-when P true m k = k
Keeps-when P false m k = Keeps-pure tt

-- For an invariant that does not speak of the shadow tables.
module _ (P : Db → Type 0)
    (on_index : (d : Db) (ts : List ShadowTable) → P d → P (record d { sidx = ts }))
    (on_text : (d : Db) (ts : List ShadowTable) → P d → P (record d { fts = ts })) where
  upsert_index_columns-Keeps :
      (col : String) (names : List String) (key : String) (values : List (String × IndexValue))
      → Keeps P (upsert_index_columns col names key values)
  unfolding upsert_index_columns
  upsert_index_columns-Keeps col [] key values = Keeps-pure tt
  upsert_index_columns-Keeps col (f ∷ fs) key values =
      Keeps-bind _ _ (Keeps-lift (sanitize_all (f ∷ fs)))
        (λ cols. Keeps-exec _ (λ d h. on_index d _ h))

  upsert_fts_columns-Keeps :
      (col : String) (names : List String) (key : String) (values : List (String × IndexValue))
      → Keeps P (upsert_fts_columns col names key values)
  unfolding upsert_fts_columns
  upsert_fts_columns-Keeps col [] key values = Keeps-pure tt
  upsert_fts_columns-Keeps col (f ∷ fs) key values =
      Keeps-bind _ _ (Keeps-exec _ (λ d h. on_text d _ h)) (λ u.
        Keeps-bind _ _ (Keeps-lift (sanitize_all (f ∷ fs)))
          (λ cols. Keeps-exec _ (λ d h. on_text d _ h)))

  pub upsert_index_row-Keeps :
      (def : IndexDef) (key : String) (values : List (String × IndexValue))
      → Keeps P (upsert_index_row def key values)
  unfolding upsert_index_row
  upsert_index_row-Keeps def key values =
      Keeps-bind _ _ (Keeps-lift (sanitize_ident def.collection))
        (λ col. upsert_index_columns-Keeps col (field_names def) key values)

  pub upsert_fts_row-Keeps :
      (def : IndexDef) (key : String) (values : List (String × IndexValue))
      → Keeps P (upsert_fts_row def key values)
  unfolding upsert_fts_row
  upsert_fts_row-Keeps def key values =
      Keeps-bind _ _ (Keeps-lift (sanitize_ident def.collection))
        (λ col. upsert_fts_columns-Keeps col def.fts_fields key values)
