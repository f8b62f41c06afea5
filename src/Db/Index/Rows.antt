-- ===== src/Db/Index/Rows.antt =====
-- src/db/index.rs: the rows of the shadow tables.
use squirreld.Prelude.{
  ℕ, zero, suc, ◌+◌, ◌/◌, ◌%◌, String, List, [], ◌∷◌, ◌++◌, Text, Bool, true, false, not, Option,
  none, some, if◌then◌else◌, str_eq, ltb, map, keep_if,
}
use squirreld.Error.{Result, ok, err, db}
use squirreld.Types.{IndexDef, IndexValue, ℤ, pos, negsuc}
use squirreld.Db.Sql.{ShadowTable, SqlValue, Sql, pure, lift, ◌>>=◌, ◌>>◌}
use squirreld.Db.Index.{
  sanitize_ident, sanitize_all, field_names, folded, text_eq, all_in, find_table, update_table,
  on_sidx, on_fts,
}

-- `values.get(name)`
unfoldable pub value_of : String → List (String × IndexValue) → Option IndexValue
value_of name [] = none
value_of name ((k, v) ∷ kvs) = if str_eq k name then some v else value_of name kvs

unfoldable pub to_sql_value : IndexValue → SqlValue
to_sql_value (IndexValue.text s) = SqlValue.text s
to_sql_value (IndexValue.integer n) = SqlValue.integer n
to_sql_value (IndexValue.real f) = SqlValue.real f
to_sql_value IndexValue.null = SqlValue.null

unfoldable pub sql_or_null : Option IndexValue → SqlValue
sql_or_null none = SqlValue.null
sql_or_null (some v) = to_sql_value v

-- Decimal digits of a number of at most `fuel` digits, in front of `rest`; an i64 has 19.
unfoldable pub decimal : ℕ → ℕ → Text → Text
decimal zero n rest = rest
decimal (suc fuel) n rest =
    let more = decimal fuel (n / 10) ((48 + n % 10) ∷ rest) in
    if ltb n 10 then (48 + n) ∷ rest else more

unfoldable pub i64_to_string : ℤ → Text
i64_to_string (pos n) = decimal 19 n []
i64_to_string (negsuc n) = 45 ∷ decimal 19 (suc n) []

-- Full text takes texts and integers; a real, a null and a missing value are the empty text.
unfoldable pub fts_value : Option IndexValue → SqlValue
fts_value (some (IndexValue.text s)) = SqlValue.text s
fts_value (some (IndexValue.integer n)) = SqlValue.text (i64_to_string n)
fts_value _ = SqlValue.text []

unfoldable pub set_column : Text → SqlValue → List (Text × SqlValue) → List (Text × SqlValue)
set_column col v [] = (col, v) ∷ []
set_column col v ((k, old) ∷ rest) =
    if text_eq k col then (col, v) ∷ rest else (k, old) ∷ set_column col v rest

unfoldable pub set_columns :
    List (Text × SqlValue) → List (Text × SqlValue) → List (Text × SqlValue)
set_columns [] row = row
set_columns ((col, v) ∷ cvs) row = set_columns cvs (set_column col v row)

abbrev pub ShadowRow : Type 0
ShadowRow = String × List (Text × SqlValue)

-- `INSERT .. ON CONFLICT(record_id) DO UPDATE SET ..`: columns that are not named keep their value.
unfoldable pub upsert_shadow : String → List (Text × SqlValue) → List ShadowRow → List ShadowRow
upsert_shadow record_id cvs [] = (record_id, set_columns cvs []) ∷ []
upsert_shadow record_id cvs ((k, row) ∷ rows) =
    if str_eq k record_id
    then (k, set_columns cvs row) ∷ rows
    else (k, row) ∷ upsert_shadow record_id cvs rows

unfoldable pub without_record : String → List ShadowRow → List ShadowRow
without_record record_id = keep_if (λ r. not (str_eq r.0 record_id))

-- A statement on one table, which must exist and have the columns that are named.
unfoldable pub on_table :
    (List ShadowRow → List ShadowRow)
    → Text
    → List Text
    → List ShadowTable
    → Result (List ShadowTable)
on_table f name cols ts = elim (find_table name ts) [
  | none ↦ err db
  | some t ↦
      if all_in cols t.columns
      then ok (update_table (λ u. record u { rows = f u.rows }) name ts)
      else err db
]

abbrev shadow_values : List (String × IndexValue) → List String → List (Text × SqlValue)
shadow_values values = map (λ n. (folded n, sql_or_null (value_of n values)))

abbrev fts_values : List (String × IndexValue) → List String → List (Text × SqlValue)
fts_values values = map (λ n. (folded n, fts_value (value_of n values)))

unfoldable pub upsert_index_columns :
    String → List String → String → List (String × IndexValue) → Sql (Unit {0})
upsert_index_columns col [] record_id values = pure tt
upsert_index_columns col (f ∷ fs) record_id values = do
  cols ← lift (sanitize_all (f ∷ fs))
  on_sidx (
      on_table (upsert_shadow record_id (shadow_values values (f ∷ fs))) (folded col)
        (map folded cols))

unfoldable pub upsert_index_row : IndexDef → String → List (String × IndexValue) → Sql (Unit {0})
upsert_index_row def record_id values = do
  col ← lift (sanitize_ident def.collection)
  upsert_index_columns col (field_names def) record_id values

-- The old row is deleted before the column names are checked.
unfoldable pub upsert_fts_columns :
    String → List String → String → List (String × IndexValue) → Sql (Unit {0})
upsert_fts_columns col [] record_id values = pure tt
upsert_fts_columns col (f ∷ fs) record_id values = do
  on_fts (on_table (without_record record_id) (folded col) [])
  cols ← lift (sanitize_all (f ∷ fs))
  on_fts (
      on_table (λ rows. rows ++ ((record_id, set_columns (fts_values values (f ∷ fs)) []) ∷ []))
        (folded col) (map folded cols))

unfoldable pub upsert_fts_row : IndexDef → String → List (String × IndexValue) → Sql (Unit {0})
upsert_fts_row def record_id values = do
  col ← lift (sanitize_ident def.collection)
  upsert_fts_columns col def.fts_fields record_id values

abbrev pub is_empty {ℓ} : {A : Type ℓ} → List A → Bool
is_empty [] = true
is_empty (x ∷ xs) = false

unfoldable pub delete_index_rows : IndexDef → String → Sql (Unit {0})
delete_index_rows def record_id = do
  col ← lift (sanitize_ident def.collection)
  (if is_empty def.fields
      then pure tt
      else on_sidx (on_table (without_record record_id) (folded col) []))
  if is_empty def.fts_fields
      then pure tt
      else on_fts (on_table (without_record record_id) (folded col) [])
