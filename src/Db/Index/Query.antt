-- ===== src/Db/Index/Query.antt =====
-- src/db/index.rs: the SQL text of a query and the values that are bound to it.
pub mod Alike
pub mod Values
use squirreld.Prelude.{
  ℕ, suc, ◌+◌, ◌-◌, ◌%◌, ◌^◌, ltb, String, List, [], ◌∷◌, ◌++◌, Text, codes, ◌≡◌, refl, sym, ap,
  ◌∙◌, arith, Bool, true, false, not, ◌||◌, Option, none, some, if◌then◌else◌, str_eq, length,
  length-append,
}
use mathlib.Core.Path.{subst}
use mathlib.Core.Option
use mathlib.Core.List.{append_assoc, append-nil}
use Prim.Native.String.{◌++◌ as ◌<>◌}
use squirreld.Prelude.Decimals.{to_string}
use squirreld.Error.{Result, ok, err, panic, other}
use squirreld.Types.{
  IndexValue, IndexDef, ℤ, pos, negsuc, SortOrder, hlc_asc, hlc_desc, QueryFilter, eq, lt, gt, le,
  ge, contains, and_all, or_any, QueryFilters, no_filters, and_filter, QueryOpts,
}
use squirreld.Db.Sql.{RecordRow, Db, Sql, SqlValue, lift, exec, continue, ◌>>=◌}
use squirreld.Db.Index.{sanitize_ident}
use squirreld.Db.Index.Rows.{to_sql_value}

-- A text that is built, or an error, and the values that are bound so far.
abbrev pub Built : Type 0 → Type 0
Built A = Result A × List SqlValue

unfoldable pub is_record_column : String → Bool
is_record_column field =
    str_eq field "id"
    || str_eq field "hlc"
    || str_eq field "schema_version"
    || str_eq field "deleted"
    || str_eq field "created_at"
    || str_eq field "updated_at"

unfoldable pub col_prefix : String → Bool → String
col_prefix field has_shadow = if not has_shadow || is_record_column field then "r." else "s."

-- The value is bound, and the text names its place.
abbrev pub placed : String → SqlValue → List SqlValue → Built String
placed sql value params =
    let params' = params ++ (value ∷ []) in
    (ok (sql <> ("?" <> to_string (length params'))), params')

unfoldable pub compared :
    String → String → String → SqlValue → Result String → List SqlValue → Built String
compared prefix op field value (ok col) params = placed (prefix <> (col <> op)) value params
compared prefix op field value (err e) params = (err e, params)
compared prefix op field value panic params = (panic, params)

abbrev pub compare_sql : Bool → String → String → IndexValue → List SqlValue → Built String
compare_sql has_shadow op field value params =
    compared (col_prefix field has_shadow) op field (to_sql_value value) (sanitize_ident field)
      params

abbrev pub close : Built String → Built String
close (ok sql, params) = (ok (sql <> ")"), params)
close (err e, params) = (err e, params)
close (panic, params) = (panic, params)

abbrev pub match_sql : String → Bool → Text → List SqlValue → Built String
match_sql collection has_fts words params =
    if has_fts
    then close (
        placed
          ("r.id IN (SELECT record_id FROM fts_"
            <> (collection <> (" WHERE fts_" <> (collection <> " MATCH "))))
          (SqlValue.text words) params)
    else (
      err (other "QueryFilter::Contains requires an FTS index (fts_fields) for this collection"),
      params,
    )

-- `parts.join(sep)`
unfoldable pub join : String → List String → String
join sep [] = ""
join sep (p ∷ []) = p
join sep (p ∷ q ∷ ps) = p <> (sep <> join sep (q ∷ ps))

abbrev pub joined_parts : String → Built (List String) → Built String
joined_parts sep (ok parts, params) = (ok ("(" <> (join sep parts <> ")")), params)
joined_parts sep (err e, params) = (err e, params)
joined_parts sep (panic, params) = (panic, params)

abbrev pub cons_part : String → Built (List String) → Built (List String)
cons_part p (ok ps, params) = (ok (p ∷ ps), params)
cons_part p (err e, params) = (err e, params)
cons_part p (panic, params) = (panic, params)

-- `collect::<Result<Vec<_>>>()` ends at the first error.
abbrev pub then_parts : Built String → (List SqlValue → Built (List String)) → Built (List String)
then_parts (ok p, params) rest = cons_part p (rest params)
then_parts (err e, params) rest = (err e, params)
then_parts (panic, params) rest = (panic, params)

module _ (collection : String) (has_shadow has_fts : Bool) where
  unfoldable mutual
    pub build_filter_sql : QueryFilter → List SqlValue → Built String
    build_filter_sql (eq field value) params = compare_sql has_shadow " = " field value params
    build_filter_sql (lt field value) params = compare_sql has_shadow " < " field value params
    build_filter_sql (gt field value) params = compare_sql has_shadow " > " field value params
    build_filter_sql (le field value) params = compare_sql has_shadow " <= " field value params
    build_filter_sql (ge field value) params = compare_sql has_shadow " >= " field value params
    build_filter_sql (contains words) params = match_sql collection has_fts words params
    build_filter_sql (and_all no_filters) params = (ok "1", params)
    build_filter_sql (and_all (and_filter f fs)) params =
        joined_parts " AND " (then_parts (build_filter_sql f params) (build_parts fs))
    build_filter_sql (or_any no_filters) params = (ok "0", params)
    build_filter_sql (or_any (and_filter f fs)) params =
        joined_parts " OR " (then_parts (build_filter_sql f params) (build_parts fs))

    pub build_parts : QueryFilters → List SqlValue → Built (List String)
    build_parts no_filters params = (ok [], params)
    build_parts (and_filter f fs) params = then_parts (build_filter_sql f params) (build_parts fs)

-- `as i64`
unfoldable pub as_i64 : ℕ → ℤ
as_i64 n = let m = n % 2 ^ 64 in if ltb m (2 ^ 63) then pos m else negsuc (2 ^ 64 - 1 - m)

abbrev pub limit_value : Option ℕ → SqlValue
limit_value none = SqlValue.integer (negsuc 0)
limit_value (some l) = SqlValue.integer (as_i64 l)

-- `def.map(|d| !d.fields.is_empty()).unwrap_or(false)`
abbrev pub has_some {ℓ} : {A : Type ℓ} → List A → Bool
has_some [] = false
has_some (x ∷ xs) = true

abbrev pub has_shadow_of : Option IndexDef → Bool
has_shadow_of none = false
has_shadow_of (some def) = has_some def.fields

abbrev pub has_fts_of : Option IndexDef → Bool
has_fts_of none = false
has_fts_of (some def) = has_some def.fts_fields

abbrev pub and_clause : Built String → Built String
and_clause (ok clause, params) = (ok (" AND (" <> (clause <> ")")), params)
and_clause (err e, params) = (err e, params)
and_clause (panic, params) = (panic, params)

unfoldable pub filter_sql : String → Bool → Bool → Option QueryFilter → List SqlValue → Built String
filter_sql col has_shadow has_fts none params = (ok "", params)
filter_sql col has_shadow has_fts (some f) params =
    and_clause (build_filter_sql col has_shadow has_fts f params)

abbrev pub order_text : SortOrder → String
order_text hlc_asc = "ASC"
order_text hlc_desc = "DESC"

-- The text around the filter; `bound` values are bound before the limit.
unfoldable pub select_sql : String → Bool → QueryOpts → String → ℕ → String
select_sql col has_shadow opts filter bound =
    "SELECT r.id, r.collection, r.data, r.hlc, r.schema_version, r.format_version, r.dek_encrypted, r.deleted, r.synced, r.created_at, r.updated_at FROM records r "
    <> ((if has_shadow then "JOIN sidx_" <> (col <> " s ON s.record_id = r.id") else "")
        <> (" WHERE r.collection = ?1"
            <> ((if opts.include_deleted then "" else " AND r.deleted = 0")
                <> (filter
                    <> (" ORDER BY r.hlc "
                        <> (order_text opts.order
                            <> (" LIMIT ?"
                                <> (to_string (bound + 1)
                                    <> (" OFFSET ?" <> to_string (bound + 2))))))))))

abbrev pub finished : String → Bool → QueryOpts → Built String → Built String
finished col has_shadow opts (ok filter, params) = (
  ok (select_sql col has_shadow opts filter (length params)),
  params ++ (limit_value opts.limit ∷ SqlValue.integer (as_i64 opts.offset) ∷ []),
)
finished col has_shadow opts (err e, params) = (err e, params)
finished col has_shadow opts (panic, params) = (panic, params)

-- The statement of a query of the collection, of which `col` is the checked name.
unfoldable pub statement : String → String → Option IndexDef → QueryOpts → Built String
statement collection col def opts = finished col (has_shadow_of def) opts (
    filter_sql col (has_shadow_of def) (has_fts_of def) opts.filter
      (SqlValue.text (codes collection) ∷ []))

-- `run` is SQLite: the rows that a text with its values selects from the tables.
module _ (run : String → List SqlValue → Db → Result (List RecordRow)) where
  abbrev pub run_built : Built String → Sql (List RecordRow)
  run_built (ok sql, params) = exec (λ d. (run sql params d, d))
  run_built (err e, params) = lift (err e)
  run_built (panic, params) = lift panic

  unfoldable pub query : String → Option IndexDef → QueryOpts → Sql (List RecordRow)
  query collection def opts =
      lift (sanitize_ident collection) >>= (λ col. run_built (statement collection col def opts))
