-- ===== src/Db/Index/Query/Values.antt =====
-- src/db/index.rs, `query`: what the text of a statement holds, and which values are bound to it.
use squirreld.Prelude.{String, List, [], ◌∷◌, ◌++◌, ◌≡◌, Bool, Option, none, some, length}
use mathlib.Core.Option
use squirreld.Types.{
  IndexValue, QueryFilter, eq, lt, gt, le, ge, contains, and_all, or_any, QueryFilters, no_filters,
  and_filter, QueryOpts,
}
use squirreld.Db.Sql.{SqlValue}
use squirreld.Db.Index.{sanitize_ident}
use squirreld.Db.Index.Rows.{to_sql_value}
use squirreld.Db.Index.Query.{build_filter_sql, build_parts}
use squirreld.Db.Index.Query.Alike.{
  Agrees, compared-Agrees, match-Agrees, nothing, joined-Agrees, then-Agrees,
}

-- The values of a filter, in the order of the text, and the filter without them.
mutual
  pub filter_values : QueryFilter → List SqlValue
  filter_values (eq field value) = to_sql_value value ∷ []
  filter_values (lt field value) = to_sql_value value ∷ []
  filter_values (gt field value) = to_sql_value value ∷ []
  filter_values (le field value) = to_sql_value value ∷ []
  filter_values (ge field value) = to_sql_value value ∷ []
  filter_values (contains words) = SqlValue.text words ∷ []
  filter_values (and_all fs) = all_values fs
  filter_values (or_any fs) = all_values fs

  pub all_values : QueryFilters → List SqlValue
  all_values no_filters = []
  all_values (and_filter f fs) = filter_values f ++ all_values fs

mutual
  pub erased : QueryFilter → QueryFilter
  erased (eq field value) = eq field IndexValue.null
  erased (lt field value) = lt field IndexValue.null
  erased (gt field value) = gt field IndexValue.null
  erased (le field value) = le field IndexValue.null
  erased (ge field value) = ge field IndexValue.null
  erased (contains words) = contains []
  erased (and_all fs) = and_all (all_erased fs)
  erased (or_any fs) = or_any (all_erased fs)

  pub all_erased : QueryFilters → QueryFilters
  all_erased no_filters = no_filters
  all_erased (and_filter f fs) = and_filter (erased f) (all_erased fs)

module _ (collection : String) (has_shadow has_fts : Bool) where
  mutual
    unfolding filter_values erased build_filter_sql

    filter-Agrees :
        (f : QueryFilter) (ps qs : List SqlValue)
        → length ps ≡ length qs
        → Agrees ps
            (filter_values f)
            (build_filter_sql collection has_shadow has_fts f ps)
            (build_filter_sql collection has_shadow has_fts (erased f) qs)
    filter-Agrees (eq field value) ps qs h =
        compared-Agrees _ " = " field _ _ (sanitize_ident field) ps qs h
    filter-Agrees (lt field value) ps qs h =
        compared-Agrees _ " < " field _ _ (sanitize_ident field) ps qs h
    filter-Agrees (gt field value) ps qs h =
        compared-Agrees _ " > " field _ _ (sanitize_ident field) ps qs h
    filter-Agrees (le field value) ps qs h =
        compared-Agrees _ " <= " field _ _ (sanitize_ident field) ps qs h
    filter-Agrees (ge field value) ps qs h =
        compared-Agrees _ " >= " field _ _ (sanitize_ident field) ps qs h
    filter-Agrees (contains words) ps qs h = match-Agrees collection has_fts words [] ps qs h
    filter-Agrees (and_all no_filters) ps qs h = nothing ps qs h
    filter-Agrees (and_all (and_filter f fs)) ps qs h = joined-Agrees " AND " ps _ _ _ _ _ (
        then-Agrees ps (filter_values f) (all_values fs) _ _ _ _ (filter-Agrees f ps qs h)
          (parts-Agrees fs _ _ ((filter-Agrees f ps qs h).count)))
    filter-Agrees (or_any no_filters) ps qs h = nothing ps qs h
    filter-Agrees (or_any (and_filter f fs)) ps qs h = joined-Agrees " OR " ps _ _ _ _ _ (
        then-Agrees ps (filter_values f) (all_values fs) _ _ _ _ (filter-Agrees f ps qs h)
          (parts-Agrees fs _ _ ((filter-Agrees f ps qs h).count)))

    parts-Agrees :
        (fs : QueryFilters) (ps qs : List SqlValue)
        → length ps ≡ length qs
        → Agrees ps
            (all_values fs)
            (build_parts collection has_shadow has_fts fs ps)
            (build_parts collection has_shadow has_fts (all_erased fs) qs)
    parts-Agrees no_filters ps qs h = nothing ps qs h
    parts-Agrees (and_filter f fs) ps qs h =
        then-Agrees ps (filter_values f) (all_values fs) _ _ _ _ (filter-Agrees f ps qs h)
          (parts-Agrees fs _ _ ((filter-Agrees f ps qs h).count))

abbrev pub opts_values : Option QueryFilter → List SqlValue
opts_values none = []
opts_values (some f) = filter_values f

abbrev pub erased_opts : QueryOpts → QueryOpts
erased_opts opts = record opts { filter = Option.map erased opts.filter; limit = none; offset = 0 }
