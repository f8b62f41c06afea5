-- ===== src/Tests/Queries.antt =====
-- src/db/index.rs: the statement of a query at a concrete filter.
use squirreld.Prelude.{String, codes, false, some}
use squirreld.Types.{IndexValue, pos, hlc_asc, eq, gt, and_all, no_filters, and_filter, QueryOpts}

abbrev adults : QueryOpts
adults = record {
  filter = some (
      and_all (
        and_filter (eq "name" (IndexValue.text (codes "'; DROP TABLE records; --")))
          (and_filter (gt "age" (IndexValue.integer (pos 17))) no_filters)));
  limit = some 10;
  offset = 0;
  include_deleted = false;
  order = hlc_asc;
}

abbrev adults_sql : String
adults_sql =
    "SELECT r.id, r.collection, r.data, r.hlc, r.schema_version, r.format_version, r.dek_encrypted, r.deleted, r.synced, r.created_at, r.updated_at FROM records r  WHERE r.collection = ?1 AND r.deleted = 0 AND ((r.name = ?2 AND r.age > ?3)) ORDER BY r.hlc ASC LIMIT ?4 OFFSET ?5"
