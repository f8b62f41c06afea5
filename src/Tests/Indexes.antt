-- ===== src/Tests/Indexes.antt =====
-- src/engine.rs: a rebuild at a table of three records, of which one is deleted and one cannot be read.
use squirreld.Prelude.{
  ℕ, ◌%◌, ◌^◌, ◌<◌, ◌≤◌, All, length, keep_if, refl, cmp_text, String, List, [], ◌∷◌, codes, ◌≡◌,
  Bool, true, false, Option, none, some,
}
use squirreld.Error.{ok}
use squirreld.Types.{Bytes, IndexDef, ColumnAffinity}
use squirreld.Db.Sql.{RecordRow, healthy, empty_db}
use squirreld.Engine.{ActorState, JsonFields}
use squirreld.Engine.Rebuild.{handle_rebuild_indexes}
use squirreld.Engine.Rebuild.Laws.{unindexed, indexable, handle_rebuild_indexes_lem}
use squirreld.Db.Records
use squirreld.Db.Records.{listed}
use squirreld.Db.Sql.{exec}
use squirreld.Db.Records.Listing.{Sorted, IsWanted, list_lem}
use squirreld.Tests.Data.{framing, alice}

abbrev note : String → Bool → ℕ → RecordRow
note i deleted version = record {
  id = i;
  collection = "notes";
  payload = 123 ∷ 125 ∷ [];
  hlc = 49 ∷ [];
  schema_version = 0;
  format_version = version;
  dek_encrypted = none;
  deleted = deleted;
  synced = false;
  created_at = 1;
  updated_at = 1;
}

abbrev titles : IndexDef
titles = record {
  collection = "notes";
  fields = record { name = "title"; affinity = ColumnAffinity.text } ∷ [];
  fts_fields = [];
}

abbrev a_title : Bytes → Option JsonFields
a_title bytes =
    some (record { as_str = λ k. some (codes "hi"); as_i64 = λ k. none; as_f64 = λ k. none })

abbrev indexed : ActorState
indexed = record alice {
  conn = healthy (record empty_db {
    records = note "a" false 0 ∷ note "b" true 0 ∷ note "c" false 1 ∷ [];
    sidx = record { name = codes "notes"; columns = codes "title" ∷ []; rows = [] } ∷ [];
  });
  indexes = ("notes", titles) ∷ [];
}

handle_rebuild_indexes_lem_example :
    (unindexed (handle_rebuild_indexes framing a_title indexed).1.conn.tables
      ≡ unindexed indexed.conn.tables)
    × ((n : ℕ)
        → (handle_rebuild_indexes framing a_title indexed).0 ≡ ok n
        → n ≡ indexable framing indexed.kek indexed.indexes indexed.conn.tables % 2 ^ 32)
handle_rebuild_indexes_lem_example = handle_rebuild_indexes_lem framing a_title indexed

abbrev listed_rows : List RecordRow
listed_rows = note "a" false 0 ∷ note "c" false 1 ∷ []

list_lem_example :
    All (IsWanted "notes" false) listed_rows
    × Sorted true listed_rows
    × ((n : ℕ) → some 5 ≡ some n → n < 2 ^ 63 → length listed_rows ≤ n)
    × (◌≡◌ {A = Option ℕ} (some 5) none
        → ◌≡◌ {A = ℕ} 0 0
        → (p : RecordRow → Bool) → ((r : RecordRow) → p r ≡ true → IsWanted "notes" false r)
        → length (keep_if p listed_rows) ≡ length (keep_if p indexed.conn.tables.records))
unfolding Records.list Records.select_list Records.order_by_hlc Records.insert_by_hlc Records.listed
    exec cmp_text
list_lem_example = list_lem "notes" (some 5) 0 false true indexed.conn listed_rows refl
