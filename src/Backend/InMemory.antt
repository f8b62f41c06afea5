-- ===== src/Backend/InMemory.antt =====
-- src/backend/in_memory.rs: the record half. The HashMap is a list with one record for each key; its
-- iteration order, which Rust leaves open, is the order of the list.
pub mod Newest
use squirreld.Prelude.{
  ℕ, String, List, [], ◌∷◌, Text, ◌≡◌, Bool, true, false, not, ◌&&◌, Option, none, some,
  if◌then◌else◌, str_eq, text_lt, cmp_text, keep_if,
}
use squirreld.Backend.{
  OutboxPushEntry, RemoteRecord, PushResult, pushed, conflict_at, RecordBackend, Pulled, records,
}

abbrev pub InMemoryStore : Type 0
InMemoryStore = List RemoteRecord

unfoldable pub same_key : String → String → RemoteRecord → Bool
same_key i collection r = str_eq r.record_id i && str_eq r.collection collection

unfoldable pub get : String → String → InMemoryStore → Option RemoteRecord
get i collection [] = none
get i collection (r ∷ rs) = if same_key i collection r then some r else get i collection rs

unfoldable pub insert : RemoteRecord → InMemoryStore → InMemoryStore
insert new [] = new ∷ []
insert new (r ∷ rs) =
    if same_key new.record_id new.collection r then new ∷ rs else r ∷ insert new rs

abbrev pub remote_record : OutboxPushEntry → RemoteRecord
remote_record e = record {
  record_id = e.record_id;
  collection = e.collection;
  hlc = e.hlc;
  payload = e.payload;
  dek_encrypted = e.dek_encrypted;
  deleted = str_eq e.operation "delete";
  schema_version = e.schema_version;
  format_version = e.format_version;
}

-- `existing.hlc >= entry.hlc`
unfoldable pub is_stale : OutboxPushEntry → Option RemoteRecord → Bool
is_stale e none = false
is_stale e (some existing) = not (text_lt existing.hlc e.hlc)

unfoldable pub push_one : OutboxPushEntry → InMemoryStore → PushResult × InMemoryStore
push_one e store =
    if is_stale e (get e.record_id e.collection store)
    then (conflict_at e.record_id e.seq, store)
    else (pushed (e.seq ∷ []), insert (remote_record e) store)

unfoldable pub is_after : Option Text → RemoteRecord → Bool
is_after none r = true
is_after (some cp) r = text_lt cp r.hlc

-- `sort_by` on the clock, which is stable.
unfoldable pub insert_by_hlc : RemoteRecord → List RemoteRecord → List RemoteRecord
insert_by_hlc r [] = r ∷ []
insert_by_hlc r (x ∷ xs) = if text_lt x.hlc r.hlc then x ∷ insert_by_hlc r xs else r ∷ x ∷ xs

unfoldable pub sort_by_hlc : List RemoteRecord → List RemoteRecord
sort_by_hlc [] = []
sort_by_hlc (r ∷ rs) = insert_by_hlc r (sort_by_hlc rs)

unfoldable pub pull_since : Option Text → InMemoryStore → Pulled
pull_since checkpoint store = records (sort_by_hlc (keep_if (is_after checkpoint) store))

abbrev pub in_memory : String → RecordBackend InMemoryStore
in_memory i = record { backend_id = i; push_one = push_one; pull_since = pull_since }
