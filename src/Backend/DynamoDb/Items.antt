-- ===== src/Backend/DynamoDb/Items.antt =====
-- src/backend/dynamodb.rs: items and records, and the items that the table takes.
use squirreld.Prelude.{
  ℕ, ◌<◌, ◌^◌, String, List, [], ◌∷◌, ◌≡◌, refl, arith, Bool, true, false, not, ◌==◌, Option, none,
  some, if◌then◌else◌, str_eq, All,
}
use squirreld.Prelude.Decimals.{to_string, parse_below, parse_below-to_string}
use squirreld.Types.{Bytes}
use squirreld.Backend.{OutboxPushEntry}
use squirreld.Backend.InMemory.{remote_record}
use squirreld.Backend.DynamoDb.{
  AttributeValue, str, txt, num, bin, Item, attr, item_from_entry, or_zero, remote_record_from_item,
  ScalarAttributeType, KeyType, scalar_s, scalar_n, scalar_b, CreateTable, table_request,
}

or_zero-parse : (bound n : ℕ) → n < bound → or_zero (parse_below bound (to_string n)) ≡ n
or_zero-parse bound n h = rw (parse_below-to_string bound n h)

-- A flag is stored as 1 or 0.
deleted_flag :
    (b : Bool) → not (or_zero (parse_below (2 ^ 8) (to_string (if b then 1 else 0))) == 0) ≡ b
deleted_flag true = rw (or_zero-parse (2 ^ 8) 1 (omega arith)) refl
deleted_flag false = rw (or_zero-parse (2 ^ 8) 0 (omega arith)) refl

-- The item of an entry whose versions are in range is read back as the record that a store in memory
-- keeps for the entry.
pub remote_record_from_item-item_from_entry :
    (e : OutboxPushEntry)
    → e.schema_version < 2 ^ 32
    → e.format_version < 2 ^ 8
    → remote_record_from_item (item_from_entry e) ≡ some (remote_record e)
unfolding remote_record_from_item item_from_entry
remote_record_from_item-item_from_entry e hs hf = go e.payload e.dek_encrypted
  where
    go :
        (payload dek : Option Bytes)
        → remote_record_from_item
            (item_from_entry (record e { payload = payload; dek_encrypted = dek }))
          ≡ some (remote_record (record e { payload = payload; dek_encrypted = dek }))
    go none none =
        cc (deleted_flag (str_eq e.operation "delete"), or_zero-parse _ _ hs, or_zero-parse _ _ hf)
    go none (some d) =
        cc (deleted_flag (str_eq e.operation "delete"), or_zero-parse _ _ hs, or_zero-parse _ _ hf)
    go (some p) none =
        cc (deleted_flag (str_eq e.operation "delete"), or_zero-parse _ _ hs, or_zero-parse _ _ hf)
    go (some p) (some d) =
        cc (deleted_flag (str_eq e.operation "delete"), or_zero-parse _ _ hs, or_zero-parse _ _ hf)

abbrev type_of : AttributeValue → ScalarAttributeType
type_of (str s) = scalar_s
type_of (txt t) = scalar_s
type_of (num n) = scalar_n
type_of (bin b) = scalar_b

abbrev defined_type : String → List (String × ScalarAttributeType) → Option ScalarAttributeType
defined_type name [] = none
defined_type name ((k, t) ∷ rest) = if str_eq k name then some t else defined_type name rest

-- The item has a value for the key attribute, of the type that the table defines for it.
abbrev HasKey : CreateTable → Item → String × KeyType → Type 0
HasKey t item (name, kind) =
    (v : AttributeValue) × (attr name item ≡ some v)
    × (defined_type name t.attribute_definitions ≡ some (type_of v))

-- The item can be stored, and it stands in each index.
pub record Fits (t : CreateTable) (item : Item) : Type 0 where
  pub keys : All (HasKey t item) t.key_schema
  pub indexed : All (λ i. All (HasKey t item) i.key_schema) t.global_secondary_indexes

-- The keys of the table and of its index, as they stand in the item of an entry.
pub keys-item_from_entry :
    (e : OutboxPushEntry)
    → (attr "record_id" (item_from_entry e) ≡ some (str e.record_id))
      × (attr "collection" (item_from_entry e) ≡ some (str e.collection))
      × (attr "_p" (item_from_entry e) ≡ some (str "main"))
      × (attr "hlc" (item_from_entry e) ≡ some (txt e.hlc))
unfolding item_from_entry attr
keys-item_from_entry e = go e.payload e.dek_encrypted
  where
    go :
        (payload dek : Option Bytes)
        → let item = item_from_entry (record e { payload = payload; dek_encrypted = dek }) in
          (attr "record_id" item ≡ some (str e.record_id))
          × (attr "collection" item ≡ some (str e.collection))
          × (attr "_p" item ≡ some (str "main"))
          × (attr "hlc" item ≡ some (txt e.hlc))
    go none none = (refl, refl, refl, refl)
    go none (some d) = (refl, refl, refl, refl)
    go (some p) none = (refl, refl, refl, refl)
    go (some p) (some d) = (refl, refl, refl, refl)

-- Every item that is pushed fits the table that is created.
pub item_from_entry-Fits :
    (table : String) (e : OutboxPushEntry) → Fits (table_request table) (item_from_entry e)
item_from_entry-Fits table e =
    let (i, c, p, h) = keys-item_from_entry e in
    record {
      keys = ((str e.record_id, i, refl), ((str e.collection, c, refl), tt));
      indexed = (((str "main", p, refl), ((txt e.hlc, h, refl), tt)), tt);
    }
