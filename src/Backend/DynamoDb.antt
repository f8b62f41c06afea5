-- ===== src/Backend/DynamoDb.antt =====
-- src/backend/dynamodb.rs: the record backend over DynamoDB. The SDK's client is a parameter, with one
-- field for each call that the backend makes; what such a call is sent is a record here. An error of
-- the SDK is the text that `{:#?}` prints for it, which is all that the backend reads.
pub mod Items
pub mod Contract
pub mod Pages
use squirreld.Prelude.{
  ℕ, zero, suc, ◌^◌, String, List, [], ◌∷◌, ◌++◌, Text, Bool, true, false, not, Option, none, some,
  if◌then◌else◌, str_eq, ◌==◌, contains,
}
use Prim.Native.String.{◌++◌ as ◌<>◌}
use squirreld.Prelude.Decimals.{to_string, parse_below}
use squirreld.Types.{Bytes}
use squirreld.Backend.{
  OutboxPushEntry, RemoteRecord, PushResult, pushed, conflict_at, transient_error, BackendError,
  transient, config, Pulled, records, failed, RecordBackend,
}
use squirreld.Backend.Blobs.{Answer, accepted, refused}

-- S, N and B. An S is a `txt` where it is a clock, which is a `Text`, and else a `str`.
pub data AttributeValue : Type 0 where
  str : String → AttributeValue
  txt : Text → AttributeValue
  num : String → AttributeValue
  bin : Bytes → AttributeValue

abbrev pub as_str : AttributeValue → Option String
as_str (str s) = some s
as_str _ = none

abbrev pub as_txt : AttributeValue → Option Text
as_txt (txt t) = some t
as_txt _ = none

abbrev pub as_num : AttributeValue → Option String
as_num (num s) = some s
as_num _ = none

abbrev pub as_bin : AttributeValue → Option Bytes
as_bin (bin b) = some b
as_bin _ = none

-- A HashMap, with one value for each name.
abbrev pub Item : Type 0
Item = List (String × AttributeValue)

unfoldable pub attr : String → Item → Option AttributeValue
attr name [] = none
attr name ((k, v) ∷ rest) = if str_eq k name then some v else attr name rest

unfoldable pub with_attr : String → AttributeValue → Item → Item
with_attr name v [] = (name, v) ∷ []
with_attr name v ((k, old) ∷ rest) =
    if str_eq k name then (k, v) ∷ rest else (k, old) ∷ with_attr name v rest

abbrev pub with_bytes : String → Option Bytes → Item → Item
with_bytes name none item = item
with_bytes name (some bytes) item = with_attr name (bin bytes) item

abbrev pub av_n : ℕ → AttributeValue
av_n n = num (to_string n)

unfoldable pub item_from_entry : OutboxPushEntry → Item
unfolding with_attr
item_from_entry e =
    let keys = with_attr "operation" (str e.operation) (
      with_attr "hlc" (txt e.hlc)
        (with_attr "collection" (str e.collection) (with_attr "record_id" (str e.record_id) []))) in
    let versions =
      with_attr "format_version" (av_n e.format_version)
        (with_attr "schema_version" (av_n e.schema_version) keys) in
    let deleted = av_n (if str_eq e.operation "delete" then 1 else 0) in
    with_bytes "dek_encrypted" e.dek_encrypted (
      with_bytes "data" e.payload
        (with_attr "_p" (str "main") (with_attr "deleted" deleted versions)))

abbrev pub and_then {ℓ κ} : {A : Type ℓ} {B : Type κ} → (A → Option B) → Option A → Option B
and_then f none = none
and_then f (some a) = f a

abbrev pub or_zero : Option ℕ → ℕ
or_zero none = 0
or_zero (some n) = n

-- A number of an unsigned type with the values below `bound`; 0 where there is none.
unfoldable pub number : ℕ → String → Item → ℕ
unfolding attr
number bound name item = or_zero (and_then (parse_below bound) (and_then as_num (attr name item)))

unfoldable pub remote_record_from_item : Item → Option RemoteRecord
unfolding attr number
remote_record_from_item item = elim (and_then as_str (attr "record_id" item)) [
  | none ↦ none
  | some record_id ↦ elim (and_then as_str (attr "collection" item)) [
    | none ↦ none
    | some collection ↦ elim (and_then as_txt (attr "hlc" item)) [
      | none ↦ none
      | some hlc ↦ some (record {
        record_id = record_id;
        collection = collection;
        hlc = hlc;
        payload = and_then as_bin (attr "data" item);
        dek_encrypted = and_then as_bin (attr "dek_encrypted" item);
        deleted = not (number (2 ^ 8) "deleted" item == 0);
        schema_version = number (2 ^ 32) "schema_version" item;
        format_version = number (2 ^ 8) "format_version" item;
      })
    ]
  ]
]

-- `client.put_item()`
pub record PutItem : Type 0 where
  pub table_name : String
  pub item : Item
  pub condition_expression : String
  pub expression_values : Item

-- `client.query()`
pub record Query : Type 0 where
  pub table_name : String
  pub index_name : String
  pub key_condition_expression : String
  pub expression_names : List (String × String)
  pub expression_values : Item
  pub scan_index_forward : Bool
  pub exclusive_start_key : Option Item

pub record Page : Type 0 where
  pub items : List Item
  pub last_evaluated_key : Option Item

pub data ScalarAttributeType : Type 0 where
  scalar_s scalar_n scalar_b : ScalarAttributeType

pub data KeyType : Type 0 where
  hash range : KeyType

pub record GlobalSecondaryIndex : Type 0 where
  pub index_name : String
  pub key_schema : List (String × KeyType)
  pub projects_all : Bool

-- `client.create_table()`. A builder of the SDK fails only where a field is missing, and none is.
pub record CreateTable : Type 0 where
  pub table_name : String
  pub pay_per_request : Bool
  pub attribute_definitions : List (String × ScalarAttributeType)
  pub key_schema : List (String × KeyType)
  pub global_secondary_indexes : List GlobalSecondaryIndex

pub record Client (S : Type 0) : Type 0 where
  pub put_item : PutItem → S → Answer String (Unit {0}) × S
  pub query : Query → S → Answer String Page
  pub describe_table : String → S → Answer String (Unit {0})
  pub create_table : CreateTable → S → Answer String (Unit {0}) × S

abbrev pub newer_condition : String
newer_condition = "attribute_not_exists(hlc) OR hlc < :local_hlc"

abbrev pub main_condition : String
main_condition = "#p = :main"

abbrev pub after_condition : String
after_condition = "#p = :main AND hlc > :checkpoint"

abbrev pub put_request : String → OutboxPushEntry → PutItem
put_request table e = record {
  table_name = table;
  item = item_from_entry e;
  condition_expression = newer_condition;
  expression_values = (":local_hlc", txt e.hlc) ∷ [];
}

abbrev pub key_condition : Option Text → String
key_condition none = main_condition
key_condition (some cp) = after_condition

abbrev pub key_values : Option Text → Item
key_values none = (":main", str "main") ∷ []
key_values (some cp) = (":main", str "main") ∷ (":checkpoint", txt cp) ∷ []

abbrev pub query_request : String → Option Text → Option Item → Query
query_request table checkpoint start = record {
  table_name = table;
  index_name = "sync-index";
  key_condition_expression = key_condition checkpoint;
  expression_names = ("#p", "_p") ∷ [];
  expression_values = key_values checkpoint;
  scan_index_forward = true;
  exclusive_start_key = start;
}

abbrev pub table_request : String → CreateTable
table_request table = record {
  table_name = table;
  pay_per_request = true;
  attribute_definitions =
      ("record_id", scalar_s)
      ∷ ("collection", scalar_s)
      ∷ ("_p", scalar_s)
      ∷ ("hlc", scalar_s)
      ∷ [];
  key_schema = ("record_id", hash) ∷ ("collection", range) ∷ [];
  global_secondary_indexes =
      record {
        index_name = "sync-index";
        key_schema = ("_p", hash) ∷ ("hlc", range) ∷ [];
        projects_all = true;
      }
      ∷ [];
}

-- The items that convert; others are left out.
unfoldable pub converted : List Item → List RemoteRecord
converted [] = []
converted (item ∷ items) =
    let rest = converted items in
    elim (remote_record_from_item item) [ none ↦ rest | some r ↦ r ∷ rest ]

abbrev pub prepend : List RemoteRecord → Option Pulled → Option Pulled
prepend rs none = none
prepend rs (some (records more)) = some (records (rs ++ more))
prepend rs (some (failed e)) = some (failed e)

abbrev pub described : Answer String (Unit {0}) → Answer BackendError Bool
described (accepted u) = accepted true
described (refused e) =
    if contains e "ResourceNotFoundException"
    then accepted false
    else refused (config ("describe_table: " <> e))

abbrev pub created :
    {S : Type 0} → Answer String (Unit {0}) × S → Answer BackendError (Unit {0}) × S
created (accepted u, s) = (accepted tt, s)
created (refused e, s) = (refused (config ("create_table: " <> e)), s)

unfoldable pub put_result :
    {S : Type 0} → OutboxPushEntry → Answer String (Unit {0}) × S → PushResult × S
put_result e (accepted u, s) = (pushed (e.seq ∷ []), s)
put_result e (refused error, s) = (
  if contains error "ConditionalCheckFailedException"
      then conflict_at e.record_id e.seq
      else transient_error error,
  s,
)

-- `table` is `self.table_name`.
module _ {S : Type 0} (c : Client S) (table : String) where
  unfoldable pub push_one : OutboxPushEntry → S → PushResult × S
  unfolding put_result
  push_one e s = put_result e (c.put_item (put_request table e) s)

  -- The pages from `start` on, with fuel for as many; `none` where there are more.
  unfoldable pub pull_pages : ℕ → Option Text → S → Option Item → Option Pulled
  pull_pages zero checkpoint s start = none
  pull_pages (suc fuel) checkpoint s start =
      elim (c.query (query_request table checkpoint start) s) [
        | refused error ↦ some (failed (transient error))
        | accepted page ↦ elim page.last_evaluated_key [
          | none ↦ some (records (converted page.items))
          | some key ↦ prepend (converted page.items) (pull_pages fuel checkpoint s (some key))
        ]
      ]

  -- A table that is there is left as it is.
  unfoldable pub ensure_table : S → Answer BackendError (Unit {0}) × S
  ensure_table s = elim (described (c.describe_table table s)) [
    | refused e ↦ (refused e, s)
    | accepted true ↦ (accepted tt, s)
    | accepted false ↦ created (c.create_table (table_request table) s)
  ]

  abbrev pub ended : Option Pulled → Pulled
  ended none = failed (transient "unfinished")
  ended (some p) = p

  -- The backend, whose pulls read up to `fuel` pages. The source has no such limit; a pull that has
  -- more pages is a failed one here.
  abbrev pub dynamodb : ℕ → RecordBackend S
  dynamodb fuel = record {
    backend_id = table;
    push_one = push_one;
    pull_since = λ checkpoint s. ended (pull_pages fuel checkpoint s none);
  }
