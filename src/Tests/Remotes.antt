-- ===== src/Tests/Remotes.antt =====
-- src/backend/dynamodb.rs over clients in memory.
use squirreld.Prelude.{
  ℕ, zero, suc, ◌<◌, String, List, [], ◌∷◌, ◌++◌, Text, ◌≡◌, ◌⊎◌, inl, inr, refl, sym, ap, ◌∙◌,
  arith, Bool, true, false, ◌&&◌, Option, none, some, if◌then◌else◌, str_eq, eq_iff, eq_refl,
  Bool-cases, drop, length, cmp_text,
}
use squirreld.Backend.{OutboxPushEntry, IsBackend}
use squirreld.Backend.Blobs.{Answer, accepted, refused}
use squirreld.Backend.DynamoDb.{
  Item, attr, txt, str, and_then, as_str, as_txt, item_from_entry, PutItem, Query, Page, Client,
  pull_pages, remote_record_from_item, dynamodb,
}
use squirreld.Backend.DynamoDb.Items.{remote_record_from_item-item_from_entry}
use squirreld.Backend.InMemory.{remote_record}
use squirreld.Backend.DynamoDb.Pages.{Index, IsPaged, Ended, wanting, main_after, pull_pages-Ended}
use squirreld.Backend.DynamoDb.Items.{Fits, item_from_entry-Fits}
use squirreld.Backend.DynamoDb.{table_request}
use squirreld.Backend.DynamoDb.Contract.{
  Table, IsConditional, HasKey, clock, older, Covers, dynamodb-IsBackend,
}

-- Tables that check the condition of a put, and know no query.
abbrev Items : Type 0
Items = String → String → String → Option Item

abbrev or_text : Option Text → Text
or_text none = []
or_text (some t) = t

abbrev or_name : Option String → String
or_name none = ""
or_name (some s) = s

abbrev holds : String → Item → Option Item → Bool
holds expression values old =
    if str_eq expression "attribute_not_exists(hlc) OR hlc < :local_hlc"
    then older (and_then clock old) (or_text (and_then as_txt (attr ":local_hlc" values)))
    else true

updated : String → String → String → Item → Items → Items
updated table i collection item s u j other =
    if str_eq table u && (str_eq i j && str_eq collection other) then some item else s u j other

abbrev put_into : Bool → PutItem → String → String → Items → Answer String (Unit {0}) × Items
put_into true r i collection s = (accepted tt, updated r.table_name i collection r.item s)
put_into false r i collection s = (refused "ConditionalCheckFailedException: the check failed", s)

abbrev put_checked : PutItem → Items → Answer String (Unit {0}) × Items
put_checked r s =
    let i = or_name (and_then as_str (attr "record_id" r.item)) in
    let collection = or_name (and_then as_str (attr "collection" r.item)) in
    put_into (holds r.condition_expression r.expression_values (s r.table_name i collection)) r i
      collection s

abbrev checking : Client Items
checking = record {
  put_item = put_checked;
  query = λ q s. refused "no index";
  describe_table = λ t s. accepted tt;
  create_table = λ r s. (accepted tt, s);
}

abbrev shown : Table Items
shown = record { item_at = λ s table i collection. s table i collection; holds = holds }

module _ (r : PutItem) (i collection : String) (s : Items) where
  put_checked_lem :
      HasKey r.item i collection
      → put_checked r s
        ≡ put_into
            (holds r.condition_expression r.expression_values (s r.table_name i collection))
            r
            i
            collection
            s
  put_checked_lem (at, within) = rw (at, within) refl

  put_into_stores :
      (b : Bool)
      → (put_into b r i collection s).0 ≡ accepted tt
      → (put_into b r i collection s).1 r.table_name i collection ≡ some r.item
  unfolding updated
  put_into_stores true h = rw (eq_refl r.table_name, eq_refl i, eq_refl collection) refl
  put_into_stores false h = absurd (cc)

  put_into_refused :
      (b : Bool) (error : String)
      → (put_into b r i collection s).0 ≡ refused error
      → (b ≡ false) × ((put_into b r i collection s).1 ≡ s)
  put_into_refused true error h = absurd (cc)
  put_into_refused false error h = (refl, refl)

  put_into_keeps :
      (b : Bool) (u j other : String)
      → ((put_into b r i collection s).1 u j other ≡ s u j other)
        ⊎ ((u ≡ r.table_name)
            × (j ≡ i)
            × (other ≡ collection)
            × ((put_into b r i collection s).1 u j other ≡ some r.item)
            × (b ≡ true))
  unfolding updated
  put_into_keeps false u j other = inl refl
  put_into_keeps true u j other =
      elim (Bool-cases (str_eq r.table_name u && (str_eq i j && str_eq collection other))) [
        | inl same ↦ inr (
          ground (arith, eq_iff r.table_name u, same),
          ground (arith, eq_iff i j, same),
          ground (arith, eq_iff collection other, same),
          rw same refl,
          refl,
        )
        | inr differ ↦ inl (rw differ refl)
      ]

checking-IsConditional : IsConditional checking shown
unfolding attr
checking-IsConditional = record {
  newer_meaning = λ h item. refl;
  put_stores = λ r s i collection key h.
      rw (put_checked_lem r i collection s key)
        (put_into_stores r i collection s _ (rw (put_checked_lem r i collection s key) at h));
  put_refused = λ r s i collection error key h failed.
      let (no_longer, same) =
        put_into_refused r i collection s _ error
          (rw (put_checked_lem r i collection s key) at h) in
      rw (put_checked_lem r i collection s key) (rw same no_longer);
  put_keeps = λ r s i collection u j other key.
      rw (put_checked_lem r i collection s key)
        (elim (put_into_keeps r i collection s
          (holds r.condition_expression r.expression_values (s r.table_name i collection)) u j
          other) [
            | inl same ↦ inl same
            | inr (in_table, at, there, new, held) ↦
                inr (in_table, at, there, new, rw (in_table, at, there) held)
          ]);
}

dynamodb-IsBackend_example : IsBackend (dynamodb checking "sync" 8) (Covers shown "sync")
dynamodb-IsBackend_example = dynamodb-IsBackend checking-IsConditional "sync" 8

-- An index of items, one to a page; the start key has as many entries as there are items before it.
abbrev skipped : Option Item → ℕ
skipped none = 0
skipped (some key) = length key

abbrev marks : ℕ → Item
marks zero = []
marks (suc n) = ("skip", str "") ∷ marks n

length-marks : (n : ℕ) → length (marks n) ≡ n
length-marks zero = refl
length-marks (suc n) = ap suc (length-marks n)

abbrev page_of : ℕ → List Item → Page
page_of n [] = record { items = []; last_evaluated_key = none }
page_of n (x ∷ []) = record { items = x ∷ []; last_evaluated_key = none }
page_of n (x ∷ y ∷ rest) = record { items = x ∷ []; last_evaluated_key = some (marks (suc n)) }

-- One table with one index.
abbrev indexed_items : List Item → String → String → List Item
indexed_items s table name = if str_eq table "sync" && str_eq name "sync-index" then s else []

abbrev checkpoint_in : Query → Option Text
checkpoint_in q =
    if str_eq q.key_condition_expression "#p = :main AND hlc > :checkpoint"
    then some (or_text (and_then as_txt (attr ":checkpoint" q.expression_values)))
    else none

abbrev selected : List Item → Query → List Item
selected s q = main_after (checkpoint_in q) (indexed_items s q.table_name q.index_name)

abbrev paging : Client (List Item)
paging = record {
  put_item = λ r s. (refused "read only", s);
  query = λ q s. accepted (
      page_of (skipped q.exclusive_start_key)
        (drop (skipped q.exclusive_start_key) (selected s q)));
  describe_table = λ t s. accepted tt;
  create_table = λ r s. (accepted tt, s);
}

abbrev index : Index (List Item)
index = record {
  items = indexed_items;
  results = λ s q. drop (skipped q.exclusive_start_key) (selected s q);
  left = λ s q. length (drop (skipped q.exclusive_start_key) (selected s q));
}

drop-suc : (n : ℕ) (s more : List Item) (x : Item) → drop n s ≡ x ∷ more → drop (suc n) s ≡ more
drop-suc zero [] more x h = absurd (cc)
drop-suc zero (y ∷ s) more x h = cc
drop-suc (suc n) [] more x h = absurd (cc)
drop-suc (suc n) (y ∷ s) more x h = drop-suc n s more x h

page_last :
    (n : ℕ) (l : List Item) (page : Page)
    → page_of n l ≡ page
    → page.last_evaluated_key ≡ none
    → l ≡ page.items
page_last n [] page e h = ap (λ p. p.items) e
page_last n (x ∷ []) page e h = ap (λ p. p.items) e
page_last n (x ∷ y ∷ l) page e h = absurd (cc (ap (λ p. p.last_evaluated_key) e, h))

page_next :
    (n : ℕ) (s l : List Item) (page : Page) (key : Item)
    → drop n s ≡ l
    → page_of n l ≡ page
    → page.last_evaluated_key ≡ some key
    → (drop n s ≡ page.items ++ drop (length key) s)
      × (length (drop (length key) s) < length (drop n s))
page_next n s [] page key d e h = absurd (cc (ap (λ p. p.last_evaluated_key) e, h))
page_next n s (x ∷ []) page key d e h = absurd (cc (ap (λ p. p.last_evaluated_key) e, h))
page_next n s (x ∷ y ∷ l) page key d e h =
    let is_marks : key ≡ marks (suc n) = cc (ap (λ p. p.last_evaluated_key) e, h) in
    let skips : length key ≡ suc n = ap length is_marks ∙ length-marks (suc n) in
    let first : page.items ≡ x ∷ [] = sym (ap (λ p. p.items) e) in
    let rest : drop (suc n) s ≡ y ∷ l = drop-suc n s (y ∷ l) x d in
    rw (skips, rest, first, d) (refl, omega arith)

pub answer_is : {A : Type 0} (a b : A) → ◌≡◌ {A = Answer String A} (accepted a) (accepted b) → a ≡ b
answer_is a b h = cc

paging-IsPaged : IsPaged paging index
unfolding attr
paging-IsPaged = record {
  last_page = λ s q page e h.
      page_last (skipped q.exclusive_start_key)
        (drop (skipped q.exclusive_start_key) (selected s q)) page (answer_is _ _ e) h;
  next_page = λ s q page key e h.
      page_next (skipped q.exclusive_start_key) (selected s q)
        (drop (skipped q.exclusive_start_key) (selected s q)) page key refl (answer_is _ _ e) h;
  main_after_meaning = λ s table checkpoint.
      elim checkpoint
        as (λ k.
          index.results s (wanting table k) ≡ main_after k (index.items s table "sync-index")) [
            | none ↦ refl
            | some cp ↦ refl
          ];
}

abbrev entry : String → String → Text → OutboxPushEntry
entry i operation hlc = record {
  seq = 1;
  record_id = i;
  collection = "notes";
  operation = operation;
  hlc = hlc;
  payload = some (1 ∷ 2 ∷ []);
  dek_encrypted = none;
  schema_version = 4294967295;
  format_version = 255;
  retries = 0;
}

-- The second item does not convert; the first is not after the checkpoint 49.
abbrev four_items : List Item
four_items =
    item_from_entry (entry "a" "upsert" (49 ∷ []))
    ∷ (("_p", str "main") ∷ ("hlc", txt (50 ∷ [])) ∷ [])
    ∷ item_from_entry (entry "b" "delete" (50 ∷ []))
    ∷ item_from_entry (entry "c" "upsert" (51 ∷ []))
    ∷ []

remote_record_from_item-item_from_entry_example :
    remote_record_from_item (item_from_entry (entry "b" "delete" (50 ∷ [])))
    ≡ some (remote_record (entry "b" "delete" (50 ∷ [])))
remote_record_from_item-item_from_entry_example =
    remote_record_from_item-item_from_entry (entry "b" "delete" (50 ∷ [])) (omega arith)
      (omega arith)

pull_pages-Ended_example :
    Ended paging four_items
      (wanting "sync" (some (49 ∷ [])))
      (main_after (some (49 ∷ [])) (indexed_items four_items "sync" "sync-index"))
      (pull_pages paging "sync" 4 (some (49 ∷ [])) four_items none)
unfolding item_from_entry attr cmp_text
pull_pages-Ended_example =
    pull_pages-Ended paging-IsPaged "sync" 4 four_items (some (49 ∷ [])) (omega arith)

item_from_entry-Fits_example :
    Fits (table_request "sync") (item_from_entry (entry "b" "delete" (50 ∷ [])))
item_from_entry-Fits_example = item_from_entry-Fits "sync" (entry "b" "delete" (50 ∷ []))
