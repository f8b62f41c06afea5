-- ===== src/Backend/DynamoDb/Pages.antt =====
-- src/backend/dynamodb.rs, `pull_since`: the pages of the index, and `ensure_table`.
use squirreld.Prelude.{
  ℕ, zero, suc, ◌<◌, String, List, [], ◌∷◌, ◌++◌, Text, ◌≡◌, refl, sym, ap, ◌∙◌, arith, Bool, true,
  false, Option, none, some, contains, Option-cases, inl, inr, str_eq, text_lt, keep_if, ◌&&◌,
}
use squirreld.Backend.{RemoteRecord, transient, Pulled, records, failed}
use squirreld.Backend.Blobs.{accepted, refused, Answer-cases}
use squirreld.Backend.DynamoDb.Contract.{clock}
use squirreld.Backend.DynamoDb.{
  Item, str, txt, as_str, attr, and_then, Query, Client, Page, query_request, table_request,
  converted, remote_record_from_item, pull_pages, prepend, created, ensure_table,
}

-- The items of a list that convert are those of its parts.
converted-append : (xs ys : List Item) → converted (xs ++ ys) ≡ converted xs ++ converted ys
unfolding converted
converted-append [] ys = refl
converted-append (x ∷ xs) ys = go (remote_record_from_item x) (converted-append xs ys)
  where
    go :
        (o : Option RemoteRecord)
        → converted (xs ++ ys) ≡ converted xs ++ converted ys
        → elim o as (λ _. List RemoteRecord) [
          | none ↦ converted (xs ++ ys)
          | some r ↦ r ∷ converted (xs ++ ys)
        ]
          ≡ elim o as (λ _. List RemoteRecord) [ none ↦ converted xs | some r ↦ r ∷ converted xs ]
            ++ converted ys
    go none e = e
    go (some r) e = ap (λ l. r ∷ l) e

-- What the indexes show: the items of an index of a table, ascending by its range key; all that a query
-- gives, from its start key on; and a bound on the pages that it has left.
pub record Index (S : Type 0) : Type 0 where
  pub items : S → String → String → List Item
  pub results : S → Query → List Item
  pub left : S → Query → ℕ

-- The partition key of the item is "main".
abbrev pub in_main : Item → Bool
in_main item = elim (and_then as_str (attr "_p" item)) [ none ↦ false | some p ↦ str_eq p "main" ]

-- The clock of the item is after the checkpoint, if there is one.
abbrev pub past_checkpoint : Option Text → Item → Bool
past_checkpoint none item = true
past_checkpoint (some cp) item = elim (clock item) [ none ↦ false | some h ↦ text_lt cp h ]

-- The items of the main partition after the checkpoint.
abbrev pub main_after : Option Text → List Item → List Item
main_after checkpoint = keep_if (λ item. in_main item && past_checkpoint checkpoint item)

-- The query for them, ascending, as DynamoDB's documentation has it.
abbrev pub ascending_query : String → String → List (String × String) → Item → Option Item → Query
ascending_query table condition names values start = record {
  table_name = table;
  index_name = "sync-index";
  key_condition_expression = condition;
  expression_names = names;
  expression_values = values;
  scan_index_forward = true;
  exclusive_start_key = start;
}

abbrev pub wanting : String → Option Text → Query
wanting table none =
    ascending_query table "#p = :main" (("#p", "_p") ∷ []) ((":main", str "main") ∷ []) none
wanting table (some cp) =
    ascending_query table "#p = :main AND hlc > :checkpoint" (("#p", "_p") ∷ [])
      ((":main", str "main") ∷ (":checkpoint", txt cp) ∷ []) none

abbrev pub from_key : Query → Option Item → Query
from_key q start = record q { exclusive_start_key = start }

-- Any query that is answered gives a first part of its results, with the key to go on from where that is
-- not all; then fewer pages are left. And what the conditions of the two queries of a pull mean.
pub record IsPaged {S : Type 0} (c : Client S) (x : Index S) : Type 0 where
  pub last_page :
      (s : S) (q : Query) (page : Page)
      → c.query q s ≡ accepted page
      → page.last_evaluated_key ≡ none
      → x.results s q ≡ page.items
  pub next_page :
      (s : S) (q : Query) (page : Page) (key : Item)
      → c.query q s ≡ accepted page
      → page.last_evaluated_key ≡ some key
      → (x.results s q ≡ page.items ++ x.results s (from_key q (some key)))
        × (x.left s (from_key q (some key)) < x.left s q)
  pub main_after_meaning :
      (s : S) (table : String) (checkpoint : Option Text)
      → x.results s (wanting table checkpoint)
        ≡ main_after checkpoint (x.items s table "sync-index")

-- The queries that follow from a first one, each from the key that the answer to the one before gave.
pub data Asked {S : Type 0} (c : Client S) (s : S) (last : Query) : Query → Type 0 where
  itself : Asked c s last last
  on :
      (q : Query) (page : Page) (key : Item)
      → c.query q s ≡ accepted page
      → page.last_evaluated_key ≡ some key
      → Asked c s last (from_key q (some key))
      → Asked c s last q

-- The pull has come to its end: one of its queries was refused, and this is the error; or it has all
-- the items that convert.
pub data Ended {S : Type 0} (c : Client S) (s : S) (q : Query) (all : List Item)
    : Option Pulled → Type 0 where
  with_error :
      (error : String) (last : Query)
      → Asked c s last q
      → c.query last s ≡ refused error
      → Ended c s q all (some (failed (transient error)))
  with_all : (rs : List RemoteRecord) → rs ≡ converted all → Ended c s q all (some (records rs))

module _ {S : Type 0} {c : Client S} {x : Index S} (law : IsPaged c x) (table : String) where
  prepend-Ended :
      (s : S) (q : Query) (page : Page) (key : Item) (p : Option Pulled)
      → c.query q s ≡ accepted page
      → page.last_evaluated_key ≡ some key
      → Ended c s (from_key q (some key)) (x.results s (from_key q (some key))) p
      → Ended c s q (x.results s q) (prepend (converted page.items) p)
  prepend-Ended s q page key _ e more (with_error error last asked no_answer) =
      with_error error last (on q page key e more asked) no_answer
  prepend-Ended s q page key _ e more (with_all rs h) =
      let (split, fewer) = law.next_page s q page key e more in
      with_all _ (
        ap (λ l. converted page.items ++ l) h
        ∙ (sym (converted-append page.items _) ∙ ap converted (sym split)))

  pull_pages_from :
      (fuel : ℕ) (s : S) (checkpoint : Option Text) (start : Option Item)
      → x.left s (query_request table checkpoint start) < fuel
      → Ended c s
          (query_request table checkpoint start)
          (x.results s (query_request table checkpoint start))
          (pull_pages c table fuel checkpoint s start)
  unfolding pull_pages
  pull_pages_from zero s checkpoint start h = absurd (omega (arith, h))
  pull_pages_from (suc fuel) s checkpoint start h =
      let q = query_request table checkpoint start in
      elim (Answer-cases (c.query q s)) [
        | inr (error, e) ↦ rw (e, pull_pages) (with_error error q itself e)
        | inl (page, e) ↦ elim (Option-cases page.last_evaluated_key) [
          | inl last ↦
              rw (e, pull_pages)
                (rw last (with_all _ (ap converted (sym (law.last_page s q page e last)))))
          | inr (key, more) ↦
              let (split, fewer) = law.next_page s q page key e more in
              rw (e, pull_pages)
                (rw more (
                  prepend-Ended s q page key _ e more
                    (pull_pages_from fuel s checkpoint (some key) (omega (arith, h, fewer)))))
        ]
      ]

  -- For a client that pages any query as `IsPaged` says, with fuel for the pages that are left, the
  -- pull ends: with the records of all items of the main partition of the "sync-index" of the table
  -- whose clocks are after the checkpoint, in the order of the index and without those that do
  -- not convert; or with exactly the error of a query that was refused, and that was the first one of
  -- this pull or followed from it page by page.
  pub pull_pages-Ended :
      (fuel : ℕ) (s : S) (checkpoint : Option Text)
      → x.left s (wanting table checkpoint) < fuel
      → Ended c s
          (wanting table checkpoint)
          (main_after checkpoint (x.items s table "sync-index"))
          (pull_pages c table fuel checkpoint s none)
  pull_pages-Ended fuel s none h =
      rw (sym (law.main_after_meaning s table none)) (pull_pages_from fuel s none none h)
  pull_pages-Ended fuel s (some cp) h =
      rw (sym (law.main_after_meaning s table (some cp))) (pull_pages_from fuel s (some cp) none h)

-- A table that is there is left alone; one that is not there is asked for, and any other answer to
-- the description is an error without effect.
pub ensure_table_lem :
    {S : Type 0} (c : Client S) (table : String) (s : S)
    → ((u : Unit {0})
        → c.describe_table table s ≡ accepted u
        → ensure_table c table s ≡ (accepted tt, s))
      × ((e : String)
          → c.describe_table table s ≡ refused e
          → contains e "ResourceNotFoundException" ≡ true
          → ensure_table c table s ≡ created (c.create_table (table_request table) s))
      × ((e : String)
          → c.describe_table table s ≡ refused e
          → contains e "ResourceNotFoundException" ≡ false
          → (ensure_table c table s).1 ≡ s)
unfolding ensure_table
ensure_table_lem c table s =
    (λ u h. ground (arith, h), λ e h k. ground (arith, h, k), λ e h k. ground (arith, h, k))
