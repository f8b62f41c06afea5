-- ===== src/Backend/DynamoDb/Contract.antt =====
-- src/backend/dynamodb.rs as a backend in the sense of the sync loop, for a client that does what the
-- documentation of DynamoDB says of a conditional put.
use squirreld.Prelude.{
  ℕ, String, List, [], ◌∷◌, Text, ◌≡◌, ◌⊎◌, refl, sym, ◌∙◌, arith, Bool, true, false, Option, none,
  some, Bool-cases, inl, inr, text_lt, contains,
}
use squirreld.Backend.{OutboxPushEntry, pushed, conflict_at, IsBackend}
use squirreld.Backend.Blobs.{Answer, accepted, refused}
use squirreld.Backend.InMemory.Newest.{text_lt_irrefl, text_le_trans, text_lt_asym}
use squirreld.Backend.DynamoDb.Items.{keys-item_from_entry}
use squirreld.Backend.DynamoDb.{
  txt, str, as_txt, Item, attr, item_from_entry, and_then, PutItem, Client, put_request, put_result,
  push_one, dynamodb,
}

-- What the tables show: in a table, its item at a record id and a collection, which are the key that
-- `ensure_table` creates it with; and whether a condition expression with its values holds of an item.
pub record Table (S : Type 0) : Type 0 where
  pub item_at : S → String → String → String → Option Item
  pub holds : String → Item → Option Item → Bool

-- The clock of an item.
abbrev pub clock : Item → Option Text
clock item = and_then as_txt (attr "hlc" item)

-- `attribute_not_exists(hlc) OR hlc < :local_hlc` of an item whose `hlc`, if any, is a string.
abbrev pub older : Option Text → Text → Bool
older none h = true
older (some old) h = text_lt old h

abbrev conditional_check_failed : String
conditional_check_failed = "ConditionalCheckFailedException"

-- The item has this key.
abbrev pub HasKey : Item → String → String → Type 0
HasKey item i collection =
    (attr "record_id" item ≡ some (str i)) × (attr "collection" item ≡ some (str collection))

-- Any conditional put, which the SDK may have sent more than once: another item is not touched, in this
-- table or in another; the item of its key is left, or is the new one where the condition of the
-- request held; accepted, it is the new one; refused for the condition, there is an item for which that
-- does not hold. And what the one expression means, as DynamoDB documents `attribute_not_exists`, `OR`
-- and `<`, for an `hlc` that is a string, since it is a key of an index.
pub record IsConditional {S : Type 0} (c : Client S) (t : Table S) : Type 0 where
  pub newer_meaning :
      (h : Text) (item : Option Item)
      → t.holds "attribute_not_exists(hlc) OR hlc < :local_hlc" ((":local_hlc", txt h) ∷ []) item
        ≡ older (and_then clock item) h
  pub put_stores :
      (r : PutItem) (s : S) (i collection : String)
      → HasKey r.item i collection
      → (c.put_item r s).0 ≡ accepted tt
      → t.item_at (c.put_item r s).1 r.table_name i collection ≡ some r.item
  pub put_refused :
      (r : PutItem) (s : S) (i collection error : String)
      → HasKey r.item i collection
      → (c.put_item r s).0 ≡ refused error
      → contains error conditional_check_failed ≡ true
      → t.holds r.condition_expression r.expression_values
          (t.item_at (c.put_item r s).1 r.table_name i collection)
        ≡ false
  pub put_keeps :
      (r : PutItem) (s : S) (i collection table j other : String)
      → HasKey r.item i collection
      → (t.item_at (c.put_item r s).1 table j other ≡ t.item_at s table j other)
        ⊎ ((table ≡ r.table_name)
            × (j ≡ i)
            × (other ≡ collection)
            × (t.item_at (c.put_item r s).1 table j other ≡ some r.item)
            × (t.holds r.condition_expression r.expression_values (t.item_at s table j other)
                ≡ true))

-- The table holds an item of this key whose clock is not before `hlc`.
abbrev pub Covers : {S : Type 0} → Table S → String → S → String → String → Text → Type 0
Covers t table s i collection hlc =
    older (and_then clock (t.item_at s table i collection)) hlc ≡ false

clock-item_from_entry : (e : OutboxPushEntry) → clock (item_from_entry e) ≡ some e.hlc
clock-item_from_entry e = rw (keys-item_from_entry e).3 refl

-- An item that is replaced where the condition holds covers what the old one did.
older_kept :
    (old : Option Text) (new h : Text)
    → older old new ≡ true
    → older old h ≡ false
    → older (some new) h ≡ false
older_kept none new h o k = absurd (cc)
older_kept (some old) new h o k = text_le_trans h new old (text_lt_asym old new o) k

entry-HasKey : (e : OutboxPushEntry) → HasKey (item_from_entry e) e.record_id e.collection
entry-HasKey e = let (i, collection, _, _) = keys-item_from_entry e in (i, collection)

put_result_ok :
    {S : Type 0} (e : OutboxPushEntry) (r : Answer String (Unit {0}) × S) (seqs : List ℕ)
    → (put_result e r).0 ≡ pushed seqs
    → (seqs ≡ e.seq ∷ []) × (r.0 ≡ accepted tt)
unfolding put_result
put_result_ok e (accepted u, s) seqs h = (cc, refl)
put_result_ok e (refused error, s) seqs h = absurd (ground arith)

put_result_conflict :
    {S : Type 0} (e : OutboxPushEntry) (r : Answer String (Unit {0}) × S) (i : String) (seq : ℕ)
    → (put_result e r).0 ≡ conflict_at i seq
    → (seq ≡ e.seq)
      × (error : String) × (r.0 ≡ refused error)
      × (contains error conditional_check_failed ≡ true)
unfolding put_result
put_result_conflict e (accepted u, s) i seq h = absurd (cc)
put_result_conflict e (refused error, s) i seq h =
    elim (Bool-cases (contains error conditional_check_failed)) [
      | inl failed ↦ (ground (arith, failed, h), error, refl, failed)
      | inr other ↦ absurd (ground (arith, other, h))
    ]

module _ {S : Type 0} (t : Table S) (table : String) where
  Covers-put_result :
      (e : OutboxPushEntry) (r : Answer String (Unit {0}) × S) (i collection : String) (hlc : Text)
      → Covers t table r.1 i collection hlc
      → Covers t table (put_result e r).1 i collection hlc
  unfolding put_result
  Covers-put_result e (accepted u, s) i collection hlc k = k
  Covers-put_result e (refused error, s) i collection hlc k = k

  stored-Covers :
      (e : OutboxPushEntry) (s : S) (i collection : String) (h : Text)
      → t.item_at s table i collection ≡ some (item_from_entry e)
      → text_lt e.hlc h ≡ false
      → Covers t table s i collection h
  stored-Covers e s i collection h at new = rw (at, clock-item_from_entry e) new

module _ {S : Type 0} {c : Client S} {t : Table S} (law : IsConditional c t) (table : String) where
  put_item-Covers :
      (e : OutboxPushEntry) (s : S) (i collection : String) (hlc : Text)
      → Covers t table s i collection hlc
      → Covers t table (c.put_item (put_request table e) s).1 i collection hlc
  put_item-Covers e s i collection hlc k =
      elim (law.put_keeps (put_request table e) s e.record_id e.collection table i collection
        (entry-HasKey e)) [
          | inl same ↦ rw same k
          | inr (_, _, _, new, held) ↦ stored-Covers t table e _ i collection hlc new (
              older_kept (and_then clock (t.item_at s table i collection)) e.hlc hlc
                (sym (law.newer_meaning e.hlc (t.item_at s table i collection)) ∙ held) k)
        ]

  -- For a client whose conditional puts do what `IsConditional` says of any request, the backend keeps
  -- the contract of the sync loop at its table, however many pages a pull may have: an accepted or
  -- refused entry is covered there by an item with a clock at least as new, and no push loses what was
  -- covered.
  pub dynamodb-IsBackend : (fuel : ℕ) → IsBackend (dynamodb c table fuel) (Covers t table)
  unfolding push_one
  dynamodb-IsBackend fuel = record {
    push_ok = λ e s seqs h.
        let r = c.put_item (put_request table e) s in
        let (sent, stored) = put_result_ok e r seqs h in
        (
          sent,
          Covers-put_result t table e r e.record_id e.collection e.hlc (
              stored-Covers t table e r.1 e.record_id e.collection e.hlc
                (law.put_stores (put_request table e) s e.record_id e.collection (entry-HasKey e)
                  stored)
                (text_lt_irrefl e.hlc)),
        );
    push_conflict = λ e s i seq h.
        let r = c.put_item (put_request table e) s in
        let (same, error, denied, failed) = put_result_conflict e r i seq h in
        (
          same,
          Covers-put_result t table e r e.record_id e.collection e.hlc (
              sym (law.newer_meaning e.hlc (t.item_at r.1 table e.record_id e.collection))
              ∙ law.put_refused (put_request table e) s e.record_id e.collection error
                  (entry-HasKey e) denied failed),
        );
    push_keeps = λ e s i collection hlc k.
        Covers-put_result t table e (c.put_item (put_request table e) s) i collection hlc
          (put_item-Covers e s i collection hlc k);
  }
