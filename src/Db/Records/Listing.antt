-- ===== src/Db/Records/Listing.antt =====
-- src/db/records.rs, `list`: what is listed, in which order, and how much of it.
use squirreld.Prelude.{
  ℕ, zero, suc, ◌≤◌, ◌<◌, ◌^◌, String, List, [], ◌∷◌, ◌≡◌, refl, ◌∙◌, arith, Bool, true, false,
  Option, none, some, if◌then◌else◌, Bool-cases, eq_iff, inl, inr, ltb, lt→ltb, text_lt, take, drop,
  keep_if, length, All, All-imp, All-take,
}
use squirreld.Error.{ok}
use squirreld.Db.Sql.{RecordRow, Db, Conn}
use squirreld.Db.Outcome.{query_ok}
use squirreld.Db.Records.{
  insert_by_hlc, order_by_hlc, offset_val, limit_rows, listed, select_list, list,
}
use squirreld.Backend.InMemory.Newest.{text_le_trans, text_lt_asym}

-- The order of the listing.
abbrev pub before : Bool → RecordRow → RecordRow → Bool
before asc a b = if asc then text_lt a.hlc b.hlc else text_lt b.hlc a.hlc

abbrev pub Sorted : Bool → List RecordRow → Type 0
Sorted asc [] = Unit
Sorted asc (r ∷ rs) = All (λ s. before asc s r ≡ false) rs × Sorted asc rs

before_asym : (asc : Bool) (a b : RecordRow) → before asc a b ≡ true → before asc b a ≡ false
before_asym true a b h = text_lt_asym a.hlc b.hlc h
before_asym false a b h = text_lt_asym b.hlc a.hlc h

before_trans :
    (asc : Bool) (a b c : RecordRow)
    → before asc b a ≡ false
    → before asc c b ≡ false
    → before asc c a ≡ false
before_trans true a b c h k = text_le_trans a.hlc c.hlc b.hlc k h
before_trans false a b c h k = text_le_trans c.hlc a.hlc b.hlc h k

insert_by_hlc_lem :
    (asc : Bool) (r x : RecordRow) (xs : List RecordRow)
    → insert_by_hlc asc r (x ∷ xs)
      ≡ (if before asc x r then x ∷ insert_by_hlc asc r xs else r ∷ x ∷ xs)
unfolding insert_by_hlc
insert_by_hlc_lem asc r x xs = refl

All-insert_by_hlc :
    (P : RecordRow → Type 0) (asc : Bool) (r : RecordRow) (rs : List RecordRow)
    → P r
    → All P rs
    → All P (insert_by_hlc asc r rs)
unfolding insert_by_hlc
All-insert_by_hlc P asc r [] p h = (p, tt)
All-insert_by_hlc P asc r (x ∷ xs) p h = elim (Bool-cases (before asc x r)) [
  | inl first ↦ rw (insert_by_hlc_lem asc r x xs, first) (h.0, All-insert_by_hlc P asc r xs p h.1)
  | inr last ↦ rw (insert_by_hlc_lem asc r x xs, last) (p, h)
]

insert_by_hlc-Sorted :
    (asc : Bool) (r : RecordRow) (rs : List RecordRow)
    → Sorted asc rs
    → Sorted asc (insert_by_hlc asc r rs)
unfolding insert_by_hlc
insert_by_hlc-Sorted asc r [] s = (tt, tt)
insert_by_hlc-Sorted asc r (x ∷ xs) s = elim (Bool-cases (before asc x r)) [
  | inl first ↦
      rw (insert_by_hlc_lem asc r x xs, first)
        (
          All-insert_by_hlc (λ y. before asc y x ≡ false) asc r xs (before_asym asc x r first) s.0,
          insert_by_hlc-Sorted asc r xs s.1,
        )
  | inr last ↦
      rw (insert_by_hlc_lem asc r x xs, last)
        ((last, All-imp _ _ xs (λ y later. before_trans asc r x y last later) s.0), s)
]

order_by_hlc-Sorted : (asc : Bool) (rs : List RecordRow) → Sorted asc (order_by_hlc asc rs)
unfolding order_by_hlc
order_by_hlc-Sorted asc [] = tt
order_by_hlc-Sorted asc (r ∷ rs) = insert_by_hlc-Sorted asc r _ (order_by_hlc-Sorted asc rs)

All-order_by_hlc :
    (P : RecordRow → Type 0) (asc : Bool) (rs : List RecordRow)
    → All P rs
    → All P (order_by_hlc asc rs)
unfolding order_by_hlc
All-order_by_hlc P asc [] h = tt
All-order_by_hlc P asc (r ∷ rs) h = All-insert_by_hlc P asc r _ h.0 (All-order_by_hlc P asc rs h.1)

-- Ordering loses no row and adds none: of each kind there are as many.
count-insert_by_hlc :
    (p : RecordRow → Bool) (asc : Bool) (r : RecordRow) (rs : List RecordRow)
    → length (keep_if p (insert_by_hlc asc r rs)) ≡ length (keep_if p (r ∷ rs))
unfolding insert_by_hlc
count-insert_by_hlc p asc r [] = refl
count-insert_by_hlc p asc r (x ∷ xs) = elim (Bool-cases (before asc x r)) [
  | inl first ↦
      rw (insert_by_hlc_lem asc r x xs, first) (ground (arith, count-insert_by_hlc p asc r xs))
  | inr last ↦ rw (insert_by_hlc_lem asc r x xs, last) refl
]

count-order_by_hlc :
    (p : RecordRow → Bool) (asc : Bool) (rs : List RecordRow)
    → length (keep_if p (order_by_hlc asc rs)) ≡ length (keep_if p rs)
unfolding order_by_hlc
count-order_by_hlc p asc [] = refl
count-order_by_hlc p asc (r ∷ rs) =
    count-insert_by_hlc p asc r (order_by_hlc asc rs) ∙ ground (arith, count-order_by_hlc p asc rs)

Sorted-drop : (asc : Bool) (n : ℕ) (rs : List RecordRow) → Sorted asc rs → Sorted asc (drop n rs)
Sorted-drop asc zero rs s = s
Sorted-drop asc (suc n) [] s = tt
Sorted-drop asc (suc n) (r ∷ rs) s = Sorted-drop asc n rs s.1

Sorted-take : (asc : Bool) (n : ℕ) (rs : List RecordRow) → Sorted asc rs → Sorted asc (take n rs)
Sorted-take asc zero rs s = tt
Sorted-take asc (suc n) [] s = tt
Sorted-take asc (suc n) (r ∷ rs) s = (All-take _ n rs s.0, Sorted-take asc n rs s.1)

All-drop : (P : RecordRow → Type 0) (n : ℕ) (rs : List RecordRow) → All P rs → All P (drop n rs)
All-drop P zero rs h = h
All-drop P (suc n) [] h = tt
All-drop P (suc n) (r ∷ rs) h = All-drop P n rs h.1

length-take_le : (n : ℕ) (rs : List RecordRow) → length (take n rs) ≤ n
length-take_le zero rs = omega arith
length-take_le (suc n) [] = omega arith
length-take_le (suc n) (r ∷ rs) = omega (arith, length-take_le n rs)

-- A limit takes the first rows.
limited :
    (P : List RecordRow → Type 0) (limit : Option ℕ) (rs : List RecordRow)
    → ((n : ℕ) → P (take n rs))
    → P rs
    → P (limit_rows limit rs)
limited P none rs t h = h
limited P (some n) rs t h = elim (Bool-cases (ltb n (2 ^ 63))) [
  | inl small ↦ rw small (t n)
  | inr large ↦ rw large h
]

keeps-All : (p : RecordRow → Bool) (rs : List RecordRow) → All (λ r. p r ≡ true) (keep_if p rs)
keeps-All p [] = tt
keeps-All p (r ∷ rs) = elim (Bool-cases (p r)) [
  | inl kept ↦ rw kept (kept, keeps-All p rs)
  | inr dropped ↦ rw dropped (keeps-All p rs)
]

module _ (collection : String) (offset : ℕ) (include_deleted asc : Bool) (d : Db) where
  abbrev matching : List RecordRow
  matching = keep_if (listed collection include_deleted) d.records

  abbrev paged : List RecordRow
  paged = drop (offset_val offset) (order_by_hlc asc matching)

  select_list-All :
      (limit : Option ℕ)
      → All
          (λ r. listed collection include_deleted r ≡ true)
          (select_list collection limit offset include_deleted asc d)
  unfolding select_list
  select_list-All limit =
      let P = λ (r : RecordRow). listed collection include_deleted r ≡ true in
      let h : All P paged =
        All-drop P (offset_val offset) _
          (All-order_by_hlc P asc matching (keeps-All _ d.records)) in
      limited (All P) limit paged (λ n. All-take P n paged h) h

  select_list-Sorted :
      (limit : Option ℕ) → Sorted asc (select_list collection limit offset include_deleted asc d)
  unfolding select_list
  select_list-Sorted limit =
      let h : Sorted asc paged =
        Sorted-drop asc (offset_val offset) _ (order_by_hlc-Sorted asc matching) in
      limited (Sorted asc) limit paged (λ n. Sorted-take asc n paged h) h

  length-select_list :
      (n : ℕ)
      → n < 2 ^ 63
      → length (select_list collection (some n) offset include_deleted asc d) ≤ n
  unfolding select_list
  length-select_list n h = rw (lt→ltb n (2 ^ 63) h) (length-take_le n paged)

count-select_list :
    (collection : String) (include_deleted asc : Bool) (d : Db) (p : RecordRow → Bool)
    → length (keep_if p (select_list collection none 0 include_deleted asc d))
      ≡ length (keep_if p (keep_if (listed collection include_deleted) d.records))
unfolding select_list
count-select_list collection include_deleted asc d p =
    count-order_by_hlc p asc (keep_if (listed collection include_deleted) d.records)

-- What a listing is asked for: a row of the collection, which is not deleted where deleted rows are
-- not asked for.
abbrev pub IsWanted : String → Bool → RecordRow → Type 0
IsWanted collection include_deleted r =
    (r.collection ≡ collection) × (include_deleted ≡ false → r.deleted ≡ false)

listed-IsWanted :
    (collection : String) (include_deleted : Bool) (r : RecordRow)
    → listed collection include_deleted r ≡ true
    → IsWanted collection include_deleted r
unfolding listed
listed-IsWanted collection include_deleted r h =
    (ground (arith, eq_iff r.collection collection), λ e. ground (arith, h, e))

IsWanted-listed :
    (collection : String) (include_deleted : Bool) (r : RecordRow)
    → IsWanted collection include_deleted r
    → listed collection include_deleted r ≡ true
unfolding listed
IsWanted-listed collection true r (at, live) = ground (arith, eq_iff r.collection collection)
IsWanted-listed collection false r (at, live) =
    let not_deleted = live refl in ground (arith, not_deleted, eq_iff r.collection collection)

-- Rows that a filter keeps all of are counted the same behind it.
count-keep_if :
    (p q : RecordRow → Bool) (rs : List RecordRow)
    → ((r : RecordRow) → p r ≡ true → q r ≡ true)
    → length (keep_if p (keep_if q rs)) ≡ length (keep_if p rs)
count-keep_if p q [] keep = refl
count-keep_if p q (r ∷ rs) keep = ground (arith, keep r, count-keep_if p q rs keep)

-- A listing that returns holds only rows of the collection, and no deleted ones where they are not
-- asked for, in the order of their clocks, and no more than a limit below 2^63. Without a limit and an
-- offset it holds all of them: of each kind of such rows as many as the table does.
pub list_lem :
    (collection : String) (limit : Option ℕ) (offset : ℕ) (include_deleted asc : Bool) (c : Conn)
    (rows : List RecordRow)
    → (list collection limit offset include_deleted asc c).0 ≡ ok rows
    → All (IsWanted collection include_deleted) rows
      × Sorted asc rows
      × ((n : ℕ) → limit ≡ some n → n < 2 ^ 63 → length rows ≤ n)
      × (limit ≡ none
          → offset ≡ 0
          → (p : RecordRow → Bool)
          → ((r : RecordRow) → p r ≡ true → IsWanted collection include_deleted r)
          → length (keep_if p rows) ≡ length (keep_if p c.tables.records))
unfolding list
list_lem collection limit offset include_deleted asc c rows h =
    let e = (query_ok (select_list collection limit offset include_deleted asc) c rows h).0 in
    rw e (
      All-imp _ _ _ (listed-IsWanted collection include_deleted)
          (select_list-All collection offset include_deleted asc c.tables limit),
      select_list-Sorted collection offset include_deleted asc c.tables limit,
      λ n l b. rw l (length-select_list collection offset include_deleted asc c.tables n b),
      λ l o p wanted.
          rw (l, o)
            (count-select_list collection include_deleted asc c.tables p
              ∙ count-keep_if p (listed collection include_deleted) c.tables.records
                  (λ r kept. IsWanted-listed collection include_deleted r (wanted r kept))),
    )
