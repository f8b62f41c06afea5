-- ===== src/Db/Blobs/Parts.antt =====
-- src/db/blobs.rs: the statements on the parts of a blob.
use squirreld.Prelude.{
  ℕ, ◌≤◌, String, List, [], ◌∷◌, ◌≡◌, refl, arith, true, not, ◌&&◌, Option, none, some,
  if◌then◌else◌, Bool-cases, inl, inr, str_eq, eq_iff, ltb, ◌==◌, keep_if,
}
use squirreld.Error.{ok, err, db}
use squirreld.Db.Sql.{BlobPartRow, Db, healthy, exec, ◌>>◌}
use squirreld.Db.Blobs.{
  find_blob, is_found, is_part, put_part, upsert_part, insert_by_number, order_by_number, part_of,
  list_parts, clear_parts,
}

unfoldable pub find_part : String → ℕ → List BlobPartRow → Option BlobPartRow
find_part i n [] = none
find_part i n (p ∷ ps) = if is_part i n p then some p else find_part i n ps

abbrev pub done_part : String → ℕ → String → BlobPartRow
done_part i n etag = record { blob_id = i; part_number = n; etag = some etag; uploaded = true }

find_part-put_part :
    (i j etag : String) (n m : ℕ) (ps : List BlobPartRow)
    → find_part j m (put_part i n etag ps)
      ≡ (if str_eq i j && n == m then some (done_part i n etag) else find_part j m ps)
unfolding find_part put_part is_part
find_part-put_part i j etag n m [] = refl
find_part-put_part i j etag n m (p ∷ ps) =
    ground (
      arith,
      eq_iff p.blob_id i,
      eq_iff p.blob_id j,
      eq_iff i j,
      find_part-put_part i j etag n m ps,
    )

-- Storing a part, with the database in order: it is an error for a blob that is not there, and nothing
-- changes; else the part has the new tag and counts as uploaded, and no other part is touched.
pub upsert_part_lem :
    (i j etag : String) (n m : ℕ) (d : Db)
    → ((upsert_part i n etag (healthy d)).0
        ≡ (if is_found (find_blob i d.blobs) then ok tt else err db))
      × (find_part j m (upsert_part i n etag (healthy d)).1.tables.blob_parts ≡ (
          if is_found (find_blob i d.blobs) && (str_eq i j && n == m)
          then some (done_part i n etag)
          else find_part j m d.blob_parts))
unfolding upsert_part exec
upsert_part_lem i j etag n m d =
    (ground arith, ground (arith, find_part-put_part i j etag n m d.blob_parts))

-- Every part has a number at least `low` and at most those behind it.
abbrev pub Numbered : ℕ → List BlobPartRow → Type 0
Numbered low [] = Unit
Numbered low (p ∷ ps) = (low ≤ p.part_number) × Numbered p.part_number ps

insert_by_number-Numbered :
    (low : ℕ) (p : BlobPartRow) (ps : List BlobPartRow)
    → low ≤ p.part_number
    → Numbered low ps
    → Numbered low (insert_by_number p ps)
unfolding insert_by_number
insert_by_number-Numbered low p [] h a = (h, tt)
insert_by_number-Numbered low p (q ∷ qs) h a = elim (Bool-cases (ltb q.part_number p.part_number)) [
  | inl lt ↦ rw lt (a.0, insert_by_number-Numbered q.part_number p qs (ground arith) a.1)
  | inr ge ↦ rw ge (h, (ground arith, a.1))
]

order_by_number-Numbered : (ps : List BlobPartRow) → Numbered 0 (order_by_number ps)
unfolding order_by_number
order_by_number-Numbered [] = tt
order_by_number-Numbered (p ∷ ps) =
    insert_by_number-Numbered 0 p (order_by_number ps) (omega arith) (order_by_number-Numbered ps)

-- The parts of a blob are listed in the order of their numbers, the order in which the upload is
-- completed.
pub list_parts_lem :
    (i : String) (d : Db)
    → (ps : List BlobPartRow) × ((list_parts i (healthy d)).0 ≡ ok ps) × Numbered 0 ps
unfolding list_parts exec
list_parts_lem i d = (_, refl, order_by_number-Numbered (keep_if (part_of i) d.blob_parts))

parts_left :
    (i j : String) (ps : List BlobPartRow)
    → keep_if (part_of j) (keep_if (λ p. not (part_of i p)) ps)
      ≡ (if str_eq i j then [] else keep_if (part_of j) ps)
parts_left i j [] = ground arith
parts_left i j (p ∷ ps) =
    ground (arith, eq_iff p.blob_id i, eq_iff p.blob_id j, eq_iff i j, parts_left i j ps)

-- Clearing the parts of a blob, with the database in order, leaves none of them and all others.
pub list_parts-clear_parts :
    (i j : String) (d : Db)
    → (do clear_parts i; list_parts j) (healthy d) ≡ (
      ok (order_by_number (if str_eq i j then [] else keep_if (part_of j) d.blob_parts)),
      healthy (record d { blob_parts = keep_if (λ p. not (part_of i p)) d.blob_parts }),
    )
unfolding clear_parts list_parts exec
list_parts-clear_parts i j d = rw (parts_left i j d.blob_parts) refl
