-- ===== src/Blob/Rows.antt =====
-- src/blob/worker.rs: the statements of the worker keep the rows sound.
use squirreld.Prelude.{
  ℕ, String, List, [], ◌∷◌, ◌≡◌, inl, inr, sym, ◌∙◌, arith, Bool-cases, str_eq, eq_iff, All,
  All-keep_if, map, ltb,
}
use squirreld.Error.{Result, ok}
use squirreld.Types.{uploaded}
use squirreld.Db.Sql.{BlobRow, Db, Conn, exec, query, next_fails}
use squirreld.Db.Keeps.{Keeps, Keeps-exec, Keeps-pure, Keeps-bind}
use squirreld.Db.Outbox.{Json}
use squirreld.Db.Blobs
use squirreld.Db.Blobs.{
  update_blob, on_blob, from_row, order_by_created, insert_by_created, is_ready, find_blob, retried,
  retries_of, log_of,
}
use squirreld.Engine.Open.{initialize}
use squirreld.Backend.Blobs.{Shown}
use squirreld.Blob.Sound.Row.{Watched, Right, Uploaded, Fits, Rows}

All-update_blob :
    (P : BlobRow → Type 0) (g : BlobRow → BlobRow) (i : String) (bs : List BlobRow)
    → ((b : BlobRow) → b.id ≡ i → P b → P (g b))
    → All P bs
    → All P (update_blob g i bs)
unfolding update_blob
All-update_blob P g i [] keep h = tt
All-update_blob P g i (b ∷ bs) keep h = elim (Bool-cases (str_eq b.id i)) [
  | inl same ↦
      rw same (keep b (ground (arith, eq_iff b.id i, same)) h.0, All-update_blob P g i bs keep h.1)
  | inr other ↦ rw other (h.0, All-update_blob P g i bs keep h.1)
]

module _ {S : Type 0} (v : Shown S) (c : ℕ) (x : Watched) (s : S) where
  pub Keeps-query : {A : Type 0} (f : Db → A) → Keeps (Rows v c x s) (query f)
  Keeps-query f = Keeps-exec _ (λ d h. h)

  Keeps-on_blob :
      (g : BlobRow → BlobRow) (i : String)
      → ((b : BlobRow) → b.id ≡ i → Fits v c x s b → Fits v c x s (g b))
      → Keeps (Rows v c x s) (on_blob g i)
  Keeps-on_blob g i keep = Keeps-exec _ (λ d h. All-update_blob (Fits v c x s) g i d.blobs keep h)

  pub initialize-Rows : Keeps (Rows v c x s) initialize
  unfolding initialize
  initialize-Rows = Keeps-bind _ _ (Keeps-query _) (λ _.
      Keeps-bind _ _ (Keeps-query _) (λ _. Keeps-bind _ _ (Keeps-query _) (λ _. Keeps-query _)))

  pub mark_retry-Rows :
      (j : Json) (now log_now update_now : ℕ) (i error : String)
      → Keeps (Rows v c x s) (Blobs.mark_retry j now log_now update_now i error)
  unfolding Blobs.mark_retry
  mark_retry-Rows j now log_now update_now i error = Keeps-bind _ _ (Keeps-query _) (λ row.
      Keeps-on_blob _ i (λ b same h. record {
        mine = λ e.
            let g = h.mine e in
            record {
              same_key = g.same_key;
              same_path = g.same_path;
              same_size = g.same_size;
              resumable = g.resumable;
              stored = g.stored;
            };
        keyed = h.keyed;
      }))

  pub upsert_part-Rows :
      (i : String) (n : ℕ) (etag : String) → Keeps (Rows v c x s) (Blobs.upsert_part i n etag)
  unfolding Blobs.upsert_part
  upsert_part-Rows i n etag = Keeps-exec _ (λ d h. ground (arith, h))

  pub clear_parts-Rows : (i : String) → Keeps (Rows v c x s) (Blobs.clear_parts i)
  unfolding Blobs.clear_parts
  clear_parts-Rows i = Keeps-exec _ (λ d h. h)

  pub set_upload_id-Rows :
      (now : ℕ) (i upload : String)
      → (i ≡ x.id → Right v c x s upload)
      → Keeps (Rows v c x s) (Blobs.set_upload_id now i upload)
  unfolding Blobs.set_upload_id
  set_upload_id-Rows now i upload right = Keeps-on_blob _ i (λ b same h. record {
    mine = λ e.
        let g = h.mine e in
        record {
          same_key = g.same_key;
          same_path = g.same_path;
          same_size = g.same_size;
          resumable =
              λ u q. let w : upload ≡ u = ground (arith, q) in rw (sym w) (right (sym same ∙ e));
          stored = λ q. absurd (ground (arith, eq_iff "uploading" "uploaded", q));
        };
    keyed = h.keyed;
  })

  pub clear_upload_id-Rows :
      (now : ℕ) (i : String) → Keeps (Rows v c x s) (Blobs.clear_upload_id now i)
  unfolding Blobs.clear_upload_id
  clear_upload_id-Rows now i = Keeps-on_blob _ i (λ b same h. record {
    mine = λ e.
        let g = h.mine e in
        record {
          same_key = g.same_key;
          same_path = g.same_path;
          same_size = g.same_size;
          resumable = λ u q. absurd (ground (arith, q));
          stored = λ q. absurd (ground (arith, eq_iff "pending" "uploaded", q));
        };
    keyed = h.keyed;
  })

  pub set_uploaded-Rows :
      (now : ℕ) (i : String)
      → (i ≡ x.id → Uploaded v c x s)
      → Keeps (Rows v c x s) (Blobs.set_status now i uploaded)
  unfolding Blobs.set_status
  set_uploaded-Rows now i stored = Keeps-on_blob _ i (λ b same h. record {
    mine = λ e.
        let g = h.mine e in
        record {
          same_key = g.same_key;
          same_path = g.same_path;
          same_size = g.same_size;
          resumable = g.resumable;
          stored = λ q. stored (sym same ∙ e);
        };
    keyed = h.keyed;
  })

  insert_by_created-Fits :
      (b : BlobRow) (bs : List BlobRow)
      → Fits v c x s b
      → All (Fits v c x s) bs
      → All (Fits v c x s) (insert_by_created b bs)
  unfolding insert_by_created
  insert_by_created-Fits b [] h hs = (h, tt)
  insert_by_created-Fits b (d ∷ ds) h hs = elim (Bool-cases (ltb d.created_at b.created_at)) [
    | inl lt ↦ rw lt (hs.0, insert_by_created-Fits b ds h hs.1)
    | inr ge ↦ rw ge (h, hs)
  ]

  order_by_created-Fits :
      (bs : List BlobRow) → All (Fits v c x s) bs → All (Fits v c x s) (order_by_created bs)
  unfolding order_by_created
  order_by_created-Fits [] h = tt
  order_by_created-Fits (b ∷ bs) h =
      insert_by_created-Fits b (order_by_created bs) h.0 (order_by_created-Fits bs h.1)

  from_row-Fits : (b : BlobRow) → Fits v c x s b → Fits v c x s (from_row b)
  from_row-Fits b h = record {
    mine = λ e.
        let g = h.mine e in
        record {
          same_key = g.same_key;
          same_path = g.same_path;
          same_size = g.same_size;
          resumable = g.resumable;
          stored = g.stored;
        };
    keyed = h.keyed;
  }

  map-Fits : (bs : List BlobRow) → All (Fits v c x s) bs → All (Fits v c x s) (map from_row bs)
  map-Fits [] h = tt
  map-Fits (b ∷ bs) h = (from_row-Fits b h.0, map-Fits bs h.1)

  -- The rows that a cycle reads are rows of the table.
  abbrev pub Listed : Result (List BlobRow) → Type 0
  Listed (ok bs) = All (Fits v c x s) bs
  Listed _ = Unit

  pub list_ready-Rows :
      (now : ℕ) (statuses : List String) → Keeps (Rows v c x s) (Blobs.list_ready now statuses)
  unfolding Blobs.list_ready
  list_ready-Rows now [] = Keeps-pure []
  list_ready-Rows now (t ∷ ts) = Keeps-query _

  pub list_ready-Listed :
      (now : ℕ) (statuses : List String) (conn : Conn)
      → Rows v c x s conn.tables
      → Listed (Blobs.list_ready now statuses conn).0
  unfolding Blobs.list_ready exec
  list_ready-Listed now [] conn h = tt
  list_ready-Listed now (t ∷ ts) conn h = elim (Bool-cases (next_fails conn.faults)) [
    | inl fails ↦ rw fails tt
    | inr runs ↦ rw runs (
        map-Fits _
          (order_by_created-Fits _ (All-keep_if _ (is_ready (t ∷ ts) now) conn.tables.blobs h)))
  ]
