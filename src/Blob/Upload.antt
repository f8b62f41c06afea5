-- ===== src/Blob/Upload.antt =====
-- src/blob/worker.rs, `upload_single` and `upload_multipart`: what is at the remote store when they
-- return.
use squirreld.Prelude.{
  ℕ, zero, suc, ◌+◌, ◌-◌, ◌*◌, ◌≤◌, min, String, List, [], ◌∷◌, ◌++◌, ◌≡◌, inl, inr, refl, sym, ap,
  ◌∙◌, arith, Bool, true, false, ◌&&◌, ◌||◌, Bool-cases, Option, none, some, if◌then◌else◌, length,
  drop, length-drop, ltb, leb,
}
use squirreld.Types.{Bytes}
use squirreld.Db.Sql.{BlobRow}
use squirreld.Db.Outbox.{Json}
use squirreld.Backend.Blobs.{
  accepted, UploadedPart, has_part, Distinct, assembled, is_there, Shown, IsBlobBackend,
}
use squirreld.Blob.{IsFiles, on_remote}
use squirreld.Blob.Worker.{
  BlobWorker, upload_single, session, send_part, send_parts, sort_parts, total_parts, resume_upload,
  expire_session, upload_multipart, no_parts,
}
use squirreld.Blob.Chunks.{
  chunk, has_part-append, Distinct-append, take-min, sort_parts-Rising, assembled-sort_parts,
}
use squirreld.Blob.Sound.Row.{Watched, Right, Clean, Uploaded, Good, Fits, Fits-Advances}
use squirreld.Blob.Sound.{Safe, Safe-bind, Safe-pure, Safe-fail, Safe-imp, Safe-files, Safe-remote}
use squirreld.Blob.Remote.{
  before-fade, put-Advances, create-Advances, list-Advances, upload-Advances, complete-Advances,
}
use squirreld.Blob.Rows.{
  set_upload_id-Rows, clear_upload_id-Rows, clear_parts-Rows, upsert_part-Rows,
}
use squirreld.Blob.Steps.{ignore-Passes, at_now-Passes, open_conn-Passes, store_parts-Passes}

module _ {S F : Type 0} (self : BlobWorker S F) (j : Json) (v : Shown S)
    (content : F → String → Option Bytes) (x : Watched) (law : IsBlobBackend self.backend v)
    (fs : IsFiles self.files content) (blob : BlobRow) (path : String)
    (from : blob.local_path ≡ some path) where
  abbrev c : ℕ
  c = self.chunk_size

  abbrev total : ℕ
  total = total_parts c (length x.bytes)

  -- The row that the upload was given, at the state `s` of the remote store.
  abbrev Given : S → Type 0
  Given s = Fits v c x s blob

  abbrev Mine : Type 0
  Mine = blob.s3_key ≡ x.key

  good : (s : S) → Given s → Mine → Good v c x s blob
  good s g e = g.mine (g.keyed e)

  right_path : (s : S) → Given s → Mine → path ≡ x.path
  right_path s g e = ground (arith, (good s g e).same_path, from)

  -- The object of the blob is its file, where the row is that of the blob.
  abbrev pub Sent : S → Type 0
  Sent s = blob.s3_key ≡ x.key → Uploaded v c x s

  own_key : (s : S) → Given s → blob.id ≡ x.id → Mine
  own_key s g e = (g.mine e).same_key

  whole_file :
      (t : F) (s : S) (bytes : Bytes)
      → Given s
      → content t x.path ≡ some x.bytes
      → (self.files.read path t).0 ≡ accepted bytes
      → Mine
      → bytes ≡ x.bytes
  whole_file t s bytes g kept e m =
      let q = right_path s g m in
      let r = fs.read_reads path t bytes e in ground (arith, r, kept, ap (content t) q)

  object_put :
      (s : S) (bytes : Bytes)
      → (Mine → bytes ≡ x.bytes)
      → (self.backend.put_object blob.s3_key bytes s).0 ≡ accepted tt
      → Sent (self.backend.put_object blob.s3_key bytes s).1
  object_put s bytes right e m =
      let t = (self.backend.put_object blob.s3_key bytes s).1 in
      let r = law.put_stores blob.s3_key bytes s e in ground (arith, r, right m, ap (v.object t) m)

  pub upload_single-Sent : Safe v content c x Given (upload_single self j blob path) (λ _ s. Sent s)
  unfolding upload_single
  upload_single-Sent =
      Safe-bind v content c x {Q = λ bytes s. Mine → bytes ≡ x.bytes} _ _
        (Safe-files v content c x _ (λ t. fs.read_keeps path t x.path)
          (λ t s bytes g kept e. whole_file t s bytes g kept e))
        (λ bytes.
          Safe-remote v content c x _
            (λ s right clean. put-Advances v c x self.backend law blob.s3_key bytes s right)
            (λ s a right clean e. object_put s bytes right e))

  -- A session of which every part is right, where the row is that of the blob.
  abbrev Opened : String → S → Type 0
  Opened upload s = Given s × (Mine → Right v c x s upload)

  -- A session that the store gives now was not given before, so it has no parts.
  created :
      (s : S) (upload : String)
      → Given s
      → Clean v c x s
      → (self.backend.create_multipart_upload blob.s3_key s).0 ≡ accepted upload
      → Opened upload (self.backend.create_multipart_upload blob.s3_key s).1
  created s upload g clean e =
      let a = create-Advances v c x self.backend law blob.s3_key s in
      let t = (self.backend.create_multipart_upload blob.s3_key s).1 in
      let (unknown, known) = law.create_new blob.s3_key upload s e in
      (
        Fits-Advances v c x s t blob a g,
        λ m. (
          ap (λ k. v.issued t k upload) (sym m) ∙ known,
          λ n bytes h.
              let fade = (law.create_keeps blob.s3_key s).0 in
              let was = clean upload n bytes (before-fade v c x s t upload n bytes fade h) in
              absurd (ground (arith, was, unknown, ap (λ k. v.issued s k upload) m)),
        ),
      )

  session-Opened :
      (o : Option String)
      → blob.upload_id ≡ o
      → Safe v content c x Given (session self j blob o) Opened
  unfolding session
  session-Opened (some upload) e =
      Safe-pure v content c x upload (λ s g. (g, λ m. (good s g m).resumable upload e))
  session-Opened none e =
      Safe-bind v content c x {Q = Opened} _ _
        (Safe-remote v content c x _
          (λ s g clean. create-Advances v c x self.backend law blob.s3_key s)
          (λ s upload g clean e. created s upload g clean e))
        (λ upload.
          Safe-bind v content c x _ _ (open_conn-Passes self j v content c x {P = Opened upload})
            (λ _.
              Safe-bind v content c x _ _
                (at_now-Passes self j v content c x {P = Opened upload} _ (λ now s p.
                  set_upload_id-Rows v c x s now blob.id upload (λ e. p.1 (own_key s p.0 e))))
                (λ _. Safe-pure v content c x upload (λ s p. p))))

  -- In the loop, before part `n`: `all` are the parts `ps` that the remote had, and those sent since;
  -- the session has them all.
  record Sending (upload : String) (ps : List UploadedPart) (n : ℕ) (all : List UploadedPart)
      (s : S) : Type 0 where
    opened : Opened upload s
    distinct : Distinct all
    numbers : (m : ℕ) → has_part m all ≡ (has_part m ps || (leb 1 m && ltb m n))
    held : (m : ℕ) → has_part m all ≡ true → is_there (v.part s blob.s3_key upload m) ≡ true

  parts_listed :
      (s : S) (upload : String) (ps : List UploadedPart)
      → Opened upload s
      → (self.backend.list_parts blob.s3_key upload s).0 ≡ accepted ps
      → Sending upload ps 1 ps (self.backend.list_parts blob.s3_key upload s).1
  parts_listed s upload ps o e =
      let t = (self.backend.list_parts blob.s3_key upload s).1 in
      let a = list-Advances v c x self.backend law blob.s3_key upload s in
      record {
        opened = (Fits-Advances v c x s t blob a o.0, λ m. a.0 upload (o.1 m));
        distinct = law.list_distinct blob.s3_key upload ps s e;
        numbers = λ m. ground arith;
        held = λ m h. law.list_lists blob.s3_key upload ps s e m h;
      }

  list_parts-Sending :
      (upload : String)
      → Safe v content c x
          (Opened upload)
          (on_remote (self.backend.list_parts blob.s3_key upload))
          (λ ps s. Sending upload ps 1 ps s)
  list_parts-Sending upload =
      Safe-remote v content c x _
        (λ s o clean. list-Advances v c x self.backend law blob.s3_key upload s)
        (λ s ps o clean e. parts_listed s upload ps o e)

  expire_session-Sent :
      {P : S → Type 0} → Safe v content c x P (expire_session self j blob) (λ _ s. Sent s)
  unfolding expire_session
  expire_session-Sent {P} =
      Safe-bind v content c x _ _ (open_conn-Passes self j v content c x {P = P}) (λ _.
        Safe-bind v content c x _ _
          (at_now-Passes self j v content c x {P = P} _
            (λ now s p. clear_upload_id-Rows v c x s now blob.id))
          (λ _.
            Safe-bind v content c x _ _
              (ignore-Passes self j v content c x {P = P} _
                (λ s p. clear_parts-Rows v c x s blob.id))
              (λ _. Safe-fail v content c x _)))

  -- The file of the blob, of which the upload was told the size.
  module _ (size_bytes : ℕ) (sized : Mine → size_bytes ≡ length x.bytes) (upload : String)
      (ps : List UploadedPart) where
    read_chunk :
        (t : F) (s : S) (n : ℕ) (part : Bytes)
        → Given s
        → content t x.path ≡ some x.bytes
        → (self.files.read_exact path ((n - 1) * c) (min (size_bytes - (n - 1) * c) c) t).0
          ≡ accepted part
        → Mine
        → part ≡ chunk c n x.bytes
    read_chunk t s n part g kept e m =
        let (bytes, r, q) = fs.exact_reads path _ _ t part e in
        let same : bytes ≡ x.bytes = ground (arith, r, kept, ap (content t) (right_path s g m)) in
        let rest = drop ((n - 1) * c) x.bytes in
        let long : size_bytes - (n - 1) * c ≡ length rest =
          ap (λ k. k - (n - 1) * c) (sized m) ∙ sym (length-drop ((n - 1) * c) x.bytes) in
        q ∙ (rw (same, long) (take-min c rest))

    module _ (n : ℕ) (all : List UploadedPart) (low : 1 ≤ n) (high : Mine → n ≤ total)
        (new : has_part n ps ≡ false) where
      uploaded_part :
          (s : S) (part : Bytes) (etag : String)
          → Sending upload ps n all s
          → (Mine → part ≡ chunk c n x.bytes)
          → (self.backend.upload_part blob.s3_key upload n part s).0 ≡ accepted etag
          → Sending upload ps
              (suc n)
              (all ++ (record { part_number = n; etag = etag } ∷ []))
              (self.backend.upload_part blob.s3_key upload n part s).1
      unfolding has_part
      uploaded_part s part etag st right e =
          let t = (self.backend.upload_part blob.s3_key upload n part s).1 in
          let p : UploadedPart = record { part_number = n; etag = etag } in
          let a =
            upload-Advances v c x self.backend law blob.s3_key upload n part s
              (λ m. ((st.opened.1 m).0, low, high m, right m)) in
          let fresh : has_part n all ≡ false = ground (arith, st.numbers n, new) in
          record {
            opened = (Fits-Advances v c x s t blob a st.opened.0, λ m. a.0 upload (st.opened.1 m));
            distinct = Distinct-append all p st.distinct fresh;
            numbers = λ m. ground (arith, has_part-append m all (p ∷ []), st.numbers m);
            held = λ m h. ground (
              arith,
              h,
              has_part-append m all (p ∷ []),
              st.held m,
              law.upload_stores blob.s3_key upload etag n part s e,
              law.upload_parts blob.s3_key upload n part s blob.s3_key upload m,
            );
          }

      send_part-Sending :
          Safe v content c x
            (Sending upload ps n all)
            (send_part self j blob path upload size_bytes n)
            (λ p s. Sending upload ps (suc n) (all ++ (p ∷ [])) s)
      unfolding send_part
      send_part-Sending =
          Safe-bind v content c x
            {Q = λ part s. Sending upload ps n all s × (Mine → part ≡ chunk c n x.bytes)} _ _
            (Safe-files v content c x _ (λ t. fs.exact_keeps path _ _ t x.path)
              (λ t s part st kept e. (st, read_chunk t s n part st.opened.0 kept e)))
            (λ part.
              Safe-bind v content c x _ _
                (Safe-remote v content c x
                  {Q = λ etag s.
                    Sending upload ps (suc n)
                      (all ++ (record { part_number = n; etag = etag } ∷ [])) s}
                  _
                  (λ s st clean.
                    upload-Advances v c x self.backend law blob.s3_key upload n part s
                      (λ m. ((st.0.opened.1 m).0, low, high m, st.1 m)))
                  (λ s etag st clean e. uploaded_part s part etag st.0 st.1 e))
                (λ etag. Safe-bind v content c x _ _ (open_conn-Passes self j v content c x) (λ _.
                  Safe-bind v content c x _ _
                    (ignore-Passes self j v content c x _
                      (λ s p. upsert_part-Rows v c x s blob.id n etag))
                    (λ _. Safe-pure v content c x _ (λ s p. p)))))

    -- A part that the remote had is left out.
    skipped :
        (n : ℕ) (all : List UploadedPart) (s : S)
        → has_part n ps ≡ true
        → 1 ≤ n
        → Sending upload ps n all s
        → Sending upload ps (suc n) all s
    skipped n all s old low st = record {
      opened = st.opened;
      distinct = st.distinct;
      numbers = λ m. ground (arith, st.numbers m, old, low);
      held = st.held;
    }

    send_parts-Sending :
        (last : ℕ)
        → (Mine → last ≤ suc total)
        → (count n : ℕ) (all : List UploadedPart) → 1 ≤ n
        → n + count ≡ last
        → Safe v content c x
            (Sending upload ps n all)
            (send_parts self j blob path upload size_bytes ps count n all)
            (λ all' s. Sending upload ps last all' s)
    unfolding send_parts
    send_parts-Sending last high zero n all low e =
        let q : n ≡ last = omega (arith, e) in Safe-pure v content c x all (λ s st. rw (sym q) st)
    send_parts-Sending last high (suc count) n all low e = elim (Bool-cases (has_part n ps)) [
      | inl old ↦ rw old (
          Safe-imp v content c x _ (λ s st. skipped n all s old low st)
            (send_parts-Sending last high count (suc n) all (omega arith) (omega (arith, e))))
      | inr new ↦ rw new (
          Safe-bind v content c x _ _
            (send_part-Sending n all low (λ m. omega (arith, e, high m)) new)
            (λ p.
              send_parts-Sending last high count (suc n) (all ++ (p ∷ [])) (omega arith)
                (omega (arith, e))))
    ]

    module _ (covers : length x.bytes ≤ total * c) (all : List UploadedPart) (s : S)
        (st : Sending upload ps (suc (total_parts c size_bytes)) all s) (m : Mine) where
      all_totals : total_parts c size_bytes ≡ total
      all_totals = ap (total_parts c) (sized m)

      -- A part of the session is a chunk of the file.
      chunk_of_part :
          (n : ℕ)
          → has_part n all ≡ true
          → (1 ≤ n) × (n ≤ total) × (v.part s blob.s3_key upload n ≡ some (chunk c n x.bytes))
      chunk_of_part n h = go (v.part s blob.s3_key upload n) refl (st.held n h)
        where
          go :
              (o : Option Bytes)
              → v.part s blob.s3_key upload n ≡ o
              → is_there o ≡ true
              → (1 ≤ n) × (n ≤ total) × (v.part s blob.s3_key upload n ≡ some (chunk c n x.bytes))
          go none e t = absurd (ground arith)
          go (some d) e t =
              let (l, u, q) = (st.opened.1 m).1 n d (ap (λ k. v.part s k upload n) (sym m) ∙ e) in
              (l, u, e ∙ ap (λ b. some b) q)

      numbers_are : (n : ℕ) → has_part n all ≡ (leb 1 n && leb n total)
      numbers_are n = elim (Bool-cases (has_part n all)) [
        | inl there ↦ let (l, u, q) = chunk_of_part n there in ground (arith, l, u, there)
        | inr missing ↦ ground (arith, st.numbers n, missing, all_totals)
      ]

      assembled-file : assembled (v.part s blob.s3_key upload) (sort_parts all) ≡ x.bytes
      assembled-file =
          assembled-sort_parts c total x.bytes covers (v.part s blob.s3_key upload)
            (λ n low high. (chunk_of_part n (ground (arith, numbers_are n, low, high))).2) all
            st.distinct numbers_are

    complete-Sent :
        length x.bytes ≤ total * c
        → (all : List UploadedPart)
        → Safe v content c x
            (Sending upload ps (suc (total_parts c size_bytes)) all)
            (on_remote (self.backend.complete_multipart_upload blob.s3_key upload (sort_parts all)))
            (λ _ s. Sent s)
    complete-Sent covers all =
        Safe-remote v content c x _
          (λ s st clean.
            complete-Advances v c x self.backend law blob.s3_key upload (sort_parts all) s
              (sort_parts-Rising all st.distinct) (assembled-file covers all s st))
          (λ s a st clean e m.
            let t =
              (self.backend.complete_multipart_upload blob.s3_key upload (sort_parts all) s).1 in
            let q =
              law.complete_stores blob.s3_key upload (sort_parts all) s
                (sort_parts-Rising all st.distinct) e in
            ap (v.object t) (sym m) ∙ (q ∙ ap (λ b. some b) (assembled-file covers all s st m)))

    resume_upload-Sent :
        length x.bytes ≤ total * c
        → Safe v content c x
            (Sending upload ps 1 ps)
            (resume_upload self j blob path size_bytes upload ps)
            (λ _ s. Sent s)
    unfolding resume_upload
    resume_upload-Sent covers =
        Safe-bind v content c x _ _ (open_conn-Passes self j v content c x) (λ _.
          Safe-bind v content c x _ _ (store_parts-Passes self j v content c x blob.id ps) (λ _.
            Safe-bind v content c x {Q = λ _ s. Sending upload ps 1 ps s} _ _
              (Safe-files v content c x _ (λ t. fs.open_keeps path t x.path)
                (λ t s a st kept e. st))
              (λ _.
                Safe-bind v content c x _ _
                  (send_parts-Sending (suc (total_parts c size_bytes))
                    (λ m. omega (arith, ap (total_parts c) (sized m))) (total_parts c size_bytes) 1
                    ps (omega arith) (omega arith))
                  (complete-Sent covers))))

  pub upload_multipart-Sent :
      length x.bytes ≤ total * c
      → (size_bytes : ℕ) → (Mine → size_bytes ≡ length x.bytes)
      → Safe v content c x Given (upload_multipart self j blob path size_bytes) (λ _ s. Sent s)
  unfolding upload_multipart
  upload_multipart-Sent covers size_bytes sized =
      Safe-bind v content c x _ _ (session-Opened blob.upload_id refl) (λ upload.
        Safe-bind v content c x _ _ (list_parts-Sending upload)
          (λ ps. go (no_parts ps && is_there blob.upload_id) upload ps))
    where
      go :
          (b : Bool) (upload : String) (ps : List UploadedPart)
          → Safe v content c x
              (Sending upload ps 1 ps)
              (if b
                then expire_session self j blob
                else resume_upload self j blob path size_bytes upload ps)
              (λ _ s. Sent s)
      go true upload ps = expire_session-Sent
      go false upload ps = resume_upload-Sent size_bytes sized upload ps covers
