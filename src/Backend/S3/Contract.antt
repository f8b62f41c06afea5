-- ===== src/Backend/S3/Contract.antt =====
-- src/backend/s3.rs as a backend in the sense of the blob worker, for a client that does what the
-- documentation of S3 says.
pub mod Answers
use squirreld.Prelude.{
  ℕ, String, List, [], ◌∷◌, ◌≡◌, ◌⊎◌, refl, sym, ap, ◌∙◌, arith, Bool, true, false, ◌||◌, ◌==◌,
  Option, none, some, Bool-cases, ==_iff, inl, inr, length, All, contains,
}
use squirreld.Types.{Bytes}
use squirreld.Backend.Blobs.{
  Answer, accepted, refused, UploadedPart, has_part, Rising, Distinct, assembled, Shown,
  StillIssued, PartsFade, Writes, is_there, IsBlobBackend,
}
use squirreld.Backend.S3.{
  Part, Client, or_transient, or_missing, or_zero, cons_part, uploaded_parts, listed, counted,
  saved, get_object, s3,
}
use squirreld.Backend.S3.Contract.Answers.{
  numbered, Once, has_part-uploaded_parts, uploaded_parts-Distinct, or_transient-state,
  or_transient-ok, or_missing-state, or_missing-ok, listed-state, listed-ok, counted-ok, saved-ok,
}

-- The calls that may change what S3 shows of sessions and objects.
pub data Call : Type 0 where
  put_call : (key : String) (bytes : Bytes) → Call
  create_call : (key : String) → Call
  upload_call : (key upload : String) (n : ℕ) (bytes : Bytes) → Call
  list_call : (key upload : String) → Call
  complete_call : (key upload : String) (ps : List UploadedPart) → Call

module _ {S : Type 0} (c : Client S) (v : Shown S) (bucket : String) where
  abbrev pub after : Call → S → S
  after (put_call key bytes) s = (c.put_object bucket key bytes s).1
  after (create_call key) s = (c.create_multipart_upload bucket key s).1
  after (upload_call key upload n bytes) s = (c.upload_part bucket key upload n bytes s).1
  after (list_call key upload) s = (c.list_parts bucket key upload s).1
  after (complete_call key upload ps) s = (c.complete_multipart_upload bucket key upload ps s).1

  abbrev pub SameObjects : S → S → Type 0
  SameObjects s t = (other : String) → v.object t other ≡ v.object s other

  -- What a call may do, answered or not: S3 applies it once, more often, or not at all. Sessions
  -- may expire meanwhile and their parts be gone, but not during the upload of a part, which leaves all
  -- other parts as they are. A completion names its parts in ascending order.
  abbrev pub Effect : Call → S → S → Type 0
  Effect (put_call key bytes) s t = PartsFade v s t × Writes v key bytes s t
  Effect (create_call key) s t = PartsFade v s t × SameObjects s t
  Effect (upload_call key upload n bytes) s t =
      SameObjects s t
      × ((k u : String) (m : ℕ)
          → (v.part t k u m ≡ v.part s k u m)
            ⊎ ((k ≡ key) × (u ≡ upload) × (m ≡ n) × (v.part t k u m ≡ some bytes)))
  Effect (list_call key upload) s t = PartsFade v s t × SameObjects s t
  Effect (complete_call key upload ps) s t =
      Rising 0 ps → PartsFade v s t × Writes v key (assembled (v.part s key upload) ps) s t

  abbrev pub IsPart : S → String → String → Part → Type 0
  IsPart s key upload p = is_there (v.part s key upload (or_zero p.part_number)) ≡ true

  -- `list_parts` gives parts that are there, each once; it may leave out parts, as S3 does after the
  -- first thousand.
  pub record IsS3 : Type 0 where
    pub effect : (call : Call) (s : S) → Effect call s (after call s)
    pub issued : (call : Call) (s : S) → StillIssued v s (after call s)
    pub put_stores :
        (key : String) (bytes : Bytes) (s : S)
        → (c.put_object bucket key bytes s).0 ≡ accepted tt
        → v.object (c.put_object bucket key bytes s).1 key ≡ some bytes
    pub create_new :
        (key upload : String) (s : S)
        → (c.create_multipart_upload bucket key s).0 ≡ accepted (some upload)
        → (v.issued s key upload ≡ false)
          × (v.issued (c.create_multipart_upload bucket key s).1 key upload ≡ true)
    pub upload_stores :
        (key upload etag : String) (n : ℕ) (bytes : Bytes) (s : S)
        → (c.upload_part bucket key upload n bytes s).0 ≡ accepted (some etag)
        → v.part (c.upload_part bucket key upload n bytes s).1 key upload n ≡ some bytes
    pub list_tells :
        (key upload : String) (ps : List Part) (s : S)
        → (c.list_parts bucket key upload s).0 ≡ accepted ps
        → All (IsPart (c.list_parts bucket key upload s).1 key upload) ps
    pub list_once :
        (key upload : String) (ps : List Part) (s : S)
        → (c.list_parts bucket key upload s).0 ≡ accepted ps
        → Once ps
    pub complete_stores :
        (key upload : String) (ps : List UploadedPart) (s : S)
        → Rising 0 ps
        → (c.complete_multipart_upload bucket key upload ps s).0 ≡ accepted tt
        → v.object (c.complete_multipart_upload bucket key upload ps s).1 key
          ≡ some (assembled (v.part s key upload) ps)
    pub get_gives :
        (key : String) (bytes : Bytes) (s : S)
        → (c.get_object bucket key s).0 ≡ accepted (accepted bytes)
        → v.object s key ≡ some bytes

module _ {S F : Type 0} {c : Client S} {v : Shown S} {bucket : String} (law : IsS3 c v bucket)
    (write : String → Bytes → F → Answer String (Unit {0}) × F) where
  listed_there :
      (s : S) (key upload : String) (n : ℕ) (ps : List Part)
      → All (IsPart c v bucket s key upload) ps
      → has_part n (uploaded_parts ps) ≡ true
      → is_there (v.part s key upload n) ≡ true
  unfolding uploaded_parts has_part
  listed_there s key upload n [] all h = absurd (cc)
  listed_there s key upload n (p ∷ ps) all h = go p.e_tag h (listed_there s key upload n ps all.1)
    where
      go :
          (o : Option String)
          → has_part n (cons_part p o (uploaded_parts ps)) ≡ true
          → (has_part n (uploaded_parts ps) ≡ true → is_there (v.part s key upload n) ≡ true)
          → is_there (v.part s key upload n) ≡ true
      go none h ih = ih h
      go (some etag) h ih = elim (Bool-cases (or_zero p.part_number == n)) [
        | inl same ↦ rw (← (==_iff (or_zero p.part_number) n).0 same) all.0
        | inr other ↦ ih (ground (arith, other, h))
      ]

  there_if_listed :
      (key upload : String) (ps : List UploadedPart) (s : S)
      → (listed (c.list_parts bucket key upload s)).0 ≡ accepted ps
      → (n : ℕ) → has_part n ps ≡ true
      → is_there (v.part (c.list_parts bucket key upload s).1 key upload n) ≡ true
  unfolding has_part
  there_if_listed key upload ps s e n h = elim (listed-ok (c.list_parts bucket key upload s) ps e) [
    | inl gone ↦ absurd (cc (h, ap (has_part n) gone))
    | inr (out, told, same) ↦
        listed_there _ key upload n out (law.list_tells key upload out s told)
          (ap (has_part n) (sym same) ∙ h)
  ]

  distinct_if_listed :
      (key upload : String) (ps : List UploadedPart) (s : S)
      → (listed (c.list_parts bucket key upload s)).0 ≡ accepted ps
      → Distinct ps
  distinct_if_listed key upload ps s e = elim (listed-ok (c.list_parts bucket key upload s) ps e) [
    | inl gone ↦ rw gone tt
    | inr (out, told, same) ↦
        rw same (uploaded_parts-Distinct out (law.list_once key upload out s told))
  ]

  -- For a client that keeps this contract, the backend keeps that of the blob worker.
  pub s3-IsBlobBackend : IsBlobBackend (s3 c write bucket) v
  s3-IsBlobBackend = record {
    put_keeps = λ key bytes s.
        rw (or_transient-state (c.put_object bucket key bytes s))
          (law.effect (put_call key bytes) s);
    put_stores = λ key bytes s h.
        let r = c.put_object bucket key bytes s in
        rw (or_transient-state r) (law.put_stores key bytes s (or_transient-ok r tt h));
    create_keeps = λ key s.
        rw (or_missing-state _ (c.create_multipart_upload bucket key s))
          (law.effect (create_call key) s);
    create_new = λ key upload s h.
        let r = c.create_multipart_upload bucket key s in
        rw (or_missing-state _ r) (law.create_new key upload s (or_missing-ok _ r upload h));
    put_issued = λ key bytes s k u h.
        rw (or_transient-state (c.put_object bucket key bytes s))
          (law.issued (put_call key bytes) s k u h);
    create_issued = λ key s k u h.
        rw (or_missing-state _ (c.create_multipart_upload bucket key s))
          (law.issued (create_call key) s k u h);
    upload_issued = λ key upload n bytes s k u h.
        rw (or_missing-state _ (c.upload_part bucket key upload n bytes s))
          (law.issued (upload_call key upload n bytes) s k u h);
    list_issued = λ key upload s k u h.
        rw (listed-state (c.list_parts bucket key upload s))
          (law.issued (list_call key upload) s k u h);
    complete_issued = λ key upload ps s k u h.
        rw (or_transient-state (c.complete_multipart_upload bucket key upload ps s))
          (law.issued (complete_call key upload ps) s k u h);
    upload_objects = λ key upload n bytes s other.
        rw (or_missing-state _ (c.upload_part bucket key upload n bytes s))
          ((law.effect (upload_call key upload n bytes) s).0 other);
    upload_parts = λ key upload n bytes s k u m.
        rw (or_missing-state _ (c.upload_part bucket key upload n bytes s))
          ((law.effect (upload_call key upload n bytes) s).1 k u m);
    upload_stores = λ key upload etag n bytes s h.
        let r = c.upload_part bucket key upload n bytes s in
        rw (or_missing-state _ r)
          (law.upload_stores key upload etag n bytes s (or_missing-ok _ r etag h));
    list_keeps = λ key upload s.
        rw (listed-state (c.list_parts bucket key upload s)) (law.effect (list_call key upload) s);
    list_distinct = distinct_if_listed;
    list_lists = λ key upload ps s e n h.
        rw (listed-state (c.list_parts bucket key upload s))
          (there_if_listed key upload ps s e n h);
    complete_keeps = λ key upload ps s rising.
        rw (or_transient-state (c.complete_multipart_upload bucket key upload ps s))
          (law.effect (complete_call key upload ps) s rising);
    complete_stores = λ key upload ps s rising h.
        let r = c.complete_multipart_upload bucket key upload ps s in
        rw (or_transient-state r)
          (law.complete_stores key upload ps s rising (or_transient-ok r tt h));
  }

  -- Where a write that is accepted leaves its bytes in the file, an object that was fetched is in the
  -- file, and the number is its length.
  pub get_object_lem :
      (content : F → String → Option Bytes)
      → ((p : String) (bytes : Bytes) (f : F)
          → (write p bytes f).0 ≡ accepted tt
          → content (write p bytes f).1 p ≡ some bytes)
      → (key dest : String) (s : S) (f : F) (n : ℕ)
      → (get_object c write bucket key dest s f).0 ≡ accepted n
      → (bytes : Bytes) × (v.object s key ≡ some bytes)
        × (content (get_object c write bucket key dest s f).2 dest ≡ some bytes)
        × (n ≡ length bytes)
  unfolding get_object
  get_object_lem content writes key dest s f n h =
      let (bytes, got, there, counts) =
        saved-ok write content writes dest (c.get_object bucket key s).0 f n h in
      (bytes, law.get_gives key bytes s got, there, counts)
