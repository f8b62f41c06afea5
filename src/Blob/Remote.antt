-- ===== src/Blob/Remote.antt =====
-- src/blob/worker.rs: what the calls of the remote store do for the blob that is looked at.
use squirreld.Prelude.{
  ℕ, ◌≤◌, String, List, ◌≡◌, ◌⊎◌, inl, inr, sym, ◌∙◌, arith, true, Bool-cases, none, some, str_eq,
  eq_iff, length,
}
use squirreld.Types.{Bytes}
use squirreld.Backend.Blobs.{
  UploadedPart, BlobBackend, Rising, Shown, StillIssued, PartsFade, Writes, IsBlobBackend,
  assembled,
}
use squirreld.Blob.Worker.{total_parts}
use squirreld.Blob.Chunks.{chunk}
use squirreld.Blob.Sound.Row.{Watched, Chunked, Clean, Uploaded, Advances}

module _ {S : Type 0} (v : Shown S) (c : ℕ) (x : Watched) where
  pub before-fade :
      (s t : S) (upload : String) (n : ℕ) (bytes : Bytes)
      → PartsFade v s t
      → v.part t x.key upload n ≡ some bytes
      → v.part s x.key upload n ≡ some bytes
  before-fade s t upload n bytes fade h = go (fade x.key upload n)
    where
      go :
          (v.part t x.key upload n ≡ v.part s x.key upload n) ⊎ (v.part t x.key upload n ≡ none)
          → v.part s x.key upload n ≡ some bytes
      go (inl same) = sym same ∙ h
      go (inr gone) = absurd (ground (arith, h, gone))

  -- A call that gives or loses sessions and parts at most, and keeps the object.
  fading :
      (s t : S)
      → StillIssued v s t
      → PartsFade v s t
      → (Uploaded v c x s → Uploaded v c x t)
      → Advances v c x s t
  fading s t issued fade stored = (
    λ u right.
        (issued x.key u right.0, λ n bytes h. right.1 n bytes (before-fade s t u n bytes fade h)),
    stored,
    λ clean u n bytes h. issued x.key u (clean u n bytes (before-fade s t u n bytes fade h)),
  )

  Uploaded-write :
      (s t : S) (key : String) (bytes : Bytes)
      → Writes v key bytes s t
      → (key ≡ x.key → bytes ≡ x.bytes)
      → Uploaded v c x s
      → Uploaded v c x t
  Uploaded-write s t key bytes w right stored = elim (Bool-cases (str_eq key x.key)) [
    | inl same ↦ own (ground (arith, eq_iff key x.key, same)) (w.1)
    | inr other ↦ w.0 x.key (λ e. ground (arith, eq_iff key x.key, other, e)) ∙ stored
  ]
    where
      own :
          key ≡ x.key
          → (v.object t key ≡ v.object s key) ⊎ (v.object t key ≡ some bytes)
          → Uploaded v c x t
      own e (inl same) = cc
      own e (inr new) = let r = right e in cc

  module _ {F : Type 0} (b : BlobBackend S F) (law : IsBlobBackend b v) where
    pub put-Advances :
        (key : String) (bytes : Bytes) (s : S)
        → (key ≡ x.key → bytes ≡ x.bytes)
        → Advances v c x s (b.put_object key bytes s).1
    put-Advances key bytes s right =
        let k = law.put_keeps key bytes s in
        fading s _ (law.put_issued key bytes s) k.0 (Uploaded-write s _ key bytes k.1 right)

    pub create-Advances :
        (key : String) (s : S) → Advances v c x s (b.create_multipart_upload key s).1
    create-Advances key s =
        let k = law.create_keeps key s in
        fading s _ (law.create_issued key s) k.0 (λ h. k.1 x.key ∙ h)

    pub list-Advances :
        (key upload : String) (s : S) → Advances v c x s (b.list_parts key upload s).1
    list-Advances key upload s =
        let k = law.list_keeps key upload s in
        fading s _ (law.list_issued key upload s) k.0 (λ h. k.1 x.key ∙ h)

    pub complete-Advances :
        (key upload : String) (ps : List UploadedPart) (s : S)
        → Rising 0 ps
        → (key ≡ x.key → assembled (v.part s key upload) ps ≡ x.bytes)
        → Advances v c x s (b.complete_multipart_upload key upload ps s).1
    complete-Advances key upload ps s rising right =
        let k = law.complete_keeps key upload ps s rising in
        fading s _ (law.complete_issued key upload ps s) k.0 (Uploaded-write s _ key _ k.1 right)

    -- A part may be sent to a session of the blob only where it is the chunk of its number.
    module _ (key upload : String) (n : ℕ) (bytes : Bytes) (s : S)
        (right : key ≡ x.key
          → (v.issued s x.key upload ≡ true)
            × (1 ≤ n)
            × (n ≤ total_parts c (length x.bytes))
            × (bytes ≡ chunk c n x.bytes)) where
      abbrev t : S
      t = (b.upload_part key upload n bytes s).1

      -- A part of the key was there before, or it is the one that was sent.
      abbrev Before : String → ℕ → Bytes → Type 0
      Before u m d =
          (v.part s x.key u m ≡ some d)
          ⊎ ((v.issued s x.key u ≡ true)
              × (1 ≤ m)
              × (m ≤ total_parts c (length x.bytes))
              × (d ≡ chunk c m x.bytes))

      before : (u : String) (m : ℕ) (d : Bytes) → v.part t x.key u m ≡ some d → Before u m d
      before u m d h = go (law.upload_parts key upload n bytes s x.key u m)
        where
          go :
              (v.part t x.key u m ≡ v.part s x.key u m)
                ⊎ ((x.key ≡ key) × (u ≡ upload) × (m ≡ n) × (v.part t x.key u m ≡ some bytes))
              → Before u m d
          go (inl same) = inl (sym same ∙ h)
          go (inr (k, w, e, new)) =
              let r = right (sym k) in
              let same : d ≡ bytes = ground (arith, h, new) in
              inr (rw (w, e) (r.0, r.1, r.2, same ∙ r.3))

      pub upload-Advances : Advances v c x s t
      upload-Advances = (
        λ u old. (
          law.upload_issued key upload n bytes s x.key u old.0,
          λ m d h. in_session u old.1 m d (before u m d h),
        ),
        λ h. law.upload_objects key upload n bytes s x.key ∙ h,
        λ clean u m d h.
            law.upload_issued key upload n bytes s x.key u
              (was_issued clean u m d (before u m d h)),
      )
        where
          in_session :
              (u : String)
              → Chunked v c x s u
              → (m : ℕ) (d : Bytes) → Before u m d
              → (1 ≤ m) × (m ≤ total_parts c (length x.bytes)) × (d ≡ chunk c m x.bytes)
          in_session u old m d (inl h) = old m d h
          in_session u old m d (inr r) = (r.1, r.2, r.3)

          was_issued :
              Clean v c x s
              → (u : String) (m : ℕ) (d : Bytes) → Before u m d
              → v.issued s x.key u ≡ true
          was_issued clean u m d (inl h) = clean u m d h
          was_issued clean u m d (inr r) = r.0
