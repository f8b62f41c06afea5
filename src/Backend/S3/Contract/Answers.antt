-- ===== src/Backend/S3/Contract/Answers.antt =====
-- src/backend/s3.rs: how the answers of the client are passed on.
use squirreld.Prelude.{
  ℕ, String, List, [], ◌∷◌, ◌≡◌, ◌⊎◌, refl, arith, Bool, false, ◌||◌, ◌==◌, Option, none, some,
  Bool-cases, inl, inr, length, contains,
}
use squirreld.Types.{Bytes}
use squirreld.Backend.Blobs.{Answer, accepted, refused, UploadedPart, has_part, Distinct}
use squirreld.Backend.S3.{
  Part, or_transient, or_missing, or_zero, cons_part, uploaded_parts, listed, counted, saved,
}

abbrev pub numbered : ℕ → List Part → Bool
numbered n [] = false
numbered n (p ∷ ps) = or_zero p.part_number == n || numbered n ps

-- No two parts have the same number.
abbrev pub Once : List Part → Type 0
Once [] = Unit
Once (p ∷ ps) = (numbered (or_zero p.part_number) ps ≡ false) × Once ps

pub has_part-uploaded_parts :
    (n : ℕ) (ps : List Part) → numbered n ps ≡ false → has_part n (uploaded_parts ps) ≡ false
unfolding uploaded_parts has_part
has_part-uploaded_parts n [] h = refl
has_part-uploaded_parts n (p ∷ ps) h = go p.e_tag (has_part-uploaded_parts n ps (ground (arith, h)))
  where
    go :
        (o : Option String)
        → has_part n (uploaded_parts ps) ≡ false
        → has_part n (cons_part p o (uploaded_parts ps)) ≡ false
    go none ih = ih
    go (some etag) ih = ground (arith, ih, h)

pub uploaded_parts-Distinct : (ps : List Part) → Once ps → Distinct (uploaded_parts ps)
unfolding uploaded_parts
uploaded_parts-Distinct [] h = tt
uploaded_parts-Distinct (p ∷ ps) h =
    go p.e_tag (uploaded_parts-Distinct ps h.1)
      (has_part-uploaded_parts (or_zero p.part_number) ps h.0)
  where
    go :
        (o : Option String)
        → Distinct (uploaded_parts ps)
        → has_part (or_zero p.part_number) (uploaded_parts ps) ≡ false
        → Distinct (cons_part p o (uploaded_parts ps))
    go none d new = d
    go (some etag) d new = (new, d)

pub or_transient-state : {S A : Type 0} (r : Answer String A × S) → (or_transient r).1 ≡ r.1
or_transient-state (accepted a, s) = refl
or_transient-state (refused e, s) = refl

pub or_transient-ok :
    {S A : Type 0} (r : Answer String A × S) (a : A)
    → (or_transient r).0 ≡ accepted a
    → r.0 ≡ accepted a
or_transient-ok (accepted b, s) a h = cc
or_transient-ok (refused e, s) a h = absurd (cc)

pub or_missing-state :
    {S : Type 0} (missing : String) (r : Answer String (Option String) × S)
    → (or_missing missing r).1 ≡ r.1
or_missing-state missing (accepted none, s) = refl
or_missing-state missing (accepted (some a), s) = refl
or_missing-state missing (refused e, s) = refl

pub or_missing-ok :
    {S : Type 0} (missing : String) (r : Answer String (Option String) × S) (a : String)
    → (or_missing missing r).0 ≡ accepted a
    → r.0 ≡ accepted (some a)
or_missing-ok missing (accepted none, s) a h = absurd (cc)
or_missing-ok missing (accepted (some b), s) a h = cc
or_missing-ok missing (refused e, s) a h = absurd (cc)

pub listed-state : {S : Type 0} (r : Answer String (List Part) × S) → (listed r).1 ≡ r.1
unfolding listed
listed-state (accepted ps, s) = refl
listed-state (refused e, s) = refl

-- What is listed is either no part or what S3 lists.
pub listed-ok :
    {S : Type 0} (r : Answer String (List Part) × S) (ps : List UploadedPart)
    → (listed r).0 ≡ accepted ps
    → (ps ≡ []) ⊎ ((out : List Part) × (r.0 ≡ accepted out) × (ps ≡ uploaded_parts out))
unfolding listed
listed-ok (accepted out, s) ps h = inr (out, refl, cc)
listed-ok (refused e, s) ps h = elim (Bool-cases (contains e "NoSuchUpload")) [
  | inl gone ↦ inl (ground (arith, gone, h))
  | inr other ↦ absurd (ground (arith, other, h))
]

pub counted-ok :
    {F : Type 0} (m n : ℕ) (r : Answer String (Unit {0}) × F)
    → (counted m r).0 ≡ accepted n
    → (r.0 ≡ accepted tt) × ((counted m r).1 ≡ r.1) × (n ≡ m)
counted-ok m n (accepted u, f) h = (refl, refl, cc)
counted-ok m n (refused e, f) h = absurd (cc)

-- A number that is given is the length of a body that was written.
pub saved-ok :
    {F : Type 0} (write : String → Bytes → F → Answer String (Unit {0}) × F)
    (content : F → String → Option Bytes)
    → ((p : String) (bytes : Bytes) (f : F)
        → (write p bytes f).0 ≡ accepted tt
        → content (write p bytes f).1 p ≡ some bytes)
    → (dest : String) (body : Answer String (Answer String Bytes)) (f : F) (n : ℕ)
    → (saved write dest body f).0 ≡ accepted n
    → (bytes : Bytes) × (body ≡ accepted (accepted bytes))
      × (content (saved write dest body f).1 dest ≡ some bytes)
      × (n ≡ length bytes)
unfolding saved
saved-ok write content writes dest (accepted (accepted bytes)) f n h =
    let (done, same, counts) = counted-ok (length bytes) n (write dest bytes f) h in
    (bytes, refl, rw same (writes dest bytes f done), counts)
saved-ok write content writes dest (accepted (refused e)) f n h = absurd (cc)
saved-ok write content writes dest (refused e) f n h = absurd (cc)
