-- ===== src/Backend/InMemoryBlobs/Contract.antt =====
-- src/backend/in_memory.rs: the blob half as the store that the blob worker relies on.
use squirreld.Prelude.{
  ℕ, zero, suc, ◌≤◌, String, List, [], ◌∷◌, ◌≡◌, ◌⊎◌, inl, inr, refl, sym, ap, ◌∙◌, arith, Bool,
  false, ◌&&◌, ◌||◌, Bool-cases, none, some, if◌then◌else◌, str_eq, eq_iff, ltb, ◌==◌,
}
use squirreld.Types.{Bytes}
use squirreld.Backend.Blobs.{
  Answer, UploadedPart, Shown, IsBlobBackend, Writes, PartsFade, has_part, Rising, has_part-Rising,
  Distinct, joined, assembled, is_there,
}
use squirreld.Backend.InMemoryBlobs.{
  PendingPart, Session, InMemoryBlobStore, object_at, remove_object, insert_object, is_session,
  parts_of, remove_session, part_at, insert_pending, insert_listed, listed_parts, insert_sorted,
  sort_by_number, concatenated, put_object, create_multipart_upload, upload_part, list_parts,
  complete_multipart_upload, in_memory_blobs,
}
use squirreld.Prelude.Decimals.{to_string, to_string_injective}

unfoldable pub given : ℕ → String → Bool
given zero upload = false
given (suc m) upload = str_eq (to_string m) upload || given m upload

-- The store gives the numbers below the next one.
abbrev pub in_memory_shown : Shown InMemoryBlobStore
in_memory_shown = record {
  part = λ s key upload n. part_at n (parts_of key upload s.pending_parts);
  object = λ s key. object_at key s.objects;
  issued = λ s key upload. given s.next_upload_id upload;
}

given_not_yet : (m n : ℕ) → m ≤ n → given m (to_string n) ≡ false
unfolding given
given_not_yet zero n h = refl
given_not_yet (suc m) n h = ground (
  arith,
  given_not_yet m n (omega (arith, h)),
  eq_iff (to_string m) (to_string n),
  to_string_injective m n,
  h,
)

object_at-remove_object :
    (key k : String) (os : List (String × Bytes))
    → object_at k (remove_object key os) ≡ (if str_eq key k then none else object_at k os)
unfolding object_at remove_object
object_at-remove_object key k [] = ground arith
object_at-remove_object key k ((i, bytes) ∷ rest) =
    ground (arith, eq_iff i key, eq_iff i k, eq_iff key k, object_at-remove_object key k rest)

pub object_at-insert_object :
    (key k : String) (bytes : Bytes) (os : List (String × Bytes))
    → object_at k (insert_object key bytes os)
      ≡ (if str_eq key k then some bytes else object_at k os)
unfolding object_at
object_at-insert_object key k bytes os = ground (arith, object_at-remove_object key k os)

Writes-insert_object :
    (key : String) (bytes : Bytes) (s t : InMemoryBlobStore)
    → t.objects ≡ insert_object key bytes s.objects
    → Writes in_memory_shown key bytes s t
Writes-insert_object key bytes s t e = (
  λ k ne. ground (arith, e, ne, eq_iff key k, object_at-insert_object key k bytes s.objects),
  inr (ground (arith, e, eq_iff key key, object_at-insert_object key key bytes s.objects)),
)

parts_of-remove_session :
    (key upload k u : String) (ss : List Session)
    → parts_of k u (remove_session key upload ss)
      ≡ (if str_eq key k && str_eq upload u then [] else parts_of k u ss)
unfolding parts_of remove_session is_session
parts_of-remove_session key upload k u [] = ground arith
parts_of-remove_session key upload k u (s ∷ ss) = ground (
  arith,
  eq_iff s.key key,
  eq_iff s.key k,
  eq_iff key k,
  eq_iff s.upload_id upload,
  eq_iff s.upload_id u,
  eq_iff upload u,
  parts_of-remove_session key upload k u ss,
)

parts_of-insert_pending :
    (key upload k u : String) (p : PendingPart) (ss : List Session)
    → parts_of k u (insert_pending key upload p ss)
      ≡ (if str_eq key k && str_eq upload u then p ∷ parts_of key upload ss else parts_of k u ss)
unfolding parts_of insert_pending is_session
parts_of-insert_pending key upload k u p ss =
    ground (arith, parts_of-remove_session key upload k u ss)

has_part-insert_listed :
    (n : ℕ) (p : UploadedPart) (ps : List UploadedPart)
    → has_part n (insert_listed p ps) ≡ (p.part_number == n || has_part n ps)
unfolding has_part insert_listed
has_part-insert_listed n p [] = refl
has_part-insert_listed n p (q ∷ qs) = ground (arith, has_part-insert_listed n p qs)

has_part-listed_parts :
    (n : ℕ) (ps : List PendingPart) → has_part n (listed_parts ps) ≡ is_there (part_at n ps)
unfolding has_part listed_parts part_at
has_part-listed_parts n [] = refl
has_part-listed_parts n (p ∷ ps) = ground (
  arith,
  has_part-insert_listed n (record { part_number = p.part_number; etag = p.etag })
      (listed_parts ps),
  has_part-listed_parts n ps,
)

insert_listed-Rising :
    (low : ℕ) (p : UploadedPart) (ps : List UploadedPart)
    → low ≤ p.part_number
    → Rising low ps
    → Rising low (insert_listed p ps)
unfolding insert_listed
insert_listed-Rising low p [] h r = (h, tt)
insert_listed-Rising low p (q ∷ qs) h r = elim (Bool-cases (ltb p.part_number q.part_number)) [
  | inl lt ↦ rw lt (h, (ground arith, r.1))
  | inr ge ↦ rw ge (elim (Bool-cases (p.part_number == q.part_number)) [
    | inl same ↦ rw same (h, let e : p.part_number ≡ q.part_number = ground arith in rw e (r.1))
    | inr gt ↦ rw gt (r.0, insert_listed-Rising (suc q.part_number) p qs (ground arith) r.1)
  ])
]

listed_parts-Rising : (ps : List PendingPart) → Rising 0 (listed_parts ps)
unfolding listed_parts
listed_parts-Rising [] = tt
listed_parts-Rising (p ∷ ps) =
    insert_listed-Rising 0 _ (listed_parts ps) (omega arith) (listed_parts-Rising ps)

insert_sorted-front :
    (p : UploadedPart) (ps : List UploadedPart)
    → Rising (suc p.part_number) ps
    → insert_sorted p ps ≡ p ∷ ps
unfolding insert_sorted
insert_sorted-front p [] r = refl
insert_sorted-front p (q ∷ qs) r = ground (arith, r.0)

sort_by_number-Rising : (low : ℕ) (ps : List UploadedPart) → Rising low ps → sort_by_number ps ≡ ps
unfolding sort_by_number
sort_by_number-Rising low [] r = refl
sort_by_number-Rising low (p ∷ ps) r =
    rw (sort_by_number-Rising (suc p.part_number) ps r.1) (insert_sorted-front p ps r.1)

concatenated-assembled :
    (pending : List PendingPart) (ps : List UploadedPart)
    → concatenated pending ps ≡ assembled (λ n. part_at n pending) ps
unfolding concatenated assembled
concatenated-assembled pending [] = refl
concatenated-assembled pending (p ∷ ps) =
    ap (joined (part_at p.part_number pending)) (concatenated-assembled pending ps)

Rising-Distinct : (low : ℕ) (ps : List UploadedPart) → Rising low ps → Distinct ps
Rising-Distinct low [] r = tt
Rising-Distinct low (p ∷ ps) r = (
  has_part-Rising p.part_number (suc p.part_number) ps r.1 (omega arith),
  Rising-Distinct (suc p.part_number) ps r.1,
)

PartsFade-remove_session :
    (key upload : String) (s t : InMemoryBlobStore)
    → t.pending_parts ≡ remove_session key upload s.pending_parts
    → PartsFade in_memory_shown s t
unfolding part_at
PartsFade-remove_session key upload s t e k u n =
    ground (arith, e, parts_of-remove_session key upload k u s.pending_parts)

after_upload :
    (key upload : String) (n : ℕ) (p : PendingPart) (k u : String) (m : ℕ) (ss : List Session)
    → p.part_number ≡ n
    → (part_at m (parts_of k u (insert_pending key upload p ss)) ≡ part_at m (parts_of k u ss))
      ⊎ ((k ≡ key)
          × (u ≡ upload)
          × (m ≡ n)
          × (part_at m (parts_of k u (insert_pending key upload p ss)) ≡ some p.bytes))
unfolding part_at
after_upload key upload n p k u m ss e =
    ground (arith, e, eq_iff key k, eq_iff upload u, parts_of-insert_pending key upload k u p ss)

uploaded_part :
    (key upload : String) (p : PendingPart) (ss : List Session)
    → part_at p.part_number (parts_of key upload (insert_pending key upload p ss)) ≡ some p.bytes
unfolding part_at
uploaded_part key upload p ss = ground (
  arith,
  eq_iff key key,
  eq_iff upload upload,
  parts_of-insert_pending key upload key upload p ss,
)

completed :
    (pending : List PendingPart) (ps : List UploadedPart)
    → Rising 0 ps
    → concatenated pending (sort_by_number ps) ≡ assembled (λ n. part_at n pending) ps
completed pending ps rising =
    ap (concatenated pending) (sort_by_number-Rising 0 ps rising)
    ∙ concatenated-assembled pending ps

module _ {F : Type 0} (write : String → Bytes → F → Answer String (Unit {0}) × F) (i : String) where
  -- The in-memory store is such a store, whatever its state.
  pub in_memory-IsBlobBackend : IsBlobBackend (in_memory_blobs write i) in_memory_shown
  unfolding put_object create_multipart_upload upload_part list_parts complete_multipart_upload
      given
  in_memory-IsBlobBackend = record {
    put_keeps = λ key bytes s.
        (λ k u n. inl refl, Writes-insert_object key bytes s (put_object key bytes s).1 refl);
    put_stores = λ key bytes s e.
        ground (arith, eq_iff key key, object_at-insert_object key key bytes s.objects);
    create_keeps = λ key s. (λ k u n. inl refl, λ other. refl);
    create_new = λ key upload s e. ground (
      arith,
      e,
      given_not_yet s.next_upload_id s.next_upload_id,
      eq_iff (to_string s.next_upload_id) upload,
    );
    put_issued = λ key bytes s k u h. h;
    create_issued = λ key s k u h. ground (arith, h);
    upload_issued = λ key upload n bytes s k u h. h;
    list_issued = λ key upload s k u h. h;
    complete_issued = λ key upload ps s k u h. h;
    upload_objects = λ key upload n bytes s other. refl;
    upload_parts =
        λ key upload n bytes s k u m. after_upload key upload n _ k u m s.pending_parts refl;
    upload_stores = λ key upload etag n bytes s e. uploaded_part key upload _ s.pending_parts;
    list_keeps = λ key upload s. (λ k u n. inl refl, λ other. refl);
    list_distinct = λ key upload ps s e.
        let pending = parts_of key upload s.pending_parts in
        let q : listed_parts pending ≡ ps = ground (arith, e) in
        rw (sym q) (Rising-Distinct 0 (listed_parts pending) (listed_parts-Rising pending));
    list_lists = λ key upload ps s e n h.
        let pending = parts_of key upload s.pending_parts in
        let q : listed_parts pending ≡ ps = ground (arith, e) in
        sym (has_part-listed_parts n pending) ∙ (ap (has_part n) q ∙ h);
    complete_keeps = λ key upload ps s rising.
        let t = (complete_multipart_upload key upload ps s).1 in
        (
          PartsFade-remove_session key upload s t refl,
          Writes-insert_object key _ s t (
              ap (λ b. insert_object key b s.objects)
                (completed (parts_of key upload s.pending_parts) ps rising)),
        );
    complete_stores = λ key upload ps s rising e.
        let pending = parts_of key upload s.pending_parts in
        rw (completed pending ps rising) (
          ground (
            arith,
            eq_iff key key,
            object_at-insert_object key key (assembled (λ n. part_at n pending) ps) s.objects,
          ));
  }
