-- ===== src/Blob/Chunks.antt =====
-- src/blob/worker.rs: the chunks of a file and the numbers of its parts.
use squirreld.Prelude.{
  ℕ, zero, suc, ◌+◌, ◌-◌, ◌*◌, ◌/◌, ◌%◌, ◌^◌, ◌≤◌, ◌<◌, min, List, [], ◌∷◌, ◌++◌, ◌≡◌, refl, sym,
  ap, ◌∙◌, inl, inr, arith, false, ◌&&◌, ◌||◌, Bool-cases, Option, some, length, take, drop, ltb,
  leb, ◌==◌,
}
use native.Mathlib.Nat.{mul-le-mul_right, mod-lt, mod-add-div'}
use squirreld.Types.{Bytes}
use squirreld.Backend.Blobs.{UploadedPart, has_part, Rising, has_part-Rising, Distinct, assembled}
use squirreld.Blob.Worker.{insert_part, sort_parts, total_parts}

module _ {A : Type 0} where
  take-append-drop : (n : ℕ) (xs : List A) → take n xs ++ drop n xs ≡ xs
  take-append-drop zero xs = refl
  take-append-drop (suc n) [] = refl
  take-append-drop (suc n) (x ∷ xs) = ap (λ ys. x ∷ ys) (take-append-drop n xs)

  drop-nil : (n : ℕ) → drop {A = A} n [] ≡ []
  drop-nil zero = refl
  drop-nil (suc n) = refl

  drop-drop : (m n : ℕ) (xs : List A) → drop m (drop n xs) ≡ drop (n + m) xs
  drop-drop m zero xs = ground arith
  drop-drop m (suc n) [] = drop-nil m ∙ sym (drop-nil (suc n + m))
  drop-drop m (suc n) (x ∷ xs) =
      let e : suc n + m ≡ suc (n + m) = omega arith in rw e (drop-drop m n xs)

  drop-all : (n : ℕ) (xs : List A) → length xs ≤ n → drop n xs ≡ []
  drop-all zero [] h = refl
  drop-all zero (x ∷ xs) h = absurd (omega (arith, h))
  drop-all (suc n) [] h = refl
  drop-all (suc n) (x ∷ xs) h = drop-all n xs (omega (arith, h))

  take-all : (n : ℕ) (xs : List A) → length xs ≤ n → take n xs ≡ xs
  take-all zero [] h = refl
  take-all zero (x ∷ xs) h = absurd (omega (arith, h))
  take-all (suc n) [] h = refl
  take-all (suc n) (x ∷ xs) h = ap (λ ys. x ∷ ys) (take-all n xs (omega (arith, h)))

  -- Reading no further than the end of the file reads the same.
  pub take-min : (n : ℕ) (xs : List A) → take (min (length xs) n) xs ≡ take n xs
  take-min n xs = elim (Bool-cases (ltb n (length xs))) [
    | inl shorter ↦ ap (λ k. take k xs) (ground arith)
    | inr longer ↦
        ap (λ k. take k xs) (ground arith)
        ∙ (take-all (length xs) xs (omega arith) ∙ sym (take-all n xs (ground arith)))
  ]

-- The chunk of number `n`, from 1.
abbrev pub chunk : ℕ → ℕ → Bytes → Bytes
chunk c n f = take c (drop ((n - 1) * c) f)

-- The chunks up to the last one hold the whole file.
pub total_parts-covers :
    (c : ℕ) (f : Bytes)
    → 0 < c
    → (length f + c - 1) / c < 2 ^ 31
    → length f ≤ total_parts c (length f) * c
unfolding total_parts
total_parts-covers c f pos few =
    let q : ((length f + c - 1) / c) % 2 ^ 32 ≡ (length f + c - 1) / c = omega (arith, few) in
    rw q (
      let e = mod-add-div' (length f + c - 1) c in
      let l = mod-lt (length f + c - 1) pos in ground (arith, few, e, l))

drop-covered : (low T c : ℕ) (f : Bytes) → length f ≤ T * c → T ≤ low → drop (low * c) f ≡ []
drop-covered low T c f covers h = drop-all (low * c) f (omega (arith, covers, mul-le-mul_right c h))

Rising-from_one : (ps : List UploadedPart) → Rising 0 ps → has_part 0 ps ≡ false → Rising 1 ps
unfolding has_part
Rising-from_one [] r h = tt
Rising-from_one (p ∷ ps) r h = (ground (arith, h), r.1)

has_part-insert_part :
    (n : ℕ) (p : UploadedPart) (ps : List UploadedPart)
    → has_part n (insert_part p ps) ≡ (p.part_number == n || has_part n ps)
unfolding has_part insert_part
has_part-insert_part n p [] = refl
has_part-insert_part n p (q ∷ qs) = ground (arith, has_part-insert_part n p qs)

pub has_part-sort_parts :
    (n : ℕ) (ps : List UploadedPart) → has_part n (sort_parts ps) ≡ has_part n ps
unfolding has_part sort_parts
has_part-sort_parts n [] = refl
has_part-sort_parts n (p ∷ ps) =
    ground (arith, has_part-insert_part n p (sort_parts ps), has_part-sort_parts n ps)

pub has_part-append :
    (n : ℕ) (ps qs : List UploadedPart) → has_part n (ps ++ qs) ≡ (has_part n ps || has_part n qs)
unfolding has_part
has_part-append n [] qs = refl
has_part-append n (p ∷ ps) qs = ground (arith, has_part-append n ps qs)

pub Distinct-append :
    (ps : List UploadedPart) (q : UploadedPart)
    → Distinct ps
    → has_part q.part_number ps ≡ false
    → Distinct (ps ++ (q ∷ []))
unfolding has_part
Distinct-append [] q d new = (refl, tt)
Distinct-append (p ∷ ps) q d new = (
  ground (arith, has_part-append p.part_number ps (q ∷ []), d.0, new),
  Distinct-append ps q d.1 (ground (arith, new)),
)

insert_part-Rising :
    (low : ℕ) (p : UploadedPart) (ps : List UploadedPart)
    → low ≤ p.part_number
    → Rising low ps
    → has_part p.part_number ps ≡ false
    → Rising low (insert_part p ps)
unfolding has_part insert_part
insert_part-Rising low p [] h r new = (h, tt)
insert_part-Rising low p (q ∷ qs) h r new = elim (Bool-cases (ltb q.part_number p.part_number)) [
  | inl lt ↦
      rw lt
        (r.0, insert_part-Rising (suc q.part_number) p qs (ground arith) r.1 (ground (arith, new)))
  | inr ge ↦ rw ge (h, (ground (arith, new), r.1))
]

pub sort_parts-Rising : (ps : List UploadedPart) → Distinct ps → Rising 0 (sort_parts ps)
unfolding has_part sort_parts
sort_parts-Rising [] d = tt
sort_parts-Rising (p ∷ ps) d =
    insert_part-Rising 0 p (sort_parts ps) (omega arith) (sort_parts-Rising ps d.1)
      (has_part-sort_parts p.part_number ps ∙ d.0)

step_low : (low c : ℕ) → suc low * c ≡ low * c + c
step_low low c = omega arith

-- The chunk behind the first `low` ones, and the rest of the file.
chunk-rest :
    (low c : ℕ) (f : Bytes) → chunk c (suc low) f ++ drop (suc low * c) f ≡ drop (low * c) f
chunk-rest low c f =
    let e : suc low - 1 ≡ low = omega arith in
    rw (e, step_low low c, sym (drop-drop c (low * c) f)) (take-append-drop c (drop (low * c) f))

-- The first part of a rising list of the parts above `low` has the next number.
first_number :
    (low T : ℕ) (p : UploadedPart) (ps : List UploadedPart)
    → Rising (suc low) (p ∷ ps)
    → ((n : ℕ) → has_part n (p ∷ ps) ≡ (ltb low n && leb n T))
    → (p.part_number ≡ suc low) × (p.part_number ≤ T)
unfolding has_part
first_number low T p ps r all = (
  ground (
    arith,
    r.0,
    all p.part_number,
    all (suc low),
    has_part-Rising (suc low) (suc p.part_number) ps r.1,
  ),
  ground (arith, all p.part_number),
)

rest_numbers :
    (low T n : ℕ) (p : UploadedPart) (ps : List UploadedPart)
    → Rising (suc low) (p ∷ ps)
    → p.part_number ≡ suc low
    → has_part n (p ∷ ps) ≡ (ltb low n && leb n T)
    → has_part n ps ≡ (ltb p.part_number n && leb n T)
unfolding has_part
rest_numbers low T n p ps r e all =
    ground (arith, e, all, has_part-Rising n (suc p.part_number) ps r.1)

module _ (c T : ℕ) (f : Bytes) (covers : length f ≤ T * c) (part : ℕ → Option Bytes)
    (holds : (n : ℕ) → 1 ≤ n → n ≤ T → part n ≡ some (chunk c n f)) where
  assembled_rest :
      (low : ℕ) (ps : List UploadedPart)
      → Rising (suc low) ps
      → ((n : ℕ) → has_part n ps ≡ (ltb low n && leb n T))
      → assembled part ps ≡ drop (low * c) f
  unfolding has_part assembled
  assembled_rest low [] r all = sym (drop-covered low T c f covers (ground (arith, all (suc low))))
  assembled_rest low (p ∷ ps) r all =
      let (e, small) = first_number low T p ps r all in
      let here = holds p.part_number (omega (arith, e)) small in
      let ih = assembled_rest p.part_number ps r.1 (λ n. rest_numbers low T n p ps r e (all n)) in
      rw (here, ih, e) (chunk-rest low c f)

  -- The parts 1 to `T` in any order, sorted, make the file.
  pub assembled-sort_parts :
      (ps : List UploadedPart)
      → Distinct ps
      → ((n : ℕ) → has_part n ps ≡ (leb 1 n && leb n T))
      → assembled part (sort_parts ps) ≡ f
  assembled-sort_parts ps d all =
      let e : 0 * c ≡ 0 = omega arith in
      assembled_rest 0 (sort_parts ps)
        (Rising-from_one (sort_parts ps) (sort_parts-Rising ps d)
          (has_part-sort_parts 0 ps ∙ ground (arith, all 0)))
        (λ n. has_part-sort_parts n ps ∙ (all n ∙ ground arith))
      ∙ ap (λ n. drop n f) e
