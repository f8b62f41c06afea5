-- ===== src/Hlc/Order.antt =====
-- src/hlc.rs, `cmp` and the byte order of what `fmt` prints.
use squirreld.Prelude.{
  ℕ, ◌<◌, ◌^◌, compare, List, [], ◌∷◌, ◌++◌, Text, All, length, ◌≡◌, refl, sym, ◌∙◌, ap, arith,
  then_cmp, cmp_text,
}
use squirreld.Hex.{hex_encode, hex_padded}
use squirreld.Hex.Digits.{cmp_text-hex_padded}
use squirreld.Hlc.{Hlc, IsHlc, cmp, fmt}

-- A dash in both texts decides nothing.
cmp_dash : (xs ys : Text) → cmp_text (45 ∷ xs) (45 ∷ ys) ≡ cmp_text xs ys
unfolding cmp_text
cmp_dash xs ys = refl

-- Two byte arrays of one length compare as their hexadecimal texts.
cmp_text-hex_encode :
    (xs ys : List ℕ)
    → length xs ≡ length ys
    → All (λ b. b < 256) xs
    → All (λ b. b < 256) ys
    → cmp_text (hex_encode xs) (hex_encode ys) ≡ cmp_text xs ys
unfolding hex_encode
cmp_text-hex_encode [] [] e hx hy = refl
cmp_text-hex_encode [] (y ∷ ys) e hx hy = absurd (omega arith)
cmp_text-hex_encode (x ∷ xs) [] e hx hy = absurd (omega arith)
cmp_text-hex_encode (x ∷ xs) (y ∷ ys) e hx hy =
    cmp_text-hex_padded 2 x y (hex_encode xs) (hex_encode ys) (omega arith) hx.0 hy.0
    ∙ ap (then_cmp (compare x y)) (cmp_text-hex_encode xs ys (omega arith) hx.1 hy.1)
    ∙ cmp_cons x y xs ys
  where
    cmp_cons :
        (x y : ℕ) (xs ys : List ℕ)
        → then_cmp (compare x y) (cmp_text xs ys) ≡ cmp_text (x ∷ xs) (y ∷ ys)
    cmp_cons x y xs ys = unfold cmp_text in refl

abbrev pub FitsWidth : Hlc → Type 0
FitsWidth h = h.physical_ms < 16 ^ 13

-- For clocks in range and below 16^13 milliseconds, comparing the printed strings is comparing the
-- clocks.
pub cmp_text-fmt :
    (a b : Hlc) → IsHlc a → IsHlc b → FitsWidth a → FitsWidth b → cmp_text (fmt a) (fmt b) ≡ cmp a b
unfolding fmt cmp
cmp_text-fmt a b va vb fa fb =
    cmp_text-hex_padded 13 a.physical_ms b.physical_ms _ _ (omega arith) fa fb
    ∙ ap (then_cmp (compare a.physical_ms b.physical_ms)) (logical_part a b va vb)
  where
    logical_part :
        (a b : Hlc)
        → IsHlc a
        → IsHlc b
        → cmp_text
            (45 ∷ (hex_padded 4 a.logical ++ (45 ∷ hex_encode a.node_id)))
            (45 ∷ (hex_padded 4 b.logical ++ (45 ∷ hex_encode b.node_id)))
          ≡ then_cmp (compare a.logical b.logical) (cmp_text a.node_id b.node_id)
    logical_part a b va vb =
        cmp_dash _ _
        ∙ cmp_text-hex_padded 4 a.logical b.logical _ _ (omega arith) va.logical_u16 vb.logical_u16
        ∙ ap (then_cmp (compare a.logical b.logical)) (
            cmp_dash _ _
            ∙ cmp_text-hex_encode _ _ (va.node_len ∙ sym vb.node_len) va.node_u8 vb.node_u8)
