-- ===== src/Hex/Digits.antt =====
-- The digits that `{:0wx}` prints.
use squirreld.Prelude.{
  ℕ, zero, suc, ◌*◌, ◌/◌, ◌%◌, ◌^◌, ◌≤◌, ◌<◌, compare, Ordering, [], ◌∷◌, ◌++◌, Text, ◌≡◌, refl, ap,
  ◌∙◌, arith, length, length-append, then_cmp, cmp_text,
}
use mathlib.Core.List.{append_assoc}
use native.Mathlib.Nat.{pow-suc}
use squirreld.Hex.{digit, hex_fixed, hex_width, hex_padded}

pub pow16 : (w : ℕ) → 16 ^ suc w ≡ 16 * 16 ^ w
pow16 w = simp pow-suc (omega arith)

pub length-hex_fixed : (w n : ℕ) → length (hex_fixed w n) ≡ w
unfolding hex_fixed
length-hex_fixed zero n = omega arith
length-hex_fixed (suc w) n =
    omega (
      arith,
      length-append (hex_fixed w (n / 16)) (digit (n % 16) ∷ []),
      length-hex_fixed w (n / 16),
    )

-- Digits compare as the numbers that they stand for.
cmp_digit : (m n : ℕ) → m < 16 → n < 16 → compare (digit m) (digit n) ≡ compare m n
unfolding digit
cmp_digit m n hm hn = ground arith

cmp_split :
    (m n : ℕ) → then_cmp (compare (m / 16) (n / 16)) (compare (m % 16) (n % 16)) ≡ compare m n
cmp_split m n = ground arith

last_digit :
    (xs ys : Text) (m n : ℕ)
    → cmp_text ((digit (m % 16) ∷ []) ++ xs) ((digit (n % 16) ∷ []) ++ ys)
      ≡ then_cmp (compare (m % 16) (n % 16)) (cmp_text xs ys)
unfolding cmp_text
last_digit xs ys m n = rw (cmp_digit (m % 16) (n % 16) (omega arith) (omega arith))

then_cmp_assoc : (a b c : Ordering) → then_cmp a (then_cmp b c) ≡ then_cmp (then_cmp a b) c
then_cmp_assoc Ordering.lt b c = refl
then_cmp_assoc Ordering.eq b c = refl
then_cmp_assoc Ordering.gt b c = refl

-- Of two texts that begin with `w` digits of numbers below 16 ^ w, the numbers decide, then the rest.
pub cmp_text-hex_fixed :
    (w m n : ℕ) (xs ys : Text)
    → m < 16 ^ w
    → n < 16 ^ w
    → cmp_text (hex_fixed w m ++ xs) (hex_fixed w n ++ ys) ≡ then_cmp (compare m n) (cmp_text xs ys)
unfolding hex_fixed
cmp_text-hex_fixed zero m n xs ys hm hn = ground arith
cmp_text-hex_fixed (suc w) m n xs ys hm hn =
    rw (append_assoc, append_assoc)
      (cmp_text-hex_fixed w (m / 16) (n / 16) _ _ (omega (arith, pow16 w)) (omega (arith, pow16 w))
        ∙ ap (then_cmp (compare (m / 16) (n / 16))) (last_digit xs ys m n)
        ∙ then_cmp_assoc (compare (m / 16) (n / 16)) (compare (m % 16) (n % 16)) (cmp_text xs ys)
        ∙ ap (λ o. then_cmp o (cmp_text xs ys)) (cmp_split m n))

hex_width-le : (fuel w n : ℕ) → 0 < w → n < 16 ^ w → hex_width fuel n ≤ w
unfolding hex_width
hex_width-le zero w n h hn = omega arith
hex_width-le (suc fuel) zero n h hn = absurd (omega arith)
hex_width-le (suc fuel) (suc zero) n h hn = ground arith
hex_width-le (suc fuel) (suc (suc w)) n h hn =
    ground (arith, pow16 (suc w), hex_width-le fuel (suc w) (n / 16))

-- The width is enough for every number of `fuel` digits.
pub lt-pow_hex_width : (fuel n : ℕ) → n < 16 ^ fuel → n < 16 ^ hex_width fuel n
unfolding hex_width
lt-pow_hex_width zero n h = h
lt-pow_hex_width (suc fuel) n h =
    ground (arith, pow16 fuel, pow16 (hex_width fuel (n / 16)), lt-pow_hex_width fuel (n / 16))

-- A number of at most `w` digits is printed with `w` digits.
pub hex_padded-eq-fixed : (w n : ℕ) → 0 < w → n < 16 ^ w → hex_padded w n ≡ hex_fixed w n
unfolding hex_padded
hex_padded-eq-fixed w n h hn = ap (λ k. hex_fixed k n) (omega (arith, hex_width-le 16 w n h hn))

pub cmp_text-hex_padded :
    (w m n : ℕ) (xs ys : Text)
    → 0 < w
    → m < 16 ^ w
    → n < 16 ^ w
    → cmp_text (hex_padded w m ++ xs) (hex_padded w n ++ ys)
      ≡ then_cmp (compare m n) (cmp_text xs ys)
cmp_text-hex_padded w m n xs ys h hm hn =
    rw (hex_padded-eq-fixed w m h hm, hex_padded-eq-fixed w n h hn)
      (cmp_text-hex_fixed w m n xs ys hm hn)
