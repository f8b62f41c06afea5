-- ===== src/Hex/RoundTrip.antt =====
-- src/hlc.rs, `hex_encode` and `hex_decode`, and the numbers that `from_str_radix` reads.
use squirreld.Prelude.{
  ℕ, zero, suc, ◌+◌, ◌*◌, ◌/◌, ◌%◌, ◌^◌, ◌≤◌, ◌<◌, List, [], ◌∷◌, ◌++◌, Text, ◌≡◌, refl, ap, ◌∙◌,
  some, arith, Option-cases, inl, inr, max, All, All-append, length, true,
}
use squirreld.Hex.{
  digit, hex_fixed, hex_width, hex_padded, to_digit, add_digit, parse_digits, from_str_radix,
  hex_encode, is_continuation, starts_char, bytes, hex_decode_pairs, hex_decode,
}
use squirreld.Hex.Digits.{pow16, length-hex_fixed, lt-pow_hex_width, hex_padded-eq-fixed}

-- A lower-case digit is no `+`, no `-`, and one byte.
abbrev pub IsPlain : ℕ → Type 0
IsPlain c = (48 ≤ c) × (c < 103)

digit-IsPlain : (d : ℕ) → d < 16 → IsPlain (digit d)
unfolding digit
digit-IsPlain d h = ground arith

hex_fixed-IsPlain : (w n : ℕ) → All IsPlain (hex_fixed w n)
unfolding hex_fixed
hex_fixed-IsPlain zero n = tt
hex_fixed-IsPlain (suc w) n =
    All-append IsPlain _ _ (hex_fixed-IsPlain w (n / 16)) (digit-IsPlain (n % 16) (omega arith), tt)

pub hex_padded-IsPlain : (w n : ℕ) → All IsPlain (hex_padded w n)
unfolding hex_padded
hex_padded-IsPlain w n = hex_fixed-IsPlain _ n

abbrev pub IsByte : ℕ → Type 0
IsByte b = b < 256

pow16_mono : (v w n : ℕ) → v ≤ w → n < 16 ^ v → n < 16 ^ w
pow16_mono zero zero n h hn = hn
pow16_mono zero (suc w) n h hn = omega (arith, pow16 w, pow16_mono zero w n (omega arith) hn)
pow16_mono (suc v) zero n h hn = absurd (omega arith)
pow16_mono (suc v) (suc w) n h hn =
    omega (arith, pow16 w, pow16 v, pow16_mono v w (n / 16) (omega arith) (omega (arith, pow16 v)))

pow_max : (w v n : ℕ) → n < 16 ^ v → n < 16 ^ max w v
pow_max w v n h = pow16_mono v (max w v) n (omega arith) h

add_digit_lem :
    (limit acc d : ℕ)
    → d < 16
    → acc * 16 + d < limit
    → add_digit limit acc (digit d) ≡ some (acc * 16 + d)
unfolding add_digit to_digit digit
add_digit_lem limit acc d hd hl = ground arith

parse_digits-append :
    (limit acc : ℕ) (xs ys : Text) (a : ℕ)
    → parse_digits limit acc xs ≡ some a
    → parse_digits limit acc (xs ++ ys) ≡ parse_digits limit a ys
unfolding parse_digits
parse_digits-append limit acc [] ys a h = ground arith
parse_digits-append limit acc (x ∷ xs) ys a h = elim (Option-cases (add_digit limit acc x)) [
  | inl e ↦ ground arith
  | inr (b, e) ↦ ground (arith, parse_digits-append limit b xs ys a)
]

parse_digits_last :
    (limit acc d : ℕ)
    → d < 16
    → acc * 16 + d < limit
    → parse_digits limit acc (digit d ∷ []) ≡ some (acc * 16 + d)
unfolding parse_digits
parse_digits_last limit acc d hd hl = rw (add_digit_lem limit acc d hd hl, parse_digits)

pub parse_digits-hex_fixed :
    (limit w n : ℕ) → n < 16 ^ w → n < limit → parse_digits limit 0 (hex_fixed w n) ≡ some n
unfolding hex_fixed
parse_digits-hex_fixed limit zero n h hl = unfold parse_digits in ground arith
parse_digits-hex_fixed limit (suc w) n h hl =
    parse_digits-append limit 0 (hex_fixed w (n / 16)) (digit (n % 16) ∷ []) (n / 16)
      (parse_digits-hex_fixed limit w (n / 16) (omega (arith, pow16 w)) (omega arith))
    ∙ parse_digits_last limit (n / 16) (n % 16) (omega arith) (omega arith)
    ∙ ap some (omega arith)

from_str_radix-plain :
    (limit : ℕ) (s : Text)
    → 0 < length s
    → All IsPlain s
    → from_str_radix limit s ≡ parse_digits limit 0 s
unfolding from_str_radix
from_str_radix-plain limit [] h p = absurd (omega arith)
from_str_radix-plain limit (c ∷ []) h p = refl
from_str_radix-plain limit (c ∷ d ∷ cs) h p = ground arith

-- What `{:0wx}` prints of a u64 reads back.
pub from_str_radix-hex_padded :
    (limit w n : ℕ)
    → 0 < w
    → n < 16 ^ 16
    → n < limit
    → from_str_radix limit (hex_padded w n) ≡ some n
unfolding hex_padded
from_str_radix-hex_padded limit w n h hn hl =
    from_str_radix-plain limit _ (rw length-hex_fixed (omega arith)) (hex_fixed-IsPlain _ n)
    ∙ parse_digits-hex_fixed limit _ n (pow_max w (hex_width 16 n) n (lt-pow_hex_width 16 n hn)) hl

pub hex_encode-IsPlain : (bs : List ℕ) → All IsPlain (hex_encode bs)
unfolding hex_encode
hex_encode-IsPlain [] = tt
hex_encode-IsPlain (b ∷ bs) =
    All-append IsPlain _ _ (hex_padded-IsPlain 2 b) (hex_encode-IsPlain bs)

byte_digits : (b : ℕ) → b < 256 → hex_padded 2 b ≡ digit (b / 16 % 16) ∷ digit (b % 16) ∷ []
byte_digits b h = hex_padded-eq-fixed 2 b (omega arith) h ∙ unfold hex_fixed in refl

pub length-hex_encode : (bs : List ℕ) → All IsByte bs → length (hex_encode bs) ≡ 2 * length bs
unfolding hex_encode
length-hex_encode [] h = refl
length-hex_encode (b ∷ bs) h = rw (byte_digits b h.0) (omega (arith, length-hex_encode bs h.1))

starts_char-plain : (s : Text) → All IsPlain s → starts_char s ≡ true
unfolding starts_char is_continuation
starts_char-plain [] h = refl
starts_char-plain (c ∷ cs) h = ground arith

decode_byte :
    (b : ℕ) (rest : Text) (bs : List ℕ)
    → b < 256
    → All IsPlain rest
    → hex_decode_pairs rest ≡ bytes bs
    → hex_decode_pairs (hex_padded 2 b ++ rest) ≡ bytes (b ∷ bs)
unfolding hex_decode_pairs
decode_byte b rest bs hb plain h =
    let read = from_str_radix-hex_padded 256 2 b (omega arith) (omega arith) hb in
    rw (byte_digits b hb)
      (ground (arith, rw (byte_digits b hb) at read, starts_char-plain rest plain))

hex_decode_pairs-hex_encode :
    (bs : List ℕ) → All IsByte bs → hex_decode_pairs (hex_encode bs) ≡ bytes bs
unfolding hex_encode
hex_decode_pairs-hex_encode [] h = unfold hex_decode_pairs in refl
hex_decode_pairs-hex_encode (b ∷ bs) h =
    decode_byte b (hex_encode bs) bs h.0 (hex_encode-IsPlain bs)
      (hex_decode_pairs-hex_encode bs h.1)

-- For bytes, `hex_decode` gives back what `hex_encode` was given.
pub hex_decode-hex_encode : (bs : List ℕ) → All IsByte bs → hex_decode (hex_encode bs) ≡ bytes bs
unfolding hex_decode
hex_decode-hex_encode bs h =
    rw (length-hex_encode bs h) (ground (arith, hex_decode_pairs-hex_encode bs h))
