-- ===== src/Hex.antt =====
-- Hexadecimal text of src/hlc.rs (and of src/db/config.rs, which repeats the same two functions):
-- the standard library's `{:0wx}` and `from_str_radix(_, 16)`, and the crate's `hex_encode` and
-- `hex_decode`.
pub mod Digits
pub mod RoundTrip
use squirreld.Prelude.{
  ℕ, zero, suc, ◌+◌, ◌-◌, ◌*◌, ◌/◌, ◌%◌, max, List, [], ◌∷◌, ◌++◌, Text, Bool, true, ◌&&◌, not,
  Option, none, some, ltb, leb, ◌==◌, if◌then◌else◌, length,
}

-- A lower-case digit, `0`..`9` and `a`..`f`.
unfoldable pub digit : ℕ → ℕ
digit d = if ltb d 10 then 48 + d else 87 + d

-- The last `w` hexadecimal digits, first digit first.
unfoldable pub hex_fixed : ℕ → ℕ → Text
hex_fixed zero n = []
hex_fixed (suc w) n = hex_fixed w (n / 16) ++ (digit (n % 16) ∷ [])

-- How many digits `{:x}` prints, for a number of at most `fuel` digits.
unfoldable pub hex_width : ℕ → ℕ → ℕ
hex_width zero n = 0
hex_width (suc fuel) n = let more = hex_width fuel (n / 16) in if ltb n 16 then 1 else suc more

-- `format!("{n:0wx}")` of a u64, which has at most 16 digits: padded to `w`, never cut.
unfoldable pub hex_padded : ℕ → ℕ → Text
hex_padded w n = hex_fixed (max w (hex_width 16 n)) n

-- `char::to_digit(16)`, either case.
unfoldable pub to_digit : ℕ → Option ℕ
to_digit c =
    if leb 48 c && leb c 57
    then some (c - 48)
    else if leb 97 c && leb c 102
    then some (c - 87)
    else if leb 65 c && leb c 70
    then some (c - 55)
    else none

-- One digit: `result.checked_mul(16)?.checked_add(x)?` for an unsigned type below `limit`.
unfoldable pub add_digit : ℕ → ℕ → ℕ → Option ℕ
add_digit limit acc c = elim (to_digit c) [
  | none ↦ none
  | some d ↦ if ltb (acc * 16 + d) limit then some (acc * 16 + d) else none
]

unfoldable pub parse_digits : ℕ → ℕ → Text → Option ℕ
parse_digits limit acc [] = some acc
parse_digits limit acc (c ∷ cs) = elim (add_digit limit acc c) [
  | none ↦ none
  | some a ↦ parse_digits limit a cs
]

-- `uN::from_str_radix(s, 16)`: a leading `+` is accepted, no digits at all are not.
unfoldable pub from_str_radix : ℕ → Text → Option ℕ
from_str_radix limit [] = none
from_str_radix limit (c ∷ []) = parse_digits limit 0 (c ∷ [])
from_str_radix limit (c ∷ d ∷ cs) =
    if c == 43 then parse_digits limit 0 (d ∷ cs) else parse_digits limit 0 (c ∷ d ∷ cs)

unfoldable pub hex_encode : List ℕ → Text
hex_encode [] = []
hex_encode (b ∷ bs) = hex_padded 2 b ++ hex_encode bs

-- A byte at which a `str` may not be cut.
unfoldable pub is_continuation : ℕ → Bool
is_continuation b = leb 128 b && ltb b 192

unfoldable pub starts_char : Text → Bool
starts_char [] = true
starts_char (b ∷ bs) = not (is_continuation b)

-- `Result<Vec<u8>, ()>`, and the unwinding of a slice that would cut a character.
pub data Decoded : Type 0 where
  bytes : List ℕ → Decoded
  malformed : Decoded
  panics : Decoded

abbrev prepend : ℕ → Decoded → Decoded
prepend b (bytes bs) = bytes (b ∷ bs)
prepend b malformed = malformed
prepend b panics = panics

-- The loop over `&s[i..i + 2]`; `collect` stops at the first error. `hex_decode` has checked that
-- the length is even, so the clause for one byte is never reached.
unfoldable pub hex_decode_pairs : Text → Decoded
hex_decode_pairs [] = bytes []
hex_decode_pairs (a ∷ []) = malformed
hex_decode_pairs (a ∷ b ∷ rest) =
    let more = hex_decode_pairs rest in
    if starts_char rest
    then elim (from_str_radix 256 (a ∷ b ∷ [])) [ none ↦ malformed | some v ↦ prepend v more ]
    else panics

unfoldable pub hex_decode : Text → Decoded
hex_decode s = if length s % 2 == 0 then hex_decode_pairs s else malformed
