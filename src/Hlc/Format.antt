-- ===== src/Hlc/Format.antt =====
-- src/hlc.rs, `from_str` of what `fmt` prints.
use squirreld.Prelude.{◌^◌, [], ◌∷◌, ◌++◌, Text, All, ◌≡◌, refl, arith, some}
use squirreld.Error.{ok}
use squirreld.Hex.{hex_encode, hex_padded}
use squirreld.Hex.RoundTrip.{
  IsPlain, hex_padded-IsPlain, from_str_radix-hex_padded, hex_decode-hex_encode,
}
use squirreld.Hlc.{Hlc, IsHlc, fmt, from_str, split_dash, parse_node, parse_parts}

-- A text without a dash, followed by a dash, is split there.
split_dash-plain :
    (xs rest : Text) → All IsPlain xs → split_dash (xs ++ (45 ∷ rest)) ≡ (xs, some rest)
unfolding split_dash
split_dash-plain [] rest h = refl
split_dash-plain (x ∷ xs) rest h = rw (split_dash-plain xs rest h.1) (ground arith)

split_dash-fmt :
    (h : Hlc)
    → split_dash (fmt h)
      ≡ (hex_padded 13 h.physical_ms, some (hex_padded 4 h.logical ++ (45 ∷ hex_encode h.node_id)))
unfolding fmt
split_dash-fmt h = split_dash-plain _ _ (hex_padded-IsPlain 13 h.physical_ms)

parse_parts-fmt :
    (s : Text) (h : Hlc)
    → IsHlc h
    → parse_parts s (hex_padded 13 h.physical_ms) (hex_padded 4 h.logical) (hex_encode h.node_id)
      ≡ ok h
unfolding parse_parts parse_node
parse_parts-fmt s h v = ground (
  arith,
  from_str_radix-hex_padded (2 ^ 64) 13 h.physical_ms (omega arith) v.physical_u64 v.physical_u64,
  from_str_radix-hex_padded (2 ^ 16) 4 h.logical (omega arith) (omega (arith, v.logical_u16))
      v.logical_u16,
  hex_decode-hex_encode h.node_id v.node_u8,
  v.node_len,
)

-- Parsing what a clock in range prints gives the clock.
pub from_str-fmt : (h : Hlc) → IsHlc h → from_str (fmt h) ≡ ok h
unfolding from_str
from_str-fmt h v = ground (
  arith,
  parse_parts-fmt (fmt h) h v,
  split_dash-fmt h,
  split_dash-plain (hex_padded 4 h.logical) (hex_encode h.node_id) (hex_padded-IsPlain 4 h.logical),
)
