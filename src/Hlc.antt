-- ===== src/Hlc.antt =====
-- src/hlc.rs: the hybrid logical clock. The wall clock (`wall_clock_ms`) is read by the caller of
-- each function here, and the reading is its first argument.
pub mod Clock
pub mod Order
pub mod Format
use squirreld.Prelude.{
  ℕ, ◌+◌, ◌^◌, ◌<◌, min, max, compare, Ordering, List, [], ◌∷◌, ◌++◌, Text, Bool, ◌&&◌, ◌==◌,
  Option, none, some, if◌then◌else◌, then_cmp, cmp_text, length, All, arith, ◌≡◌,
}
use squirreld.Error.{Result, ok, err, panic, invalid_hlc}
use squirreld.Hex.{
  hex_padded, from_str_radix, hex_encode, hex_decode, Decoded, bytes, malformed, panics,
}

pub record Hlc : Type 0 where
  pub physical_ms : ℕ
  pub logical : ℕ
  pub node_id : List ℕ

-- The ranges of `u64`, `u16` and `[u8; 6]`.
pub record IsHlc (h : Hlc) : Type 0 where
  pub physical_u64 : h.physical_ms < 2 ^ 64
  pub logical_u16 : h.logical < 2 ^ 16
  pub node_len : length h.node_id ≡ 6
  pub node_u8 : All (λ b. b < 256) h.node_id

abbrev pub max_logical : ℕ
max_logical = 65535

-- `u16::saturating_add(1)`
unfoldable pub saturating_succ : ℕ → ℕ
saturating_succ n = min (n + 1) max_logical

-- `Hlc::new`
unfoldable pub new : ℕ → List ℕ → Hlc
new wall_ms node = record { physical_ms = wall_ms; logical = 0; node_id = node }

unfoldable pub tick : ℕ → Hlc → Hlc
unfolding saturating_succ
tick wall_ms h =
    let physical = max wall_ms h.physical_ms in
    record {
      physical_ms = physical;
      logical = if physical == h.physical_ms then saturating_succ h.logical else 0;
      node_id = h.node_id;
    }

unfoldable pub merge : ℕ → Hlc → Hlc → Hlc
unfolding saturating_succ
merge wall_ms h remote =
    let physical = max (max wall_ms h.physical_ms) remote.physical_ms in
    record {
      physical_ms = physical;
      logical =
          if physical == h.physical_ms && physical == remote.physical_ms
          then saturating_succ (max h.logical remote.logical)
          else if physical == h.physical_ms
          then saturating_succ h.logical
          else if physical == remote.physical_ms
          then saturating_succ remote.logical
          else 0;
      node_id = h.node_id;
    }

-- `Ord::cmp`: the tuples (physical, logical, node id) in lexicographic order.
unfoldable pub cmp : Hlc → Hlc → Ordering
cmp a b =
    then_cmp (compare a.physical_ms b.physical_ms)
      (then_cmp (compare a.logical b.logical) (cmp_text a.node_id b.node_id))

-- `Display`: `{:013x}-{:04x}-{node}`; 45 is `-`.
unfoldable pub fmt : Hlc → Text
fmt h =
    hex_padded 13 h.physical_ms ++ (45 ∷ (hex_padded 4 h.logical ++ (45 ∷ hex_encode h.node_id)))

-- The part before the first `-` and, if there is one, what follows it.
unfoldable pub split_dash : Text → Text × Option Text
split_dash [] = ([], none)
split_dash (c ∷ cs) =
    let (part, rest) = split_dash cs in if c == 45 then ([], some cs) else (c ∷ part, rest)

-- `[u8; 6]` from the decoded bytes, at the end of `from_str`.
unfoldable pub parse_node : Text → Text → ℕ → ℕ → Result Hlc
parse_node s node_str physical logical = elim (hex_decode node_str) [
  | bytes bs ↦
      if length bs == 6
      then ok (record { physical_ms = physical; logical = logical; node_id = bs })
      else err (invalid_hlc s)
  | malformed ↦ err (invalid_hlc s)
  | panics ↦ panic
]

-- The two numbers, then the node.
unfoldable pub parse_parts : Text → Text → Text → Text → Result Hlc
parse_parts s phys_str log_str node_str = elim (from_str_radix (2 ^ 64) phys_str) [
  | none ↦ err (invalid_hlc s)
  | some physical ↦ elim (from_str_radix (2 ^ 16) log_str) [
    | none ↦ err (invalid_hlc s)
    | some logical ↦ parse_node s node_str physical logical
  ]
]

-- `FromStr`: `splitn(3, '-')`, so the third part keeps any further dashes.
unfoldable pub from_str : Text → Result Hlc
from_str s =
    let (phys_str, rest) = split_dash s in
    elim rest [
      | none ↦ err (invalid_hlc s)
      | some rest' ↦
          let (log_str, rest'') = split_dash rest' in
          elim rest'' [
            | none ↦ err (invalid_hlc s)
            | some node_str ↦ parse_parts s phys_str log_str node_str
          ]
    ]
