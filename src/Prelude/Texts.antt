-- ===== src/Prelude/Texts.antt =====
-- Strings that the program orders or walks, as the list of their bytes. `cmp` of Rust strings and
-- SQLite's BINARY collation compare bytes, first difference first.
use Prim.Native.Nat.{ℕ, compare, Ordering}
use Prim.Native.String.{String}
use Prim.Native.Char.{code}
use mathlib.Core.Bool.{Bool, true, false, ◌||◌}
use mathlib.Core.List.{List, [], ◌∷◌}

abbrev pub Text : Type 0
Text = List ℕ

-- The bytes of an ASCII literal.
abbrev pub codes : String → Text
codes String.[] = []
codes (String.◌∷◌ c s) = code c ∷ codes s

-- `Ordering::then`
abbrev pub then_cmp : Ordering → Ordering → Ordering
then_cmp Ordering.lt o = Ordering.lt
then_cmp Ordering.eq o = o
then_cmp Ordering.gt o = Ordering.gt

unfoldable pub cmp_text : Text → Text → Ordering
cmp_text [] [] = Ordering.eq
cmp_text [] (b ∷ bs) = Ordering.lt
cmp_text (a ∷ as') [] = Ordering.gt
cmp_text (a ∷ as') (b ∷ bs) = then_cmp (compare a b) (cmp_text as' bs)

abbrev is_lt : Ordering → Bool
is_lt Ordering.lt = true
is_lt _ = false

abbrev pub text_lt : Text → Text → Bool
text_lt a b = is_lt (cmp_text a b)

unfoldable pub starts_with : Text → Text → Bool
starts_with s [] = true
starts_with [] (b ∷ bs) = false
starts_with (a ∷ as') (b ∷ bs) =
    let rest = starts_with as' bs in elim (compare a b) [ Ordering.eq ↦ rest | _ ↦ false ]

unfoldable pub contains_text : Text → Text → Bool
unfolding starts_with
contains_text [] t = starts_with [] t
contains_text (a ∷ as') t = starts_with (a ∷ as') t || contains_text as' t

-- `str::contains`
unfoldable pub contains : String → String → Bool
unfolding contains_text
contains s t = contains_text (codes s) (codes t)
