-- ===== src/Prelude/Decimals.antt =====
-- `to_string` of a number, as it stands in upload ids and in SQL texts.
use Prim.Native.Nat.{ℕ, zero, suc, ◌+◌, ◌-◌, ◌*◌, ◌/◌, ◌%◌, ◌<◌, ◌≤◌, compare, Ordering}
use Prim.Native.Char.{IsScalar, char, code}
use Prim.Native.String.{String}
use mathlib.Core.Path.{◌≡◌, refl, sym, ap, ◌∙◌}
use mathlib.Core.Bool.{◌&&◌}
use mathlib.Core.Option.{Option, none, some}
use mathlib.Core.Logic.{inl, inr}
use native.Mathlib.Omega.{arith}
use squirreld.Prelude.Tests.{ltb, leb, ◌==◌, Bool-cases, if◌then◌else◌}

pub digit_IsScalar : (n : ℕ) → IsScalar (48 + n % 10)
digit_IsScalar n = let e : compare (48 + n % 10) 55296 ≡ Ordering.lt = ground arith in rw e tt

-- `to_string` of a number: its decimal digits.
unfoldable pub digits : ℕ → ℕ → String → String
digits zero n rest = rest
digits (suc fuel) n rest =
    let s = String.◌∷◌ (char (48 + n % 10) (digit_IsScalar n)) rest in
    let more = digits fuel (n / 10) s in if ltb n 10 then s else more

unfoldable pub to_string : ℕ → String
to_string n = digits (suc n) n ""

val : String → ℕ → ℕ
val String.[] acc = acc
val (String.◌∷◌ c s) acc = val s (acc * 10 + (code c - 48))

val-digits : (fuel n : ℕ) (rest : String) → n < fuel → val (digits fuel n rest) 0 ≡ val rest n
unfolding digits val
val-digits zero n rest h = absurd (omega (arith, h))
val-digits (suc fuel) n rest h = elim (Bool-cases (ltb n 10)) [
  | inl last ↦ rw last (ap (val rest) (ground arith))
  | inr more ↦
      rw more (val-digits fuel (n / 10) _ (ground (arith, h, more)) ∙ ap (val rest) (omega arith))
]

-- Numbers that print the same are the same.
pub to_string_injective : (m n : ℕ) → to_string m ≡ to_string n → m ≡ n
unfolding to_string val
to_string_injective m n e =
    sym (val-digits (suc m) m "" (omega arith))
    ∙ (ap (λ s. val s 0) e ∙ val-digits (suc n) n "" (omega arith))

-- `parse` of an unsigned type with the values below `bound`: digits only, and no overflow on the way.
parse_digits : ℕ → String → ℕ → Option ℕ
parse_digits bound String.[] acc = some acc
parse_digits bound (String.◌∷◌ c s) acc =
    let next = acc * 10 + (code c - 48) in
    let rest = parse_digits bound s next in
    if leb 48 (code c) && leb (code c) 57 && ltb next bound then rest else none

-- A sign is allowed before the digits; nothing, and a sign alone, are errors.
unfoldable pub parse_below : ℕ → String → Option ℕ
unfolding parse_digits
parse_below bound String.[] = none
parse_below bound (String.◌∷◌ c String.[]) = parse_digits bound (String.◌∷◌ c String.[]) 0
parse_below bound (String.◌∷◌ c (String.◌∷◌ d s)) =
    if code c == 43
    then parse_digits bound (String.◌∷◌ d s) 0
    else parse_digits bound (String.◌∷◌ c (String.◌∷◌ d s)) 0

parse_digits-digits :
    (bound fuel n : ℕ) (rest : String)
    → n < fuel
    → n < bound
    → parse_digits bound (digits fuel n rest) 0 ≡ parse_digits bound rest n
unfolding digits parse_digits
parse_digits-digits bound zero n rest h b = absurd (omega (arith, h))
parse_digits-digits bound (suc fuel) n rest h b = elim (Bool-cases (ltb n 10)) [
  | inl last ↦ rw last (ground (arith, last, b))
  | inr more ↦ rw more (
      parse_digits-digits bound fuel (n / 10) _ (ground (arith, h, more)) (omega (arith, b))
      ∙ ground (arith, b))
]

-- There is a character, and no sign stands first.
abbrev Unsigned : String → Type 0
Unsigned String.[] = ⊥
Unsigned (String.◌∷◌ c s) = 48 ≤ code c

digits-Unsigned : (fuel n : ℕ) (rest : String) → Unsigned rest → Unsigned (digits fuel n rest)
unfolding digits
digits-Unsigned zero n rest u = u
digits-Unsigned (suc fuel) n rest u = elim (Bool-cases (ltb n 10)) [
  | inl last ↦ rw last (omega arith)
  | inr more ↦ rw more (digits-Unsigned fuel (n / 10) _ (omega arith))
]

to_string-Unsigned : (n : ℕ) → Unsigned (to_string n)
unfolding to_string digits
to_string-Unsigned n = elim (Bool-cases (ltb n 10)) [
  | inl last ↦ rw last (omega arith)
  | inr more ↦ rw more (digits-Unsigned n (n / 10) _ (omega arith))
]

parse_below-Unsigned :
    (bound : ℕ) (s : String) → Unsigned s → parse_below bound s ≡ parse_digits bound s 0
unfolding parse_below
parse_below-Unsigned bound String.[] u = absurd u
parse_below-Unsigned bound (String.◌∷◌ c String.[]) u = refl
parse_below-Unsigned bound (String.◌∷◌ c (String.◌∷◌ d s)) u = ground (arith, u)

-- A number that fits is read back as it was printed.
pub parse_below-to_string : (bound n : ℕ) → n < bound → parse_below bound (to_string n) ≡ some n
unfolding to_string parse_digits
parse_below-to_string bound n h =
    parse_below-Unsigned bound (to_string n) (to_string-Unsigned n)
    ∙ parse_digits-digits bound (suc n) n "" (omega arith) h
