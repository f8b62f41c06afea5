-- ===== src/Tests/Clocks.antt =====
-- src/hlc.rs at concrete clocks.
use squirreld.Prelude.{◌≤◌, ◌≡◌, arith, Ordering, cmp_text}
use squirreld.Error.{ok}
use squirreld.Hlc.{tick, cmp, fmt, from_str}
use squirreld.Hlc.Clock.{IsSaturated, cmp-tick, tick-eq_iff}
use squirreld.Hlc.Order.{cmp_text-fmt}
use squirreld.Hlc.Format.{from_str-fmt}
use squirreld.Tests.Data.{alice_clock, bob_clock, alice_clock-IsHlc, bob_clock-IsHlc}

cmp-tick_example :
    (cmp alice_clock (tick 1000 alice_clock) ≡ Ordering.lt)
    × (1000 ≤ (tick 1000 alice_clock).physical_ms)
cmp-tick_example = cmp-tick 1000 alice_clock (λ h. ground arith)

tick-eq_iff_example :
    (IsSaturated 1000 alice_clock → tick 1000 alice_clock ≡ alice_clock)
    × (tick 1000 alice_clock ≡ alice_clock → IsSaturated 1000 alice_clock)
tick-eq_iff_example = tick-eq_iff 1000 alice_clock alice_clock-IsHlc

cmp_text-fmt_example : cmp_text (fmt alice_clock) (fmt bob_clock) ≡ cmp alice_clock bob_clock
cmp_text-fmt_example =
    cmp_text-fmt alice_clock bob_clock alice_clock-IsHlc bob_clock-IsHlc (ground arith)
      (ground arith)

from_str-fmt_example : from_str (fmt alice_clock) ≡ ok alice_clock
from_str-fmt_example = from_str-fmt alice_clock alice_clock-IsHlc
