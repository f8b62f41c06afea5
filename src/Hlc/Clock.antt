-- ===== src/Hlc/Clock.antt =====
-- src/hlc.rs, `tick` and `merge`, in the order of the clocks.
use squirreld.Prelude.{ℕ, ◌≤◌, ◌<◌, Ordering, ◌≡◌, refl, arith, List, cmp_text, [], ◌∷◌, ◌^◌, ap}
use squirreld.Hlc.{Hlc, IsHlc, tick, merge, cmp, max_logical}

-- The counter is used up: the clock cannot tell a later event of this millisecond from this one.
abbrev pub IsSaturated : ℕ → Hlc → Type 0
IsSaturated wall_ms h = (wall_ms ≤ h.physical_ms) × (max_logical ≤ h.logical)

cmp_text_refl : (xs : List ℕ) → cmp_text xs xs ≡ Ordering.eq
unfolding cmp_text
cmp_text_refl [] = refl
cmp_text_refl (x ∷ xs) = ground (arith, cmp_text_refl xs)

-- A tick is strictly later than the clock that it starts from, and no earlier than the wall clock, as
-- long as the counter is not saturated.
pub cmp-tick :
    (wall_ms : ℕ) (h : Hlc)
    → (wall_ms ≤ h.physical_ms → h.logical < max_logical)
    → (cmp h (tick wall_ms h) ≡ Ordering.lt) × (wall_ms ≤ (tick wall_ms h).physical_ms)
unfolding cmp tick
cmp-tick wall_ms h room = ground arith

tick_saturated : (wall_ms : ℕ) (h : Hlc) → IsHlc h → IsSaturated wall_ms h → tick wall_ms h ≡ h
unfolding tick
tick_saturated wall_ms h v s = ground arith

IsSaturated-of_eq :
    (wall_ms : ℕ) (h : Hlc)
    → (tick wall_ms h).physical_ms ≡ h.physical_ms
    → (tick wall_ms h).logical ≡ h.logical
    → IsSaturated wall_ms h
unfolding tick
IsSaturated-of_eq wall_ms h p l = ground arith

-- With a saturated counter, and only then, a tick of a clock in range is the same clock again.
pub tick-eq_iff :
    (wall_ms : ℕ) (h : Hlc)
    → IsHlc h
    → (IsSaturated wall_ms h → tick wall_ms h ≡ h) × (tick wall_ms h ≡ h → IsSaturated wall_ms h)
tick-eq_iff wall_ms h v = (
  λ s. tick_saturated wall_ms h v s,
  λ e.
      IsSaturated-of_eq wall_ms h (ap (λ (k : Hlc). k.physical_ms) e)
        (ap (λ (k : Hlc). k.logical) e),
)

-- Both inputs are strictly before the merged clock, unless a counter that goes into it is saturated.
pub cmp-merge :
    (wall_ms : ℕ) (h remote : Hlc)
    → h.logical < max_logical
    → remote.logical < max_logical
    → (cmp h (merge wall_ms h remote) ≡ Ordering.lt)
      × (cmp remote (merge wall_ms h remote) ≡ Ordering.lt)
      × (wall_ms ≤ (merge wall_ms h remote).physical_ms)
unfolding cmp merge
cmp-merge wall_ms h remote room room' = ground arith

-- A tick of a clock in range, by a wall clock in range, is in range.
pub tick-IsHlc : (wall_ms : ℕ) (h : Hlc) → wall_ms < 2 ^ 64 → IsHlc h → IsHlc (tick wall_ms h)
unfolding tick
tick-IsHlc wall_ms h hw v = ground arith
