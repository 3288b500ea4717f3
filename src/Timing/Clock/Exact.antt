-- ===== src/Timing/Clock/Exact.antt =====
-- No tick is lost or made up, however the core cycles are cut into calls.
use kinetis_k22_sim.Base.{ℕ, ◌+◌, ◌-◌, ◌*◌, ◌/◌, ◌%◌, ◌^◌, ◌<◌, ◌≤◌, ◌≡◌, ap, ◌∙◌, arith}
use mathlib.Core.Path.{ap₂}
use native.Mathlib.Nat.{
  mul-le-mul, add-mul, div-add-mod', mod-lt, add-mul-div_right, add-mul-mod_self_right,
}
use kinetis_k22_sim.Timing.Clock.{clock_ticks}

-- With 32-bit arguments the 64-bit sum does not wrap.
accumulated_fits :
    (remainder cycles source_hz : ℕ)
    → remainder < 2 ^ 32
    → cycles < 2 ^ 32
    → source_hz < 2 ^ 32
    → remainder + cycles * source_hz < 2 ^ 64
accumulated_fits remainder cycles source_hz hr hc hs = bound (mul-le-mul hc' hs')
  where
    hc' : cycles ≤ 2 ^ 32 - 1
    hc' = omega arith

    hs' : source_hz ≤ 2 ^ 32 - 1
    hs' = omega arith

    bound :
        cycles * source_hz ≤ (2 ^ 32 - 1) * (2 ^ 32 - 1) → remainder + cycles * source_hz < 2 ^ 64
    bound h = omega arith

ticks_lem :
    (remainder cycles source_hz core_hz : ℕ)
    → remainder < core_hz
    → cycles < 2 ^ 32
    → 0 < source_hz
    → source_hz < 2 ^ 32
    → core_hz < 2 ^ 32
    → ((clock_ticks remainder cycles source_hz core_hz).ticks
        ≡ (remainder + cycles * source_hz) / core_hz)
      × ((clock_ticks remainder cycles source_hz core_hz).remainder
          ≡ (remainder + cycles * source_hz) % core_hz)
unfolding clock_ticks
ticks_lem remainder cycles source_hz core_hz hr hc pos hs hk =
    let fits = accumulated_fits remainder cycles source_hz (omega arith) hc hs in ground arith

-- The ticks and the new remainder account for every source cycle, and the remainder stays below
-- the core clock.
pub clock_ticks_exact :
    (remainder cycles source_hz core_hz : ℕ)
    → remainder < core_hz
    → cycles < 2 ^ 32
    → 0 < source_hz
    → source_hz < 2 ^ 32
    → core_hz < 2 ^ 32
    → let out = clock_ticks remainder cycles source_hz core_hz in
      (out.ticks * core_hz + out.remainder ≡ remainder + cycles * source_hz)
      × (out.remainder < core_hz)
clock_ticks_exact remainder cycles source_hz core_hz hr hc pos hs hk =
    let value = ticks_lem remainder cycles source_hz core_hz hr hc pos hs hk in
    let total = remainder + cycles * source_hz in
    (
      ap₂ (λ q r. q * core_hz + r) value.0 value.1 ∙ div-add-mod' total core_hz,
      ground (arith, value.1, mod-lt total {m = core_hz} (omega arith)),
    )

-- Dividing in two steps.
split_div :
    (a b k : ℕ) → 0 < k → ((a + b) / k ≡ a / k + (a % k + b) / k) × ((a + b) % k ≡ (a % k + b) % k)
split_div a b k pos = (quotient, remainder)
  where
    shape : a + b ≡ a % k + b + a / k * k
    shape = ground (arith, div-add-mod' a k)

    quotient : (a + b) / k ≡ a / k + (a % k + b) / k
    quotient =
        let cut = ap (λ n. n / k) shape ∙ add-mul-div_right (a % k + b) (a / k) pos in omega arith

    remainder : (a + b) % k ≡ (a % k + b) % k
    remainder = ap (λ n. n % k) shape ∙ add-mul-mod_self_right (a % k + b) (a / k) k

-- For 32-bit clocks that are not 0, a remainder below the core clock and a 32-bit sum of the
-- spans, two calls in a row give the same ticks and remainder as one call for both spans.
pub clock_ticks_split :
    (remainder first second source_hz core_hz : ℕ)
    → remainder < core_hz
    → first + second < 2 ^ 32
    → 0 < source_hz
    → source_hz < 2 ^ 32
    → core_hz < 2 ^ 32
    → let one = clock_ticks remainder first source_hz core_hz in
      let two = clock_ticks one.remainder second source_hz core_hz in
      let both = clock_ticks remainder (first + second) source_hz core_hz in
      (both.ticks ≡ one.ticks + two.ticks) × (both.remainder ≡ two.remainder)
clock_ticks_split remainder first second source_hz core_hz hr hc pos hs hk =
    let one = ticks_lem remainder first source_hz core_hz hr (omega arith) pos hs hk in
    let two =
      ticks_lem (clock_ticks remainder first source_hz core_hz).remainder second source_hz core_hz
        (ground (arith, mod-lt (remainder + first * source_hz) {m = core_hz} (omega arith)))
        (omega arith) pos hs hk in
    let both = ticks_lem remainder (first + second) source_hz core_hz hr hc pos hs hk in
    let cut =
      split_div (remainder + first * source_hz) (second * source_hz) core_hz (omega arith) in
    ground (arith, add-mul first second source_hz)
