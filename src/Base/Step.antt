-- ===== src/Base/Step.antt =====
-- The native bit operations, one binary digit at a time.
use Prim.Native.Nat.{
  ℕ, zero, suc, ◌+◌, ◌-◌, ◌*◌, ◌/◌, ◌%◌, ◌≤◌, min, max, bit_and, bit_or, bit_xor, digits, bitwise,
  differ, bit_and-bitwise, bit_or-bitwise, bit_xor-bitwise,
}
use mathlib.Core.Path.{◌≡◌, refl, ap, ◌∙◌}
use native.Mathlib.Omega.{arith}

-- The operation on single digits, and what it makes of the second word once the first is 0.
module _ (tail : ℕ → ℕ) (op : ℕ → ℕ → ℕ) where
  -- One more unit of fuel than the first word changes nothing.
  one_more : (fuel x y : ℕ) → x ≤ fuel → digits tail op (suc fuel) x y ≡ digits tail op fuel x y
  one_more zero zero y h = refl
  one_more zero (suc x) y h = absurd (omega arith)
  one_more (suc fuel) zero y h = refl
  one_more (suc fuel) (suc x) y h =
      ap (λ upper. upper * 2 + op (suc x % 2) (y % 2))
        (one_more fuel (suc x / 2) (y / 2) (omega arith))

  spare : (d fuel x y : ℕ) → x ≤ fuel → digits tail op (d + fuel) x y ≡ digits tail op fuel x y
  spare zero fuel x y h = let e : 0 + fuel ≡ fuel = omega arith in rw e refl
  spare (suc d) fuel x y h =
      let e : suc d + fuel ≡ suc (d + fuel) = omega arith in
      rw e (one_more (d + fuel) x y (omega arith) ∙ spare d fuel x y h)

  lowest_digit :
      (x y : ℕ)
      → bitwise tail op (suc x) y ≡ bitwise tail op (suc x / 2) (y / 2) * 2 + op (suc x % 2) (y % 2)
  lowest_digit x y =
      let half = suc x / 2 in
      let d = x - half in
      let e : x ≡ d + half = omega arith in
      ap (λ upper. upper * 2 + op (suc x % 2) (y % 2))
        (ap (λ fuel. digits tail op fuel half (y / 2)) e ∙ spare d half half (y / 2) (omega arith))

pub bit_and_step : (x y : ℕ) → bit_and x y ≡ bit_and (x / 2) (y / 2) * 2 + min (x % 2) (y % 2)
bit_and_step zero y = simp bit_and-bitwise (omega arith)
bit_and_step (suc x) y = let digit = lowest_digit (λ rest. 0) min x y in simp bit_and-bitwise digit

pub bit_or_step : (x y : ℕ) → bit_or x y ≡ bit_or (x / 2) (y / 2) * 2 + max (x % 2) (y % 2)
bit_or_step (suc x) y = let digit = lowest_digit (λ rest. rest) max x y in simp bit_or-bitwise digit
bit_or_step zero y = simp bit_or-bitwise (omega arith)

pub bit_xor_step : (x y : ℕ) → bit_xor x y ≡ bit_xor (x / 2) (y / 2) * 2 + differ (x % 2) (y % 2)
bit_xor_step zero y = simp bit_xor-bitwise (whole y)
  where
    whole : (y : ℕ) → y ≡ y / 2 * 2 + differ 0 (y % 2)
    whole y = omega arith
bit_xor_step (suc x) y =
    let digit = lowest_digit (λ rest. rest) differ x y in simp bit_xor-bitwise digit
