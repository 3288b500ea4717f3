-- ===== src/Cortex/Alu/Adder.antt =====
-- The adder computes the wrapped sum, the carry out of 32 bits and the signed overflow.
use kinetis_k22_sim.Base.{
  ℕ, ◌+◌, ◌^◌, ◌%◌, ◌<◌, bit_and, bit_xor, Bool, not, ◌&&◌, ◌||◌, ltb, leb, ◌!=◌, ◌>>◌, not32, u32,
  of_bool, xor, ◌≡◌, refl, ◌∙◌, arith, bit-and, bit-xor, bit-not32, bit_top, shr_top, bit_and-lt,
  bit_xor-lt,
}
use kinetis_k22_sim.Cortex.Alu.{add_with_carry}

-- The integer that a word stands for in two's complement, plus 2 ^ 31.
abbrev pub biased : ℕ → ℕ
biased x = u32 (x + 2 ^ 31)

sign_rule :
    (l r s : ℕ)
    → l < 2 ^ 32
    → r < 2 ^ 32
    → s < 2 ^ 32
    → (bit_and (not32 (bit_xor l r)) (bit_xor l s) >> 31 != 0)
      ≡ (not (xor (leb (2 ^ 31) l) (leb (2 ^ 31) r)) && xor (leb (2 ^ 31) l) (leb (2 ^ 31) s))
sign_rule l r s hl hr hs =
    let low : bit_and (not32 (bit_xor l r)) (bit_xor l s) < 2 ^ 32 =
      bit_and-lt 32 (not32 (bit_xor l r)) (bit_xor l s) (bit_xor-lt 32 l s hl hs) in
    shr_top (bit_and (not32 (bit_xor l r)) (bit_xor l s)) low
    ∙ rw (
      bit-and,
      bit-not32 (bit_xor l r) 31 (bit_xor-lt 32 l r hl hr) (omega arith),
      bit-xor,
      bit-xor l s 31,
      bit_top l hl,
      bit_top r hr,
      bit_top s hs,
    )

-- For 32-bit operands the result is the sum modulo 2 ^ 32, the carry tells a sum of 2 ^ 32 or
-- more, and the overflow flag tells exactly that the sum of the signed readings lies outside -2 ^
-- 31 .. 2 ^ 31 - 1.
pub add_with_carry_lem :
    (l r : ℕ) (carry : Bool)
    → l < 2 ^ 32
    → r < 2 ^ 32
    → let sum = add_with_carry l r carry in
      (sum.value ≡ (l + r + of_bool carry) % 2 ^ 32)
      × (sum.carry ≡ leb (2 ^ 32) (l + r + of_bool carry))
      × (sum.overflow ≡ (
          ltb (biased l + biased r + of_bool carry) (2 ^ 31)
          || leb (2 ^ 31 + 2 ^ 32) (biased l + biased r + of_bool carry)))
unfolding add_with_carry
add_with_carry_lem l r carry hl hr = (
  refl,
  ground arith,
  sign_rule l r (u32 (l + r + of_bool carry)) hl hr (omega arith) ∙ (unfold xor in ground arith),
)
