-- ===== src/Cortex/Alu/Compare.antt =====
-- The condition flags, and the conditions after a comparison.
use kinetis_k22_sim.Base.{
  ℕ, ◌+◌, ◌*◌, ◌^◌, ◌%◌, ◌<◌, bit_and, bit_or, Bool, true, false, not, ◌&&◌, ◌||◌, ltb, leb, ◌==◌,
  if◌then◌else◌, flag, not32, bit, ◌≡◌, refl, ◌∙◌, arith, bit-and, bit-or, bit-pow, bit-not32,
  bit_top, flag-pow, bit-set, bit_and_fifteen,
}
use kinetis_k22_sim.Cortex.State.{Cpu}
use kinetis_k22_sim.Cortex.Alu.{
  add_with_carry, xpsr_n, xpsr_z, xpsr_c, xpsr_v, write_flag, set_nz, set_nzcv, add_flags,
  condition_holds, condition_passed,
}
use kinetis_k22_sim.Cortex.Alu.Adder.{biased, add_with_carry_lem}

-- Digit `j` after a flag at digit `i` was cleared with another at `k`, and after it was written.
cleared_digit :
    (word i k j : ℕ)
    → i < 32
    → k < 32
    → j < 32
    → bit_or (2 ^ i) (2 ^ k) < 2 ^ 32
    → bit (bit_and word (not32 (bit_or (2 ^ i) (2 ^ k)))) j ≡ (bit word j && not (i == j || k == j))
cleared_digit word i k j hi hk hj small =
    rw (bit-and, bit-not32 (bit_or (2 ^ i) (2 ^ k)) j small hj, bit-or, bit-pow i j, bit-pow k j)

written_digit :
    (word i j : ℕ) (value : Bool)
    → bit (write_flag word (2 ^ i) value) j ≡ (if value && i == j then true else bit word j)
unfolding write_flag
written_digit word i j true = rw bit-set (ground arith)
written_digit word i j false = refl

set_nz_digit :
    (cpu : Cpu) (value j : ℕ)
    → j < 32
    → bit (set_nz cpu value).xpsr j
      ≡ (if j == 31 then flag value 0x80000000 else if j == 30 then value == 0 else bit cpu.xpsr j)
unfolding set_nz
set_nz_digit cpu value j hj =
    let cleared = bit_and cpu.xpsr (not32 (bit_or xpsr_n xpsr_z)) in
    ground (
      arith,
      written_digit (write_flag cleared xpsr_n (flag value 0x80000000)) 30 j (value == 0),
      written_digit cleared 31 j (flag value 0x80000000),
      cleared_digit cpu.xpsr 31 30 j (omega arith) (omega arith) hj (omega arith),
    )

-- Every digit of the xPSR after `set_nzcv`.
pub set_nzcv_digit :
    (cpu : Cpu) (value j : ℕ) (carry overflow : Bool)
    → j < 32
    → bit (set_nzcv cpu value carry overflow).xpsr j ≡ (
        if j == 31
        then flag value 0x80000000
        else if j == 30
        then value == 0
        else if j == 29
        then carry
        else if j == 28
        then overflow
        else bit cpu.xpsr j)
unfolding set_nzcv
set_nzcv_digit cpu value j carry overflow hj =
    let cleared = bit_and (set_nz cpu value).xpsr (not32 (bit_or xpsr_c xpsr_v)) in
    ground (
      arith,
      written_digit (write_flag cleared xpsr_c carry) 28 j overflow,
      written_digit cleared 29 j carry,
      cleared_digit (set_nz cpu value).xpsr 29 28 j (omega arith) (omega arith) hj (omega arith),
      set_nz_digit cpu value j hj,
    )

-- The four flags after `set_nzcv`, for a result of 32 bits.
pub set_nzcv_flags :
    (cpu : Cpu) (value : ℕ) (carry overflow : Bool)
    → value < 2 ^ 32
    → let x = (set_nzcv cpu value carry overflow).xpsr in
      (flag x xpsr_n ≡ leb (2 ^ 31) value)
      × (flag x xpsr_z ≡ (value == 0))
      × (flag x xpsr_c ≡ carry)
      × (flag x xpsr_v ≡ overflow)
set_nzcv_flags cpu value carry overflow h =
    let x = (set_nzcv cpu value carry overflow).xpsr in
    (
      flag-pow x 31
          ∙ set_nzcv_digit cpu value 31 carry overflow (omega arith)
          ∙ flag-pow value 31
          ∙ bit_top value h,
      flag-pow x 30 ∙ set_nzcv_digit cpu value 30 carry overflow (omega arith),
      flag-pow x 29 ∙ set_nzcv_digit cpu value 29 carry overflow (omega arith),
      flag-pow x 28 ∙ set_nzcv_digit cpu value 28 carry overflow (omega arith),
    )

-- After the subtraction of `CMP l, r` on 32-bit operands, the conditions EQ, HS, HI, GE and GT
-- compare the operands: as numbers for HS and HI, and as signed integers for GE and GT.
pub compare_conditions :
    (cpu : Cpu) (l r : ℕ)
    → l < 2 ^ 32
    → r < 2 ^ 32
    → let after = (add_flags cpu l (not32 r) true).0 in
      (condition_passed after 0 ≡ (l == r))
      × (condition_passed after 2 ≡ leb r l)
      × (condition_passed after 8 ≡ ltb r l)
      × (condition_passed after 10 ≡ leb (biased r) (biased l))
      × (condition_passed after 12 ≡ ltb (biased r) (biased l))
unfolding condition_passed condition_holds add_flags
compare_conditions cpu l r hl hr =
    let sum = add_with_carry l (not32 r) true in
    let facts = add_with_carry_lem l (not32 r) true hl (omega arith) in
    let flags = set_nzcv_flags cpu sum.value sum.carry sum.overflow (omega (arith, facts.0)) in
    (
      ground (arith, facts, flags),
      ground (arith, facts, flags),
      ground (arith, facts, flags),
      ground (arith, facts, flags),
      ground (arith, facts, flags),
    )

opposite :
    (k : ℕ) (n z c v : Bool)
    → k < 7
    → condition_holds ((2 * k + 1) % 16) n z c v ≡ not (condition_holds (2 * k % 16) n z c v)
unfolding condition_holds
opposite k n z c v h = ground arith

-- The codes come in pairs: an odd one up to 13 is the negation of the even one before it.
pub condition_passed_opposite :
    (cpu : Cpu) (k : ℕ)
    → k < 7
    → condition_passed cpu (2 * k + 1) ≡ not (condition_passed cpu (2 * k))
unfolding condition_passed
condition_passed_opposite cpu k h =
    rw (bit_and_fifteen (2 * k + 1), bit_and_fifteen (2 * k))
      (opposite k (flag cpu.xpsr xpsr_n) (flag cpu.xpsr xpsr_z) (flag cpu.xpsr xpsr_c)
        (flag cpu.xpsr xpsr_v) h)
