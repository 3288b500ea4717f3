-- ===== src/Cortex/ItBlock/Advance.antt =====
-- An IT block ends after as many instructions as its mask says, at most four.
use kinetis_k22_sim.Base.{
  ℕ, zero, suc, ◌+◌, ◌-◌, ◌*◌, ◌/◌, ◌<◌, ◌≤◌, bit_and, Bool, true, ◌&&◌, ltb, leb, ◌==◌, ◌!=◌,
  if◌then◌else◌, flag, not32, bit, ◌≡◌, ◌≢◌, refl, arith, of_bool, bit-and, bit-or, bit-not32,
  agree_below, agree_below_sound,
}
use kinetis_k22_sim.Cortex.State.{Cpu}
use kinetis_k22_sim.Cortex.ItBlock.{
  xpsr_nzcv, it_flag_write, it_next, it_advance, is_implicit, it_preserve_flags,
}

-- The core after `n` instructions of a block.
abbrev pub advanced : ℕ → Cpu → Cpu
advanced zero cpu = cpu
advanced (suc n) cpu = advanced n (it_advance cpu)

-- The number of instructions in a block: 4 less the zeros below the lowest 1 of the mask.
pub it_length : ℕ → ℕ
it_length state = if bit state 0 then 4 else if bit state 1 then 3 else if bit state 2 then 2 else 1

abbrev iterate : ℕ → ℕ → ℕ
iterate zero s = s
iterate (suc n) s = iterate n (it_next s)

advanced_state : (n : ℕ) (cpu : Cpu) → (advanced n cpu).it_state ≡ iterate n cpu.it_state
unfolding it_advance
advanced_state zero cpu = refl
advanced_state (suc n) cpu = advanced_state n (it_advance cpu)

-- What is claimed of a state and a number of steps, as a test.
abbrev step_ok : ℕ → ℕ → Bool
step_ok n s =
    if bit_and s 15 == 0
    then true
    else if ltb n (it_length s)
    then iterate n s != 0 && iterate n s / 16 == s / 32 * 2 + of_bool (bit s (4 - n))
    else iterate n s == 0

table : (n s : ℕ) → n < 5 → s < 256 → step_ok n s ≡ true
unfolding agree_below bit it_next it_length flag
table zero s h k = agree_below_sound 256 (step_ok 0) (λ _. true) s refl k
table (suc zero) s h k = agree_below_sound 256 (step_ok 1) (λ _. true) s refl k
table (suc (suc zero)) s h k = agree_below_sound 256 (step_ok 2) (λ _. true) s refl k
table (suc (suc (suc zero))) s h k = agree_below_sound 256 (step_ok 3) (λ _. true) s refl k
table (suc (suc (suc (suc zero)))) s h k = agree_below_sound 256 (step_ok 4) (λ _. true) s refl k
table (suc (suc (suc (suc (suc n))))) s h k = absurd (omega arith)

-- A block with an 8-bit state and a nonzero mask ends after exactly `it_length` instructions.
-- Until then the condition code of instruction `n` has the base condition's upper three bits and
-- mask bit `4 - n` as its lowest bit.
pub it_block_lem :
    (cpu : Cpu) (n : ℕ)
    → cpu.it_state < 256
    → bit_and cpu.it_state 15 ≢ 0
    → n < 5
    → (n < it_length cpu.it_state
        → ((advanced n cpu).it_state ≢ 0)
          × ((advanced n cpu).it_state / 16
              ≡ cpu.it_state / 32 * 2 + of_bool (bit cpu.it_state (4 - n))))
      × (it_length cpu.it_state ≤ n → (advanced n cpu).it_state ≡ 0)
it_block_lem cpu n small masked steps = rw (advanced_state n cpu) (
  λ h. ground (arith, table n cpu.it_state steps small),
  λ h. ground (arith, table n cpu.it_state steps small),
)

nzcv_digit : (k : ℕ) → k < 32 → bit xpsr_nzcv k ≡ leb 28 k
unfolding agree_below bit
nzcv_digit k h = agree_below_sound 32 (bit xpsr_nzcv) (λ k. leb 28 k) k refl h

-- Inside a block an instruction that would set the flags implicitly leaves N, Z, C and V as they
-- were before it; the other bits of the xPSR keep their new values, and so do all bits for every
-- other instruction.
pub it_preserve_flags_lem :
    (cpu : Cpu) (first second previous k : ℕ) (is_wide inside : Bool)
    → k < 32
    → bit (it_preserve_flags cpu first second is_wide inside previous).xpsr k ≡ (
        if inside && is_implicit (it_flag_write first second is_wide) && leb 28 k
        then bit previous k
        else bit cpu.xpsr k)
unfolding it_preserve_flags
it_preserve_flags_lem cpu first second previous k is_wide inside hk = ground (
  arith,
  bit-or (bit_and cpu.xpsr (not32 xpsr_nzcv)) (bit_and previous xpsr_nzcv) k,
  bit-and cpu.xpsr (not32 xpsr_nzcv) k,
  bit-and previous xpsr_nzcv k,
  bit-not32 xpsr_nzcv k,
  nzcv_digit k hk,
)
