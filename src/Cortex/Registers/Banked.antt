-- ===== src/Cortex/Registers/Banked.antt =====
-- Reading a register after writing one.
use kinetis_k22_sim.Base.{
  ℕ, ◌<◌, bit_and, true, false, ◌==◌, if◌then◌else◌, not32, length, ◌≡◌, arith, get_or-set,
  bit_and_fifteen,
}
use kinetis_k22_sim.Cortex.State.{Cpu}
use kinetis_k22_sim.Cortex.Exceptions.{current_exception}
use kinetis_k22_sim.Cortex.Registers.{
  uses_psp, read_register, write_stack_pointer, write_register, get_register, set_register,
}

-- What a register holds of a written word: the stack pointer is aligned to 4, and the program
-- counter to 2.
pub stored : ℕ → ℕ → ℕ
stored index value =
    if index == 13
    then bit_and value (not32 3)
    else if index == 15
    then bit_and value (not32 1)
    else value

-- The choice of the stack pointer does not depend on the register file.
uses_psp-write : (cpu : Cpu) (i value : ℕ) → uses_psp (write_register cpu i value) ≡ uses_psp cpu
unfolding uses_psp write_register write_stack_pointer current_exception
uses_psp-write cpu i value = ground arith

-- With 16 registers, a register reads back what was written to it (with the low bits that
-- registers 13 and 15 drop), and every other register is unchanged; a write leaves the stack
-- pointer that the mode does not select.
pub get_register-set_register :
    (cpu : Cpu) (i j value : ℕ)
    → length cpu.registers ≡ 16
    → i < 16
    → j < 16
    → (get_register (set_register cpu i value) j
        ≡ (if i == j then stored i value else get_register cpu j))
      × (uses_psp cpu ≡ true → (set_register cpu i value).msp ≡ cpu.msp)
      × (uses_psp cpu ≡ false → (set_register cpu i value).psp ≡ cpu.psp)
unfolding get_register set_register read_register write_register write_stack_pointer stored
get_register-set_register cpu i j value size hi hj = (
  ground (
    arith,
    bit_and_fifteen i,
    bit_and_fifteen j,
    uses_psp-write cpu i value,
    get_or-set cpu.registers i j value 0,
    get_or-set cpu.registers 13 j (bit_and value (not32 3)) 0,
    get_or-set cpu.registers 15 j (bit_and value (not32 1)) 0,
  ),
  ground (arith, bit_and_fifteen i),
  ground (arith, bit_and_fifteen i),
)
