-- ===== src/Cortex/Constraints/Selected.antt =====
-- constraints.c: fields of an opcode that name registers, and lists of registers.
use kinetis_k22_sim.Base.{
  ℕ, zero, suc, ◌+◌, ◌-◌, Bool, ◌&&◌, ◌||◌, ◌==◌, ◌!=◌, if◌then◌else◌, bit_and, flag, u8, ◌<<◌,
  ◌>>◌,
}
use kinetis_k22_sim.Cortex.State.{Cpu}

-- A field of four digits of an opcode.
abbrev pub register_field : ℕ → ℕ → ℕ
register_field opcode shift = bit_and (opcode >> shift) 15

abbrev pub is_stack_or_program_counter : ℕ → Bool
is_stack_or_program_counter index = index == 13 || index == 15

-- The loop of `count_selected_registers`: at most `fuel` digits are left. The list has 16 digits.
unfoldable pub count_digits : ℕ → ℕ → ℕ → ℕ
count_digits zero registers count = count
count_digits (suc fuel) registers count =
    let rest = count_digits fuel (registers >> 1) (u8 (count + bit_and registers 1)) in
    if registers == 0 then count else rest

abbrev pub count_selected_registers : ℕ → ℕ
count_selected_registers registers = count_digits 16 registers 0

unfoldable pub has_lower_selected_register : ℕ → ℕ → Bool
has_lower_selected_register registers index = index != 0 && flag registers ((1 << index) - 1)

abbrev pub is_nonfinal_it_instruction : Cpu → Bool
is_nonfinal_it_instruction cpu = cpu.it_state != 0 && flag cpu.it_state 7
