-- ===== src/Cortex/Constraints/Examples.antt =====
-- STMDB SP!, {R4-R7, LR} and other instructions.
use kinetis_k22_sim.Base.{
  ◌≤◌, true, false, not, ◌&&◌, ◌==◌, ltb, bit_and, bit, flag, refl, ◌≡◌, arith,
}
use kinetis_k22_sim.Cortex.Sample.{core}
use kinetis_k22_sim.Cortex.Constraints.Selected.{
  is_nonfinal_it_instruction, has_lower_selected_register, count_digits,
}
use kinetis_k22_sim.Cortex.Constraints.Thumb16.{
  execute, undefined, breakpoint, check_thumb16, has_invalid_thumb16_registers,
}
use kinetis_k22_sim.Cortex.Constraints.LoadStore.{
  is_multiple, is_memory_operation, has_invalid_doubleword, has_invalid_multiple,
  has_invalid_exclusive, has_invalid_memory,
}
use kinetis_k22_sim.Cortex.Constraints.DataProcessing.{
  has_invalid_modified_immediate, has_invalid_shifted_register,
  has_invalid_plain_register_operation, has_invalid_bitfield, has_invalid_divide_or_multiply,
  has_invalid_system_encoding, has_invalid_wide_registers,
}
use kinetis_k22_sim.Cortex.Constraints.Check.{
  check_instruction_constraints, check_thumb32, is_invalid_thumb32, writes_pc_in_thumb32,
}
use kinetis_k22_sim.Cortex.Constraints.Multiple.{selected, check-multiple}

push_is_multiple : is_multiple 0xe92d ≡ true
push_is_multiple = refl

push_executes : check_instruction_constraints core 0xe92d 0x40f0 true ≡ execute
unfolding check_instruction_constraints check_thumb32 is_invalid_thumb32
    has_invalid_modified_immediate has_invalid_shifted_register has_invalid_plain_register_operation
    has_invalid_bitfield has_invalid_divide_or_multiply has_invalid_doubleword has_invalid_multiple
    has_invalid_exclusive has_invalid_memory has_invalid_system_encoding has_invalid_wide_registers
    is_memory_operation has_lower_selected_register count_digits writes_pc_in_thumb32 flag
push_executes = refl

check-multiple_example :
    ((bit_and 0xe92d 15 == 15) ≡ false)
    × (bit 0x40f0 13 ≡ false)
    × (2 ≤ selected 16 0x40f0)
    × ((not (flag 0xe92d 0x10) && bit 0x40f0 15) ≡ false)
    × ((flag 0xe92d 0x10 && bit 0x40f0 14 && bit 0x40f0 15) ≡ false)
    × ((flag 0xe92d 0x10 && (flag 0xe92d 0x20 && bit 0x40f0 (bit_and 0xe92d 15))) ≡ false)
    × ((not (flag 0xe92d 0x10)
          && (flag 0xe92d 0x20 && bit 0x40f0 (bit_and 0xe92d 15))
          && ltb 4 (bit_and 0xe92d 15)
          && bit 0x40f0 4)
        ≡ false)
    × ((is_nonfinal_it_instruction core && flag 0xe92d 0x10 && bit 0x40f0 15) ≡ false)
check-multiple_example =
    check-multiple core 0xe92d 0x40f0 4 refl push_is_multiple (omega arith) push_executes

breakpoint_test : check_thumb16 core 0xbe12 ≡ breakpoint
unfolding check_thumb16
breakpoint_test = refl

empty_pop_test : check_thumb16 core 0xbc00 ≡ undefined
unfolding check_thumb16 has_invalid_thumb16_registers flag
empty_pop_test = refl

lone_register_test : check_instruction_constraints core 0xe92d 0x0010 true ≡ undefined
unfolding check_instruction_constraints check_thumb32 is_invalid_thumb32
    has_invalid_modified_immediate has_invalid_shifted_register has_invalid_plain_register_operation
    has_invalid_bitfield has_invalid_divide_or_multiply has_invalid_doubleword has_invalid_multiple
    has_invalid_exclusive has_invalid_memory has_invalid_system_encoding has_invalid_wide_registers
    is_memory_operation has_lower_selected_register count_digits writes_pc_in_thumb32 flag
lone_register_test = refl
