-- ===== src/Cortex/Constraints/Check.antt =====
-- constraints.c: whether an instruction may be executed.
use kinetis_k22_sim.Base.{
  ℕ, Bool, true, not, ◌&&◌, ◌||◌, ltb, leb, ◌==◌, ◌!=◌, if◌then◌else◌, bit_and, flag, u8, ◌<<◌,
  ◌>>◌,
}
use kinetis_k22_sim.Cortex.State.{Cpu, is_armv6_m}
use kinetis_k22_sim.Cortex.Constraints.Selected.{register_field, is_nonfinal_it_instruction}
use kinetis_k22_sim.Cortex.Constraints.Thumb16.{Disposition, execute, undefined, check_thumb16}
use kinetis_k22_sim.Cortex.Constraints.DataProcessing.{
  is_comparison, has_invalid_modified_immediate, has_invalid_shifted_register,
  has_invalid_plain_register_operation, has_invalid_bitfield, has_invalid_divide_or_multiply,
  has_invalid_system_encoding, has_invalid_wide_registers,
}
use kinetis_k22_sim.Cortex.Constraints.LoadStore.{
  has_invalid_doubleword, has_invalid_multiple, has_invalid_exclusive, is_memory_operation,
  has_invalid_memory,
}

-- BL, B and the conditional B.
abbrev pub is_wide_branch : ℕ → ℕ → Bool
is_wide_branch first second =
    let branch = bit_and second 0xd000 in
    bit_and first 0xf800 == 0xf000
    && (branch == 0xd000
        || branch == 0x9000
        || (branch == 0x8000 && ltb (register_field first 6) 14))

-- A load multiple with the program counter in its list.
abbrev pub loads_pc_multiple : ℕ → ℕ → Bool
loads_pc_multiple first second =
    (bit_and first 0xffd0 == 0xe890 || (bit_and first 0xffc0 == 0xe900 && flag first 0x0010))
    && flag second (1 << 15)

unfoldable pub writes_pc_in_thumb32 : ℕ → ℕ → Bool
writes_pc_in_thumb32 first second =
    let operation = bit_and first 0xfff0 in
    let wide = bit_and first 0xfbf0 in
    if is_wide_branch first second
    then true
    else if operation == 0xe8d0 && bit_and second 0xffe0 == 0xf000
    then true
    else if loads_pc_multiple first second
    then true
    else if is_memory_operation operation && flag operation 0x0010 && second >> 12 == 15
    then true
    else if bit_and first 0xfa00 == 0xf000 || bit_and first 0xfe00 == 0xea00
    then register_field second 8 == 15
      && (not (flag first 0x0010) || not (is_comparison (register_field first 5)))
    else (wide == 0xf200 || wide == 0xf2a0 || wide == 0xf240 || wide == 0xf2c0)
      && register_field second 8 == 15

unfoldable pub is_invalid_thumb32 : ℕ → ℕ → Bool
is_invalid_thumb32 first second =
    has_invalid_modified_immediate first second
    || has_invalid_shifted_register first second
    || has_invalid_plain_register_operation first second
    || has_invalid_bitfield first second
    || has_invalid_divide_or_multiply first second
    || has_invalid_doubleword first second
    || has_invalid_multiple first second
    || has_invalid_exclusive first second
    || has_invalid_memory first second
    || has_invalid_system_encoding first second
    || has_invalid_wide_registers first second

unfoldable pub check_thumb32 : Cpu → ℕ → ℕ → Disposition
check_thumb32 cpu first second =
    if is_invalid_thumb32 first second
    then undefined
    else if is_nonfinal_it_instruction cpu && writes_pc_in_thumb32 first second
    then undefined
    else execute

abbrev pub armv6_m_special_register : ℕ → Bool
armv6_m_special_register selector =
    leb selector 3 || (leb 5 selector && leb selector 9) || selector == 16 || selector == 20

pub armv6_m_wide_instruction : ℕ → ℕ → Bool
armv6_m_wide_instruction first second =
    let operation = register_field second 4 in
    if bit_and first 0xf800 == 0xf000 && bit_and second 0xd000 == 0xd000
    then true
    else if first == 0xf3ef && bit_and second 0xf000 == 0x8000
    then armv6_m_special_register (u8 second)
    else if bit_and first 0xfff0 == 0xf380 && bit_and second 0xff00 == 0x8800
    then armv6_m_special_register (u8 second)
    else first == 0xf3bf && bit_and second 0xff0f == 0x8f0f && leb 4 operation && leb operation 6

pub check_armv6_m : Cpu → ℕ → ℕ → Bool → Disposition
check_armv6_m cpu first second wide =
    if wide
    then (if armv6_m_wide_instruction first second then execute else undefined)
    else if bit_and first 0xff00 == 0xbf00 && flag first 15
    then undefined
    else if bit_and first 0xf500 == 0xb100
    then undefined
    else if bit_and first 0xffe0 == 0xb660 && bit_and first 7 != 2
    then undefined
    else check_thumb16 cpu first

-- `cortex_m4_check_instruction_constraints`.
unfoldable pub check_instruction_constraints : Cpu → ℕ → ℕ → Bool → Disposition
check_instruction_constraints cpu first second wide =
    if is_armv6_m cpu.architecture
    then check_armv6_m cpu first second wide
    else if wide
    then check_thumb32 cpu first second
    else check_thumb16 cpu first
