-- ===== src/Cortex/Constraints/DataProcessing.antt =====
-- constraints.c: the constraints on 32-bit data processing and system instructions.
use kinetis_k22_sim.Base.{
  ℕ, ◌+◌, Bool, true, false, not, ◌&&◌, ◌||◌, ltb, ◌==◌, ◌!=◌, if◌then◌else◌, bit_and, bit_or, flag,
  ◌<<◌, ◌>>◌,
}
use kinetis_k22_sim.Cortex.Constraints.Selected.{register_field, is_stack_or_program_counter}

-- TST, TEQ, CMN and CMP share the codes of AND, EOR, ADD and SUB.
abbrev pub is_comparison : ℕ → Bool
is_comparison operation = operation == 0 || operation == 4 || operation == 8 || operation == 13

abbrev pub modified_immediate : ℕ → ℕ → ℕ
modified_immediate first second =
    bit_or (bit_or (bit_and (first >> 10) 1 << 11) (bit_and (second >> 12) 7 << 8))
      (bit_and second 0xff)

unfoldable pub has_invalid_modified_immediate : ℕ → ℕ → Bool
has_invalid_modified_immediate first second =
    let operation = register_field first 5 in
    let set_flags = flag first 0x10 in
    let source = bit_and first 15 in
    let destination = register_field second 8 in
    let immediate = modified_immediate first second in
    let invalid_replicate =
      bit_and immediate 0xc00 == 0 && flag immediate 0x300 && bit_and immediate 0xff == 0 in
    let source_alias = operation == 2 || operation == 3 in
    if bit_and first 0xfa00 != 0xf000 || flag second 0x8000
    then false
    else invalid_replicate
      || (destination == 15 && (not set_flags || not (is_comparison operation)))
      || (source == 15 && not source_alias)
      || destination == 13

unfoldable pub has_invalid_shifted_register : ℕ → ℕ → Bool
has_invalid_shifted_register first second =
    let operation = register_field first 5 in
    let set_flags = flag first 0x10 in
    let source = bit_and first 15 in
    let destination = register_field second 8 in
    let shifted = bit_and second 15 in
    let source_alias = operation == 2 || operation == 3 in
    let stack_pointer_add = source == 13 && operation == 8 && not set_flags in
    if bit_and first 0xfe00 != 0xea00 || flag second 0x8000
    then false
    else is_stack_or_program_counter shifted
      || destination == 13
      || (destination == 15 && (not set_flags || not (is_comparison operation)))
      || (is_stack_or_program_counter source
          && not (source == 15 && source_alias)
          && not stack_pointer_add)

unfoldable pub has_invalid_plain_register_operation : ℕ → ℕ → Bool
has_invalid_plain_register_operation first second =
    let source = is_stack_or_program_counter (bit_and first 15) in
    let destination = is_stack_or_program_counter (register_field second 8) in
    if bit_and first 0xff80 == 0xfa00 && bit_and second 0xf0c0 == 0xf000
    then source || destination || is_stack_or_program_counter (bit_and second 15)
    else if (bit_and first 0xfff0 == 0xfab0 && bit_and second 0xf0f0 == 0xf080)
        || (bit_and first 0xfff0 == 0xfa90 && bit_and second 0xf0f0 == 0xf0a0)
    then source || destination
    else (bit_and first 0xfbd0 == 0xf300 || bit_and first 0xfbd0 == 0xf380)
      && not (flag second 0x8000)
      && (source || destination)

unfoldable pub has_invalid_bitfield : ℕ → ℕ → Bool
has_invalid_bitfield first second =
    let operation = bit_and first 0xfff0 in
    let source = bit_and first 15 in
    let destination = register_field second 8 in
    let least_bit = bit_or (bit_and (second >> 12) 7 << 2) (bit_and (second >> 6) 3) in
    if (operation != 0xf360 && operation != 0xf340 && operation != 0xf3c0) || flag second 0x8000
    then false
    else if is_stack_or_program_counter destination
        || (operation != 0xf360 && is_stack_or_program_counter source)
        || (operation == 0xf360 && source == 13)
    then true
    else if operation == 0xf360
    then ltb (bit_and second 31) least_bit
    else ltb 32 (least_bit + bit_and second 31 + 1)

abbrev pub is_long_multiply : ℕ → Bool
is_long_multiply operation =
    operation == 0xfba0 || operation == 0xfb80 || operation == 0xfbe0 || operation == 0xfbc0

unfoldable pub has_invalid_divide_or_multiply : ℕ → ℕ → Bool
has_invalid_divide_or_multiply first second =
    let operation = bit_and first 0xfff0 in
    let accumulator = second >> 12 in
    let low = second >> 12 in
    let high = register_field second 8 in
    let left = is_stack_or_program_counter (bit_and first 15) in
    let destination = is_stack_or_program_counter (register_field second 8) in
    let right = is_stack_or_program_counter (bit_and second 15) in
    if (operation == 0xfbb0 || operation == 0xfb90) && bit_and second 0xf0f0 == 0xf0f0
    then left || destination || right
    else if operation == 0xfb00 && bit_and second 0x00f0 == 0
    then left
      || destination
      || right
      || (accumulator != 15 && is_stack_or_program_counter accumulator)
    else is_long_multiply operation
      && bit_and second 0x00f0 == 0
      && (left
          || is_stack_or_program_counter low
          || is_stack_or_program_counter high
          || right
          || low == high)

unfoldable pub has_invalid_system_encoding : ℕ → ℕ → Bool
has_invalid_system_encoding first second =
    let operation = register_field second 4 in
    if first == 0xf3ef && bit_and second 0xf000 == 0x8000
    then is_stack_or_program_counter (register_field second 8)
    else if bit_and first 0xfff0 == 0xf380 && bit_and second 0xff00 == 0x8800
    then is_stack_or_program_counter (bit_and first 15)
    else first == 0xf3bf
      && bit_and second 0xff0f == 0x8f0f
      && operation != 2
      && operation != 4
      && operation != 5
      && operation != 6

unfoldable pub has_invalid_wide_registers : ℕ → ℕ → Bool
has_invalid_wide_registers first second =
    if bit_and first 0xfbf0 == 0xf240 || bit_and first 0xfbf0 == 0xf2c0
    then is_stack_or_program_counter (register_field second 8)
    else if (bit_and first 0xfbf0 == 0xf200 || bit_and first 0xfbf0 == 0xf2a0)
        && not (flag second 0x8000)
    then register_field second 8 == 15
    else bit_and first 0xfff0 == 0xe8d0
      && bit_and second 0xffe0 == 0xf000
      && is_stack_or_program_counter (bit_and second 15)
