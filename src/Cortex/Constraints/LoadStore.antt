-- ===== src/Cortex/Constraints/LoadStore.antt =====
-- constraints.c: the constraints on 32-bit loads and stores.
use kinetis_k22_sim.Base.{
  ℕ, Bool, true, false, not, ◌&&◌, ◌||◌, ltb, ◌==◌, ◌!=◌, if◌then◌else◌, bit_and, flag, ◌<<◌, ◌>>◌,
}
use kinetis_k22_sim.Cortex.Constraints.Selected.{
  register_field, is_stack_or_program_counter, count_selected_registers,
  has_lower_selected_register,
}

unfoldable pub has_invalid_doubleword : ℕ → ℕ → Bool
has_invalid_doubleword first second =
    let pre_index = flag first 0x0100 in
    let add = flag first 0x0080 in
    let write_back = flag first 0x0020 in
    let load = flag first 0x0010 in
    let base = bit_and first 15 in
    let first_target = second >> 12 in
    let second_target = register_field second 8 in
    let literal = load && base == 15 && pre_index && add && not write_back in
    if bit_and first 0xfe40 != 0xe840
      || not (flag first 0x0040)
      || (not (flag first 0x0100) && not (flag first 0x0020))
    then false
    else is_stack_or_program_counter first_target
      || is_stack_or_program_counter second_target
      || (load && first_target == second_target)
      || (base == 15 && not literal)
      || (write_back && (base == first_target || base == second_target))

abbrev pub is_multiple : ℕ → Bool
is_multiple first =
    bit_and first 0xffc0 == 0xe900
    || bit_and first 0xffd0 == 0xe880
    || bit_and first 0xffd0 == 0xe890

unfoldable pub has_invalid_multiple : ℕ → ℕ → Bool
has_invalid_multiple first second =
    let load = flag first 0x0010 in
    let write_back = flag first 0x0020 in
    let base = bit_and first 15 in
    if not (is_multiple first)
    then false
    else if base == 15
        || flag second (1 << 13)
        || ltb (count_selected_registers second) 2
        || (not load && flag second (1 << 15))
        || (load && bit_and second 0xc000 == 0xc000)
    then true
    else if not write_back || not (flag second (1 << base))
    then false
    else load || has_lower_selected_register second base

-- A store of a reservation with the register of its status.
abbrev pub is_invalid_store_exclusive : ℕ → ℕ → ℕ → Bool
is_invalid_store_exclusive base target status =
    is_stack_or_program_counter base
    || is_stack_or_program_counter target
    || is_stack_or_program_counter status
    || status == base
    || status == target

unfoldable pub has_invalid_exclusive : ℕ → ℕ → Bool
has_invalid_exclusive first second =
    let operation = bit_and first 0xfff0 in
    let base = bit_and first 15 in
    let target = second >> 12 in
    let load = is_stack_or_program_counter base || is_stack_or_program_counter target in
    if operation == 0xe850 && bit_and second 0x0f00 == 0x0f00
    then load
    else if operation == 0xe840 && not (flag second 0x0800)
    then is_invalid_store_exclusive base target (register_field second 8)
    else if operation == 0xe8d0 && bit_and second 0x0f0f == 0x0f0f
    then load
    else operation == 0xe8c0
      && bit_and second 0x0f00 == 0x0f00
      && is_invalid_store_exclusive base target (bit_and second 15)

unfoldable pub is_memory_operation : ℕ → Bool
is_memory_operation operation =
    operation == 0xf800
    || operation == 0xf810
    || operation == 0xf820
    || operation == 0xf830
    || operation == 0xf840
    || operation == 0xf850
    || operation == 0xf880
    || operation == 0xf890
    || operation == 0xf8a0
    || operation == 0xf8b0
    || operation == 0xf8c0
    || operation == 0xf8d0
    || operation == 0xf910
    || operation == 0xf930
    || operation == 0xf990
    || operation == 0xf9b0

abbrev pub is_indexed_family : ℕ → Bool
is_indexed_family operation =
    operation == 0xf800
    || operation == 0xf810
    || operation == 0xf820
    || operation == 0xf830
    || operation == 0xf840
    || operation == 0xf850
    || operation == 0xf910
    || operation == 0xf930

unfoldable pub has_invalid_memory : ℕ → ℕ → Bool
has_invalid_memory first second =
    let operation = bit_and first 0xfff0 in
    let base = bit_and first 15 in
    let target = second >> 12 in
    let is_load = flag operation 0x0010 in
    let is_word = flag operation 0x0040 in
    let pre_index = flag second 0x0400 in
    let write_back = flag second 0x0100 in
    if not (is_memory_operation operation)
    then false
    else if target == 13 || (not is_load && target == 15)
    then true
    else if not (is_indexed_family operation)
    then base == 15 && not is_load
    else if base == 15
    then true
    else if bit_and second 0x0fc0 == 0
    then is_stack_or_program_counter (bit_and second 15) || (target == 15 && not is_word)
    else if bit_and second 0x0f00 == 0x0e00
    then is_stack_or_program_counter target
    else if not (flag second 0x0800)
    then true
    else (not pre_index && not write_back)
      || (write_back && base == target)
      || (target == 15 && not is_word)
