-- ===== src/Cortex/Dsp/Multiply.antt =====
-- dsp.c: the multiplications.
use kinetis_k22_sim.Base.{
  ℕ, ◌+◌, ◌-◌, ◌*◌, ◌^◌, Bool, not, ◌&&◌, ◌||◌, leb, ◌==◌, ◌!=◌, if◌then◌else◌, bit_and, bit_or,
  flag, u32, u64, sub32, ◌<<◌, ◌>>◌, ◌!◌, Option, some, none,
}
use kinetis_k22_sim.Base.Int.{ℤ, pos, negsuc, ltb_ℤ, ◌+ℤ◌, ◌-ℤ◌, ◌*ℤ◌, signed, to_word}
use kinetis_k22_sim.Cortex.State.{Cpu}
use kinetis_k22_sim.Cortex.Dsp.Lanes.{
  valid_general_register, low_field, destination_field, are_valid, valid_accumulator, put,
  floor_divide,
}
use kinetis_k22_sim.Cortex.Dsp.Saturation.{xpsr_q}

abbrev pub selected_half : ℕ → Bool → ℤ
selected_half value top = if top then signed 16 (value >> 16) else signed 16 value

pub set_q_on_i32_overflow : Cpu → ℤ → Cpu
set_q_on_i32_overflow cpu value =
    if ltb_ℤ value (negsuc (2 ^ 31 - 1)) || ltb_ℤ (pos (2 ^ 31 - 1)) value
    then record cpu { xpsr = bit_or cpu.xpsr xpsr_q }
    else cpu

abbrev pub accumulated : Cpu → ℕ → ℤ → ℤ
accumulated cpu accumulator product =
    if accumulator == 15 then product else product +ℤ signed 32 (cpu.registers ! accumulator)

pub execute_half_multiply : Cpu → ℕ → ℕ → Option Cpu
execute_half_multiply cpu first second =
    let operation = bit_and first 0xfff0 in
    let accumulator = second >> 12 in
    let left = cpu.registers ! low_field first in
    let right = selected_half (cpu.registers ! low_field second) (flag second 0x10) in
    let product =
      if operation == 0xfb10
      then selected_half left (flag second 0x20) *ℤ right
      else floor_divide (signed 32 left *ℤ right) 65536 in
    let result = accumulated cpu accumulator product in
    let flagged = if accumulator != 15 then set_q_on_i32_overflow cpu result else cpu in
    if (operation != 0xfb10 && operation != 0xfb30)
      || flag second 0x00c0
      || (operation == 0xfb30 && flag second 0x20)
    then none
    else if not (are_valid first second) || not (valid_accumulator accumulator)
    then none
    else some (put flagged (destination_field second) (to_word 32 result))

-- `right` with its halves exchanged, for the X forms.
abbrev pub exchanged : ℕ → ℕ
exchanged right = bit_or (u32 (right << 16)) (right >> 16)

-- The sum or the difference of the products of the low and of the high halves.
abbrev pub dual_product : Bool → ℕ → ℕ → ℤ
dual_product subtract left right =
    let low_product = signed 16 left *ℤ signed 16 right in
    let high_product = signed 16 (left >> 16) *ℤ signed 16 (right >> 16) in
    if subtract then low_product -ℤ high_product else low_product +ℤ high_product

pub execute_dual_multiply : Cpu → ℕ → ℕ → Option Cpu
execute_dual_multiply cpu first second =
    let operation = bit_and first 0xfff0 in
    let accumulator = second >> 12 in
    let left = cpu.registers ! low_field first in
    let plain = cpu.registers ! low_field second in
    let right = if flag second 0x10 then exchanged plain else plain in
    let products = dual_product (operation != 0xfb20) left right in
    let result = accumulated cpu accumulator products in
    if (operation != 0xfb20 && operation != 0xfb40) || flag second 0x00e0
    then none
    else if not (are_valid first second) || not (valid_accumulator accumulator)
    then none
    else some
        (put (set_q_on_i32_overflow cpu result) (destination_field second) (to_word 32 result))

abbrev pub is_dual_suboperation : ℕ → Bool
is_dual_suboperation suboperation = suboperation == 12 || suboperation == 13

abbrev pub is_half_product : ℕ → ℕ → Bool
is_half_product operation suboperation =
    operation == 0xfbc0 && leb 8 suboperation && leb suboperation 11

abbrev pub is_umaal : ℕ → ℕ → Bool
is_umaal operation suboperation = operation == 0xfbe0 && suboperation == 6

abbrev pub is_long_dsp : ℕ → ℕ → Bool
is_long_dsp operation suboperation =
    is_half_product operation suboperation
    || (operation == 0xfbc0 && is_dual_suboperation suboperation)
    || (operation == 0xfbd0 && is_dual_suboperation suboperation)
    || is_umaal operation suboperation

-- The product that is added to the accumulator, without UMAAL.
abbrev pub long_product : ℕ → ℕ → ℕ → ℕ → ℤ
long_product operation suboperation left right =
    let second_operand = if flag suboperation 1 then exchanged right else right in
    if is_half_product operation suboperation
    then selected_half left (flag suboperation 2) *ℤ selected_half right (flag suboperation 1)
    else dual_product (operation == 0xfbd0) left second_operand

pub execute_long_dsp_multiply : Cpu → ℕ → ℕ → Option Cpu
execute_long_dsp_multiply cpu first second =
    let operation = bit_and first 0xfff0 in
    let suboperation = bit_and (second >> 4) 15 in
    let left = cpu.registers ! low_field first in
    let right = cpu.registers ! low_field second in
    let low_destination = second >> 12 in
    let high_destination = destination_field second in
    let low = cpu.registers ! low_destination in
    let high = cpu.registers ! high_destination in
    let product = to_word 64 (long_product operation suboperation left right) in
    let result =
      if is_umaal operation suboperation
      then u64 (left * right + low + high)
      else u64 (bit_or (high << 32) low + product) in
    if not (is_long_dsp operation suboperation)
    then none
    else if not (are_valid first second)
        || not (valid_general_register low_destination)
        || low_destination == high_destination
    then none
    else some (put (put cpu low_destination (u32 result)) high_destination (u32 (result >> 32)))

pub execute_most_significant_multiply : Cpu → ℕ → ℕ → Option Cpu
execute_most_significant_multiply cpu first second =
    let operation = bit_and first 0xfff0 in
    let accumulator = second >> 12 in
    let left = cpu.registers ! low_field first in
    let right = cpu.registers ! low_field second in
    let product = to_word 64 (signed 32 left *ℤ signed 32 right) in
    let accumulator_bits = if accumulator == 15 then 0 else cpu.registers ! accumulator << 32 in
    let sum =
      if operation == 0xfb60
      then u64 (accumulator_bits + (2 ^ 64 - product))
      else u64 (accumulator_bits + product) in
    let result = if flag second 0x10 then u64 (sum + 0x80000000) else sum in
    if (operation != 0xfb50 && operation != 0xfb60) || flag second 0x00e0
    then none
    else if not (are_valid first second)
        || not (valid_accumulator accumulator)
        || (operation == 0xfb60 && accumulator == 15)
    then none
    else some (put cpu (destination_field second) (u32 (result >> 32)))

pub execute_multiply_subtract : Cpu → ℕ → ℕ → Option Cpu
execute_multiply_subtract cpu first second =
    let accumulator = second >> 12 in
    let left = cpu.registers ! low_field first in
    let right = cpu.registers ! low_field second in
    let result = sub32 (cpu.registers ! accumulator) (u32 (left * right)) in
    if bit_and first 0xfff0 != 0xfb00 || bit_and second 0x00f0 != 0x0010
    then none
    else if not (are_valid first second) || not (valid_general_register accumulator)
    then none
    else some (put cpu (destination_field second) result)
