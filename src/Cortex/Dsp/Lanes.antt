-- ===== src/Cortex/Dsp/Lanes.antt =====
-- dsp.c: saturation, the lanes of a word, and the instructions that rearrange lanes.
use kinetis_k22_sim.Base.{
  ℕ, ◌+◌, ◌-◌, ◌*◌, ◌/◌, ◌^◌, ◌%◌, Bool, true, false, not, ◌&&◌, ◌||◌, ltb, leb, ◌==◌, ◌!=◌,
  if◌then◌else◌, bit_and, bit_or, flag, u32, ◌<<◌, ◌>>◌, ◌!◌, set, for_range, Option, some, none,
}
use kinetis_k22_sim.Base.Int.{ℤ, pos, negsuc, ltb_ℤ, ◌-ℤ◌, negate, signed, to_word}
use kinetis_k22_sim.Cortex.State.{Cpu}
use kinetis_k22_sim.Cortex.Alu.{shift}

abbrev pub valid_general_register : ℕ → Bool
valid_general_register index = index != 13 && index != 15

-- The fields of an opcode pair: `first & 15`, `second & 15`, `second >> 8 & 15` and `second >> 12`.
abbrev pub low_field : ℕ → ℕ
low_field half = bit_and half 15

abbrev pub destination_field : ℕ → ℕ
destination_field second = bit_and (second >> 8) 15

abbrev pub are_valid : ℕ → ℕ → Bool
are_valid first second =
    valid_general_register (low_field first)
    && valid_general_register (destination_field second)
    && valid_general_register (low_field second)

abbrev pub put : Cpu → ℕ → ℕ → Cpu
put cpu index value = record cpu { registers = set cpu.registers index value }

abbrev pub rotate_right_word : ℕ → ℕ → ℕ
rotate_right_word value amount =
    if amount == 0 then value else bit_or (value >> amount) (u32 (value << (32 - amount)))

-- Division in C goes towards 0; the remainder of a negative value takes one more.
pub floor_divide : ℤ → ℕ → ℤ
floor_divide (pos n) divisor = pos (n / divisor)
floor_divide (negsuc n) divisor =
    let quotient = negate (pos ((n + 1) / divisor)) in
    if (n + 1) % divisor != 0 then quotient -ℤ pos 1 else quotient

-- The result, and what the call leaves in `*saturated`.
unfoldable pub signed_saturate : ℤ → ℕ → Bool → ℕ × Bool
signed_saturate value width saturated =
    let minimum = negsuc (2 ^ (width - 1) - 1) in
    let maximum = pos (2 ^ (width - 1) - 1) in
    if ltb_ℤ value minimum
    then (to_word 32 minimum, true)
    else if ltb_ℤ maximum value
    then (to_word 32 maximum, true)
    else (to_word 32 value, saturated)

pub unsigned_saturate : ℤ → ℕ → Bool → ℕ × Bool
unsigned_saturate value width saturated =
    let maximum = 2 ^ width - 1 in
    if ltb_ℤ value (pos 0)
    then (0, true)
    else if ltb_ℤ (pos maximum) value
    then (u32 maximum, true)
    else (to_word 32 value, saturated)

abbrev pub extract_signed_lane : ℕ → ℕ → ℕ → ℤ
extract_signed_lane value lane width =
    if width == 8 then signed 8 (value >> (lane * 8)) else signed 16 (value >> (lane * 16))

abbrev pub extract_unsigned_lane : ℕ → ℕ → ℕ → ℕ
extract_unsigned_lane value lane width = bit_and (value >> (lane * width)) ((1 << width) - 1)

abbrev pub insert_lane : ℕ → ℕ → ℕ → ℕ → ℕ
insert_lane result value lane width =
    bit_or result (u32 (bit_and value ((1 << width) - 1) << (lane * width)))

-- `imm3:imm2` of the second half.
abbrev pub shift_amount : ℕ → ℕ
shift_amount second = bit_or (bit_and (second >> 12) 7 << 2) (bit_and (second >> 6) 3)

pub execute_pack : Cpu → ℕ → ℕ → Option Cpu
execute_pack cpu first second =
    let amount = shift_amount second in
    let left = cpu.registers ! low_field first in
    let right = cpu.registers ! low_field second in
    let shifted = (shift right 2 amount false).value in
    let packed =
      if not (flag second 0x20)
      then bit_or (bit_and left 0xffff) (bit_and (u32 (right << amount)) 0xffff0000)
      else bit_or (bit_and left 0xffff0000) (bit_and shifted 0xffff) in
    if bit_and first 0xfff0 != 0xeac0 || flag second 0x8010 || not (are_valid first second)
    then none
    else some (put cpu (destination_field second) packed)

-- `(uint32_t)(int32_t)(int8_t)value` and the like.
abbrev pub sign_extend : ℕ → ℕ → ℕ
sign_extend width value = to_word 32 (signed width value)

abbrev pub extended : ℕ → ℕ → ℕ → ℕ
extended operation base rotated =
    let byte = λ (value : ℕ).
      if operation == 2 || operation == 4 then sign_extend 8 value else bit_and value 0xff in
    let half = if operation == 0 then sign_extend 16 rotated else bit_and rotated 0xffff in
    let low = insert_lane 0 (u32 (bit_and base 0xffff + byte rotated)) 0 16 in
    if operation == 0 || operation == 1
    then u32 (base + half)
    else if operation == 2 || operation == 3
    then insert_lane low (u32 ((base >> 16) + byte (rotated >> 16))) 1 16
    else u32 (base + byte rotated)

pub execute_extend : Cpu → ℕ → ℕ → Option Cpu
execute_extend cpu first second =
    let operation = bit_and (first >> 4) 7 in
    let accumulator = low_field first in
    let destination = destination_field second in
    let source = low_field second in
    let rotated = rotate_right_word (cpu.registers ! source) (bit_and (second >> 4) 3 * 8) in
    let base = if accumulator == 15 then 0 else cpu.registers ! accumulator in
    if bit_and first 0xff80 != 0xfa00 || bit_and second 0xf080 != 0xf080
    then none
    else if ltb 5 operation
        || (not (valid_general_register accumulator) && accumulator != 15)
        || not (valid_general_register destination)
        || not (valid_general_register source)
    then none
    else some (put cpu destination (extended operation base rotated))

abbrev pub select_lane : Cpu → ℕ → ℕ → ℕ → ℕ
select_lane cpu left right lane =
    let source = if flag cpu.xpsr (1 << (16 + lane)) then left else right in source >> (lane * 8)

pub execute_select : Cpu → ℕ → ℕ → Option Cpu
execute_select cpu first second =
    let left = cpu.registers ! low_field first in
    let right = cpu.registers ! low_field second in
    let result =
      for_range 4 0 (λ lane result. insert_lane result (select_lane cpu left right lane) lane 8)
        0 in
    if bit_and first 0xfff0 != 0xfaa0
      || bit_and second 0xf0f0 != 0xf080
      || not (are_valid first second)
    then none
    else some (put cpu (destination_field second) result)

abbrev pub byte_difference : ℕ → ℕ → ℕ → ℕ
byte_difference left right lane =
    let l = extract_unsigned_lane left lane 8 in
    let r = extract_unsigned_lane right lane 8 in if leb r l then l - r else r - l

-- A register field that may be 15, for no accumulator.
abbrev pub valid_accumulator : ℕ → Bool
valid_accumulator accumulator = valid_general_register accumulator || accumulator == 15

pub execute_absolute_difference : Cpu → ℕ → ℕ → Option Cpu
execute_absolute_difference cpu first second =
    let accumulator = second >> 12 in
    let left = cpu.registers ! low_field first in
    let right = cpu.registers ! low_field second in
    let start = if accumulator == 15 then 0 else cpu.registers ! accumulator in
    let result = for_range 4 0 (λ lane sum. u32 (sum + byte_difference left right lane)) start in
    if bit_and first 0xfff0 != 0xfb70 || flag second 0x00f0
    then none
    else if not (are_valid first second) || not (valid_accumulator accumulator)
    then none
    else some (put cpu (destination_field second) result)
