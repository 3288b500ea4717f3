-- ===== src/Cortex/Dsp/Saturation.antt =====
-- dsp.c: SSAT, USAT, SSAT16, USAT16, and the saturating additions and subtractions.
use kinetis_k22_sim.Base.{
  ℕ, ◌+◌, Bool, false, not, ◌&&◌, ◌||◌, ◌==◌, ◌!=◌, if◌then◌else◌, bit_and, bit_or, flag, ◌<<◌,
  ◌>>◌, ◌!◌, Option, some, none,
}
use kinetis_k22_sim.Base.Int.{ℤ, pos, ◌+ℤ◌, ◌-ℤ◌, ◌*ℤ◌, signed}
use kinetis_k22_sim.Cortex.State.{Cpu}
use kinetis_k22_sim.Cortex.Alu.{shift}
use kinetis_k22_sim.Cortex.Dsp.Lanes.{
  valid_general_register, low_field, destination_field, are_valid, put, signed_saturate,
  unsigned_saturate, extract_signed_lane, insert_lane, shift_amount,
}

abbrev pub xpsr_q : ℕ
xpsr_q = 1 << 27

-- A result that sets the Q flag if it was saturated.
unfoldable pub put_saturated : Cpu → ℕ → ℕ × Bool → Cpu
put_saturated cpu destination (value, saturated) =
    let written = put cpu destination value in
    if saturated then record written { xpsr = bit_or cpu.xpsr xpsr_q } else written

abbrev pub saturate : Bool → ℤ → ℕ → Bool → ℕ × Bool
saturate unsigned value width saturated =
    if unsigned
    then unsigned_saturate value width saturated
    else signed_saturate value width saturated

abbrev pub valid_pair : ℕ → ℕ → Bool
valid_pair first second =
    valid_general_register (low_field first) && valid_general_register (destination_field second)

pub execute_scalar_saturation : Cpu → ℕ → ℕ → Option Cpu
execute_scalar_saturation cpu first second =
    let is_unsigned_result = flag first 0x80 in
    let shift_type = if flag first 0x20 then 2 else 0 in
    let shifted =
      (shift (cpu.registers ! low_field first) shift_type (shift_amount second) false).value in
    let width = if is_unsigned_result then bit_and second 31 else bit_and second 31 + 1 in
    if (bit_and first 0xfbd0 != 0xf300 && bit_and first 0xfbd0 != 0xf380) || flag second 0x8000
    then none
    else if not (valid_pair first second)
    then none
    else some (
        put_saturated cpu (destination_field second)
          (saturate is_unsigned_result (signed 32 shifted) width false))

-- The two lanes, with the flag of the first passed on to the second.
abbrev pub saturated_lanes : Bool → ℕ → ℕ → ℕ × Bool
saturated_lanes unsigned word width =
    let low = saturate unsigned (extract_signed_lane word 0 16) width false in
    let high = saturate unsigned (extract_signed_lane word 1 16) width (low.1) in
    (insert_lane (insert_lane 0 (low.0) 0 16) (high.0) 1 16, high.1)

pub execute_lane_saturation : Cpu → ℕ → ℕ → Option Cpu
execute_lane_saturation cpu first second =
    let operation = bit_and first 0xfff0 in
    let is_unsigned_result = operation == 0xf3a0 in
    let width = if is_unsigned_result then bit_and second 15 else bit_and second 15 + 1 in
    if (operation != 0xf320 && operation != 0xf3a0) || flag second 0xf0f0
    then none
    else if not (valid_pair first second)
    then none
    else some (
        put_saturated cpu (destination_field second)
          (saturated_lanes is_unsigned_result (cpu.registers ! low_field first) width))

-- The result of QADD, QDADD, QSUB and QDSUB (operations 0 to 3).
unfoldable pub scalar_q : ℕ → ℕ → ℕ → ℕ × Bool
scalar_q operation left right =
    let doubled = signed_saturate (signed 32 right *ℤ pos 2) 32 false in
    let doubles = operation == 1 || operation == 3 in
    let operand = if doubles then signed 32 (doubled.0) else signed 32 right in
    let arithmetic =
      if operation == 2 || operation == 3
      then signed 32 left -ℤ operand
      else signed 32 left +ℤ operand in
    signed_saturate arithmetic 32 (doubles && doubled.1)

unfoldable pub execute_scalar_q : Cpu → ℕ → ℕ → Option Cpu
execute_scalar_q cpu first second =
    let operation = bit_and (second >> 4) 3 in
    let right = cpu.registers ! low_field first in
    let left = cpu.registers ! low_field second in
    if bit_and first 0xfff0 != 0xfa80
      || bit_and second 0xf080 != 0xf080
      || not (are_valid first second)
    then none
    else some (put_saturated cpu (destination_field second) (scalar_q operation left right))
