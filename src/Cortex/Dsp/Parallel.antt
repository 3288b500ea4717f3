-- ===== src/Cortex/Dsp/Parallel.antt =====
-- dsp.c: parallel addition and subtraction of bytes and halfwords.
use kinetis_k22_sim.Base.{
  ℕ, ◌+◌, ◌-◌, ◌*◌, ◌^◌, Bool, false, not, ◌&&◌, ◌||◌, leb, ◌==◌, ◌!=◌, if◌then◌else◌, bit_and,
  bit_or, not32, ◌<<◌, ◌>>◌, ◌!◌, for_range, Option, some, none,
}
use kinetis_k22_sim.Base.Int.{ℤ, pos, ltb_ℤ, ◌+ℤ◌, ◌-ℤ◌, to_word}
use kinetis_k22_sim.Cortex.State.{Cpu}
use kinetis_k22_sim.Cortex.Dsp.Lanes.{
  low_field, destination_field, are_valid, put, floor_divide, signed_saturate, unsigned_saturate,
  extract_signed_lane, extract_unsigned_lane, insert_lane,
}

abbrev pub set_greater_equal_flags : Cpu → ℕ → Cpu
set_greater_equal_flags cpu ge = record cpu {
  xpsr = bit_or (bit_and cpu.xpsr (not32 (15 << 16))) (ge << 16);
}

-- `resolve_parallel_lanes`: the lane of the right operand, and whether it is subtracted. The lane of
-- the left operand is the lane of the result.
abbrev pub is_exchanged : ℕ → Bool
is_exchanged operation = operation == 2 || operation == 6

abbrev pub right_lane : ℕ → ℕ → ℕ → ℕ
right_lane operation lane lane_count =
    if is_exchanged operation then lane_count - 1 - lane else lane

abbrev pub subtracts : ℕ → ℕ → Bool
subtracts operation lane =
    if operation == 2
    then lane == 0
    else if operation == 6
    then lane != 0
    else operation == 4 || operation == 5

abbrev pub is_saturating : ℕ → Bool
is_saturating mode = mode == 1 || mode == 5

abbrev pub is_halving : ℕ → Bool
is_halving mode = mode == 2 || mode == 6

abbrev pub combined : Bool → ℤ → ℤ → ℤ
combined subtract left right = if subtract then left -ℤ right else left +ℤ right

-- A lane of unsigned operands: its result, and whether it sets its GE bits.
pub unsigned_lane : ℕ → ℕ → Bool → ℕ → ℕ → ℕ × Bool
unsigned_lane mode width subtract left right =
    let arithmetic = combined subtract (pos left) (pos right) in
    let mask = 2 ^ (width + 1) - 1 in
    if is_saturating mode
    then ((unsigned_saturate arithmetic width false).0, false)
    else if is_halving mode
    then (bit_and (to_word 64 arithmetic) mask >> 1, false)
    else (
      to_word 32 arithmetic,
      if subtract then leb right left else leb (2 ^ width) (left + right),
    )

pub signed_lane : ℕ → ℕ → Bool → ℤ → ℤ → ℕ × Bool
signed_lane mode width subtract left right =
    let arithmetic = combined subtract left right in
    if is_saturating mode
    then ((signed_saturate arithmetic width false).0, false)
    else if is_halving mode
    then (to_word 32 (floor_divide arithmetic 2), false)
    else (to_word 32 arithmetic, not (ltb_ℤ arithmetic (pos 0)))

pub parallel_lane : ℕ → ℕ → ℕ → ℕ → ℕ → ℕ → ℕ × Bool
parallel_lane operation mode width left right lane =
    let other = right_lane operation lane (if width == 8 then 4 else 2) in
    let subtract = subtracts operation lane in
    if leb 4 mode
    then unsigned_lane mode width subtract (extract_unsigned_lane left lane width)
        (extract_unsigned_lane right other width)
    else signed_lane mode width subtract (extract_signed_lane left lane width)
        (extract_signed_lane right other width)

abbrev pub ge_bits : ℕ → ℕ → ℕ
ge_bits width lane = if width == 8 then 1 << lane else 3 << (lane * 2)

abbrev pub is_parallel_field : ℕ → Bool
is_parallel_field field =
    field == 0 || field == 1 || field == 2 || field == 4 || field == 5 || field == 6

pub execute_parallel : Cpu → ℕ → ℕ → Option Cpu
execute_parallel cpu first second =
    let operation = bit_and (first >> 4) 7 in
    let mode = bit_and (second >> 4) 7 in
    let width = if operation == 0 || operation == 4 then 8 else 16 in
    let lane_count = if width == 8 then 4 else 2 in
    let left = cpu.registers ! low_field first in
    let right = cpu.registers ! low_field second in
    let value = λ (lane : ℕ). parallel_lane operation mode width left right lane in
    let result =
      for_range lane_count 0 (λ lane result. insert_lane result ((value lane).0) lane width) 0 in
    let ge =
      for_range lane_count 0
        (λ lane ge. if (value lane).1 then bit_or ge (ge_bits width lane) else ge) 0 in
    let flagged =
      if not (is_saturating mode) && not (is_halving mode)
      then set_greater_equal_flags cpu ge
      else cpu in
    if bit_and first 0xff80 != 0xfa80 || bit_and second 0xf080 != 0xf000
    then none
    else if not (is_parallel_field operation)
        || not (is_parallel_field mode)
        || not (are_valid first second)
    then none
    else some (put flagged (destination_field second) result)
