-- ===== src/Cortex/Alu.antt =====
-- src/architecture/cortex_m4/core.c: the adder, the shifter, the condition flags and the condition
-- codes. An operation that C gives output pointers returns the results together.
pub mod Adder
pub mod Shifter
pub mod Compare
pub mod Examples
use kinetis_k22_sim.Base.{
  ℕ, zero, suc, ◌+◌, ◌-◌, ◌*◌, ◌/◌, ◌^◌, ◌%◌, bit_and, bit_or, bit_xor, Bool, true, false, not,
  ◌&&◌, ◌||◌, ltb, leb, ◌==◌, ◌!=◌, same, if◌then◌else◌, ◌<<◌, ◌>>◌, flag, not32, u32, u8, of_bool,
}
use kinetis_k22_sim.Cortex.State.{Cpu}

abbrev pub xpsr_n : ℕ
xpsr_n = 0x80000000

abbrev pub xpsr_z : ℕ
xpsr_z = 1 << 30

abbrev pub xpsr_c : ℕ
xpsr_c = 1 << 29

abbrev pub xpsr_v : ℕ
xpsr_v = 1 << 28

-- A word with the carry and overflow outputs of the operation.
pub record AluResult : Type 0 where
  pub value : ℕ
  pub carry : Bool
  pub overflow : Bool

-- `cortex_m4_add_with_carry`.
pub add_with_carry : ℕ → ℕ → Bool → AluResult
add_with_carry left right carry =
    let unsigned_sum = left + right + of_bool carry in
    let result = u32 unsigned_sum in
    record {
      value = result;
      carry = unsigned_sum >> 32 != 0;
      overflow = bit_and (not32 (bit_xor left right)) (bit_xor left result) >> 31 != 0;
    }

pub record ShiftResult : Type 0 where
  pub value : ℕ
  pub carry : Bool

pub shift_left : ℕ → ℕ → Bool → ShiftResult
shift_left value amount carry_in =
    if amount == 0 then record { value = value; carry = carry_in } else record {
      value = if ltb amount 32 then u32 (value << amount) else 0;
      carry = if leb amount 32 then bit_and (value >> (32 - amount)) 1 != 0 else false;
    }

-- An encoded amount of 0 means 32 for the right shifts.
pub right_amount : ℕ → ℕ
right_amount amount = if amount == 0 then 32 else amount

pub shift_right_logical : ℕ → ℕ → ShiftResult
shift_right_logical value encoded =
    let amount = right_amount encoded in
    record {
      value = if ltb amount 32 then value >> amount else 0;
      carry = if leb amount 32 then bit_and (value >> (amount - 1)) 1 != 0 else false;
    }

pub shift_right_arithmetic : ℕ → ℕ → ShiftResult
shift_right_arithmetic value encoded =
    let amount = right_amount encoded in
    let negative = flag value 0x80000000 in
    record {
      value =
          if leb 32 amount
          then if negative then 0xffffffff else 0
          else if negative
          then bit_or (value >> amount) (u32 (0xffffffff << (32 - amount)))
          else value >> amount;
      carry = if leb amount 32 then bit_and (value >> (amount - 1)) 1 != 0 else negative;
    }

-- An amount that is 0 modulo 32 is RRX, the rotation through the carry.
pub rotate_right : ℕ → ℕ → Bool → ShiftResult
rotate_right value encoded carry_in =
    let amount = bit_and encoded 31 in
    if amount == 0
    then record {
      value = bit_or (if carry_in then 0x80000000 else 0) (value >> 1);
      carry = bit_and value 1 != 0;
    }
    else let result = bit_or (value >> amount) (u32 (value << (32 - amount))) in
      record { value = result; carry = flag result 0x80000000 }

-- `cortex_m4_shift`.
pub shift : ℕ → ℕ → ℕ → Bool → ShiftResult
shift value type amount carry_in =
    let kind = bit_and type 3 in
    if kind == 0
    then shift_left value amount carry_in
    else if kind == 1
    then shift_right_logical value amount
    else if kind == 2
    then shift_right_arithmetic value amount
    else rotate_right value amount carry_in

-- `cortex_m4_shift_register`.
pub shift_register : ℕ → ℕ → ℕ → Bool → ShiftResult
shift_register value type amount carry_in =
    if bit_and amount 0xff == 0
    then record { value = value; carry = carry_in }
    else shift value type (bit_and amount 0xff) carry_in

-- One flag of the xPSR.
pub write_flag : ℕ → ℕ → Bool → ℕ
write_flag word mask true = bit_or word mask
write_flag word mask false = word

-- `cortex_m4_set_nz`.
pub set_nz : Cpu → ℕ → Cpu
set_nz cpu value =
    let cleared = bit_and cpu.xpsr (not32 (bit_or xpsr_n xpsr_z)) in
    record cpu {
      xpsr = write_flag (write_flag cleared xpsr_n (flag value 0x80000000)) xpsr_z (value == 0);
    }

-- `cortex_m4_set_nzcv`.
pub set_nzcv : Cpu → ℕ → Bool → Bool → Cpu
set_nzcv cpu value carry overflow =
    let cleared = bit_and (set_nz cpu value).xpsr (not32 (bit_or xpsr_c xpsr_v)) in
    record cpu { xpsr = write_flag (write_flag cleared xpsr_c carry) xpsr_v overflow }

-- `add_flags` of instructions/thumb/thumb16.c.
pub add_flags : Cpu → ℕ → ℕ → Bool → Cpu × ℕ
add_flags cpu left right carry =
    let sum = add_with_carry left right carry in
    (set_nzcv cpu sum.value sum.carry sum.overflow, sum.value)

-- The `switch` of `cortex_m4_condition_passed` on the flags n, z, c, v.
pub condition_holds : ℕ → Bool → Bool → Bool → Bool → Bool
condition_holds code n z c v =
    if code == 0
    then z
    else if code == 1
    then not z
    else if code == 2
    then c
    else if code == 3
    then not c
    else if code == 4
    then n
    else if code == 5
    then not n
    else if code == 6
    then v
    else if code == 7
    then not v
    else if code == 8
    then c && not z
    else if code == 9
    then not c || z
    else if code == 10
    then same n v
    else if code == 11
    then not (same n v)
    else if code == 12
    then not z && same n v
    else if code == 13
    then z || not (same n v)
    else if code == 14
    then true
    else false

-- `cortex_m4_condition_passed`.
pub condition_passed : Cpu → ℕ → Bool
condition_passed cpu condition =
    condition_holds (bit_and condition 15) (flag cpu.xpsr xpsr_n) (flag cpu.xpsr xpsr_z)
      (flag cpu.xpsr xpsr_c) (flag cpu.xpsr xpsr_v)
