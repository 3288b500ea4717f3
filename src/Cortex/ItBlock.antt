-- ===== src/Cortex/ItBlock.antt =====
-- src/architecture/cortex_m4/instructions/it.c: the state of an IT block, and which instructions
-- may write the flags inside one.
pub mod Advance
pub mod Examples
use kinetis_k22_sim.Base.{
  ℕ, ◌*◌, ◌/◌, ◌^◌, ◌%◌, bit_and, bit_or, Bool, true, false, not, ◌&&◌, ◌||◌, leb, ◌==◌, ◌!=◌,
  if◌then◌else◌, ◌<<◌, ◌>>◌, flag, not32, u8,
}
use kinetis_k22_sim.Cortex.State.{Cpu, FlagWrite, unchanged, implicit, explicit}
use kinetis_k22_sim.Cortex.Alu.{condition_passed}

abbrev pub xpsr_nzcv : ℕ
xpsr_nzcv = 0xf0000000

-- The register form of data processing, 0x4000 to 0x43ff.
pub register_flag_write : ℕ → FlagWrite
register_flag_write opcode =
    let operation = bit_and (opcode >> 6) 15 in
    if operation == 8 || operation == 10 || operation == 11 then explicit else implicit

pub narrow_flag_write : ℕ → FlagWrite
narrow_flag_write opcode =
    if bit_and opcode 0xe000 == 0x0000
    then implicit
    else if bit_and opcode 0xe000 == 0x2000
    then if bit_and opcode 0x1800 == 0x0800 then explicit else implicit
    else if bit_and opcode 0xfc00 == 0x4000
    then register_flag_write opcode
    else if bit_and opcode 0xfc00 == 0x4400 && bit_and opcode 0x0300 == 0x0100
    then explicit
    else unchanged

pub wide_data_processing : ℕ → ℕ → Bool
wide_data_processing first second =
    (bit_and first 0xfa00 == 0xf000 || bit_and first 0xfe00 == 0xea00) && bit_and second 0x8000 == 0

pub writes_apsr : ℕ → ℕ → Bool
writes_apsr first second =
    let msr =
      bit_and first 0xfff0 == 0xf380
      && bit_and second 0xff00 == 0x8800
      && leb (bit_and second 0x00ff) 3 in
    let vmrs = first == 0xeef1 && second == 0xfa10 in msr || vmrs

-- `cortex_m4_it_flag_write`.
pub it_flag_write : ℕ → ℕ → Bool → FlagWrite
it_flag_write first second is_wide =
    if not is_wide
    then narrow_flag_write first
    else if writes_apsr first second
    then explicit
    else if wide_data_processing first second && flag first 0x0010
    then explicit
    else unchanged

-- `cortex_m4_it_condition_passed`.
pub it_condition_passed : Cpu → Bool
it_condition_passed cpu = cpu.it_state == 0 || condition_passed cpu (u8 (cpu.it_state >> 4))

-- The new state of `cortex_m4_it_advance`.
pub it_next : ℕ → ℕ
it_next state =
    if state == 0
    then 0
    else if bit_and state 7 == 0
    then 0
    else u8 (bit_or (bit_and state 0xe0) (bit_and (state << 1) 0x1f))

-- `cortex_m4_it_advance`.
pub it_advance : Cpu → Cpu
it_advance cpu = record cpu { it_state = it_next cpu.it_state }

abbrev pub is_implicit : FlagWrite → Bool
is_implicit implicit = true
is_implicit _ = false

-- `cortex_m4_it_preserve_flags`.
pub it_preserve_flags : Cpu → ℕ → ℕ → Bool → Bool → ℕ → Cpu
it_preserve_flags cpu first second is_wide inside previous =
    if not inside || not (is_implicit (it_flag_write first second is_wide))
    then cpu
    else record cpu {
      xpsr = bit_or (bit_and cpu.xpsr (not32 xpsr_nzcv)) (bit_and previous xpsr_nzcv);
    }
