-- ===== src/Cortex/Registers.antt =====
-- src/architecture/cortex_m4/core.c: the core registers, the xPSR, CONTROL and the breakpoints. The
-- public accessors are stated for a core that exists: their NULL case returns 0 or does nothing.
pub mod Banked
pub mod Status
pub mod Examples
use kinetis_k22_sim.Base.{
  ℕ, ◌+◌, ◌*◌, ◌/◌, ◌^◌, ◌%◌, bit_and, bit_or, Bool, true, false, not, ◌&&◌, ◌||◌, ltb, leb, ◌==◌,
  ◌!=◌, if◌then◌else◌, ◌!◌, ◌<<◌, ◌>>◌, flag, not32, u8, set,
}
use kinetis_k22_sim.Cortex.State.{
  Cpu, Stop, running, breakpoint, Access, unprivileged, regular, is_armv6_m,
}
use kinetis_k22_sim.Cortex.Exceptions.{ici_xpsr, ici_load_xpsr, current_exception}

-- `CORTEX_M4_CONTROL_NPRIV` and `CORTEX_M4_CONTROL_SPSEL`.
abbrev pub control_npriv : ℕ
control_npriv = 1 << 0

abbrev pub control_spsel : ℕ
control_spsel = 1 << 1

-- Register 13 stands for the process stack pointer in Thread mode with SPSEL set.
pub uses_psp : Cpu → Bool
uses_psp cpu =
    let handler = current_exception cpu != 0 in not handler && flag cpu.control control_spsel

-- `cortex_m4_read_register_internal`.
pub read_register : Cpu → ℕ → ℕ
read_register cpu index =
    if index == 13
    then if uses_psp cpu then cpu.psp else cpu.msp
    else cpu.registers ! (bit_and index 15)

-- The write of register 13 goes to the stack pointer in use and to the register file.
pub write_stack_pointer : Cpu → ℕ → Cpu
write_stack_pointer cpu value =
    let aligned = bit_and value (not32 3) in
    let banked =
      if uses_psp cpu then record cpu { psp = aligned } else record cpu { msp = aligned } in
    record banked { registers = set cpu.registers 13 aligned }

-- `cortex_m4_write_register_internal`.
pub write_register : Cpu → ℕ → ℕ → Cpu
write_register cpu given value =
    let index = bit_and given 15 in
    if index == 13
    then write_stack_pointer cpu value
    else if index == 15
    then record cpu { registers = set cpu.registers 15 (bit_and value (not32 1)) }
    else record cpu { registers = set cpu.registers index value }

-- `cortex_m4_get_register` and `cortex_m4_set_register`.
pub get_register : Cpu → ℕ → ℕ
get_register cpu index = if leb 16 index then 0 else read_register cpu index

pub set_register : Cpu → ℕ → ℕ → Cpu
set_register cpu index value = if ltb index 16 then write_register cpu index value else cpu

-- `cortex_m4_access_is_unprivileged_data`.
unfoldable pub access_is_unprivileged : Cpu → Access → Bool
access_is_unprivileged cpu unprivileged = true
access_is_unprivileged cpu regular = bit_and cpu.xpsr 0x1ff == 0 && flag cpu.control control_npriv
access_is_unprivileged cpu _ = false

-- `cortex_m4_xpsr_value`.
unfoldable pub xpsr_value : Cpu → ℕ
xpsr_value cpu =
    let it_state =
      if is_armv6_m cpu.architecture
      then 0
      else bit_or (bit_and cpu.it_state 3 << 25) (bit_and cpu.it_state 0xfc << 8) in
    ici_xpsr cpu (bit_or cpu.xpsr it_state)

-- `cortex_m4_load_xpsr`.
unfoldable pub load_xpsr : Cpu → ℕ → Cpu
load_xpsr cpu value =
    let loaded = record cpu {
      it_state =
          if is_armv6_m cpu.architecture
          then 0
          else u8 (bit_or (bit_and (value >> 25) 3) (bit_and (value >> 8) 0xfc));
      xpsr = bit_or (bit_and value (not32 0x0600fe00)) (1 << 24);
    } in
    ici_load_xpsr loaded value

-- `cortex_m4_set_control`: only in Thread mode.
pub set_control : Cpu → ℕ → Cpu
set_control cpu value =
    if bit_and cpu.xpsr 0x1ff == 0
    then record cpu { control = bit_and value (if is_armv6_m cpu.architecture then 3 else 7) }
    else cpu

abbrev pub is_breakpoint : Stop → Bool
is_breakpoint breakpoint = true
is_breakpoint _ = false

-- `cortex_m4_set_breakpoint`.
pub set_breakpoint : Cpu → ℕ → ℕ → Bool → Cpu × Bool
set_breakpoint cpu index address enabled =
    let placed = record cpu {
      breakpoints = set cpu.breakpoints index address;
      breakpoint_enabled =
          if enabled
          then bit_or cpu.breakpoint_enabled (u8 (1 << index))
          else bit_and cpu.breakpoint_enabled (u8 (not32 (1 << index)));
    } in
    if leb 8 index || bit_and address 1 != 0
    then (cpu, false)
    else if is_breakpoint cpu.stop
    then (record placed { stop = running }, true)
    else (placed, true)
