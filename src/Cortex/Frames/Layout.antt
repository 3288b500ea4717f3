-- ===== src/Cortex/Frames/Layout.antt =====
-- system.c: what an exception frame holds, where it lies, and what is restored from it.
use kinetis_k22_sim.Base.{
  ℕ, ◌+◌, ◌-◌, bit_and, bit_or, Bool, not, ◌&&◌, ◌==◌, ◌!=◌, if◌then◌else◌, ◌!◌, ◌<<◌, flag, not32,
  sub32, u32, set, List, [], ◌∷◌, for_range,
}
use kinetis_k22_sim.Cortex.State.{Cpu, ExceptionFrame}
use kinetis_k22_sim.Cortex.Registers.{control_spsel, xpsr_value, load_xpsr}

abbrev pub control_fpca : ℕ
control_fpca = 1 << 2

abbrev pub fpccr_aspen : ℕ
fpccr_aspen = 1 << 31

abbrev pub fpccr_lspen : ℕ
fpccr_lspen = 1 << 30

abbrev pub fpccr_thread : ℕ
fpccr_thread = 1 << 3

abbrev pub fpccr_lspact : ℕ
fpccr_lspact = 1

-- A cell of `exception_frames`.
abbrev pub set_frame : List ExceptionFrame → ℕ → ExceptionFrame → List ExceptionFrame
set_frame frames index frame = set frames index frame

-- How an exception is taken: from which mode and stack, with which frame.
abbrev pub is_thread : Cpu → Bool
is_thread cpu = bit_and cpu.xpsr 0x1ff == 0

abbrev pub is_extended : Cpu → Bool
is_extended cpu = flag cpu.control control_fpca && flag cpu.fpccr fpccr_aspen

abbrev pub is_lazy : Cpu → Bool
is_lazy cpu = is_extended cpu && flag cpu.fpccr fpccr_lspen

abbrev pub is_padded : Cpu → ℕ → Bool
is_padded cpu stack_pointer = flag cpu.ccr (1 << 9) && bit_and stack_pointer 7 != 0

unfoldable pub frame_address : Cpu → ℕ → ℕ
frame_address cpu stack_pointer =
    sub32 (sub32 stack_pointer (if is_padded cpu stack_pointer then 4 else 0))
      (if is_extended cpu then 104 else 32)

unfoldable pub stacked_status : Cpu → ℕ → ℕ
stacked_status cpu stack_pointer =
    if is_padded cpu stack_pointer then bit_or (xpsr_value cpu) (1 << 9) else xpsr_value cpu

-- `core_frame` of `cortex_m4_system_stack_exception_frame`.
abbrev pub core_frame : Cpu → ℕ → List ℕ
core_frame cpu status =
    cpu.registers ! 0
    ∷ cpu.registers ! 1
    ∷ cpu.registers ! 2
    ∷ cpu.registers ! 3
    ∷ cpu.registers ! 12
    ∷ cpu.registers ! 14
    ∷ cpu.registers ! 15
    ∷ status
    ∷ []

unfoldable pub entry_return_value : Cpu → ℕ
entry_return_value cpu =
    let basic =
      if not (is_thread cpu)
      then 0xfffffff1
      else if flag cpu.control control_spsel
      then 0xfffffffd
      else 0xfffffff9 in
    if is_extended cpu then bit_and basic (not32 (1 << 4)) else basic

-- What stacking records: the frame's data, and the lazy state of the floating point unit.
pub stacked_frame : Cpu → ℕ → ExceptionFrame
stacked_frame cpu stack_pointer = record {
  address = frame_address cpu stack_pointer;
  ici_address = cpu.ici_address;
  return_value = entry_return_value cpu;
  stacked_xpsr = stacked_status cpu stack_pointer;
  it_state = cpu.it_state;
  ici_register = cpu.ici_register;
  extended = is_extended cpu;
  lazy = is_lazy cpu;
  ici_valid = cpu.ici_valid;
}

-- The end of stacking. `before` is the core at the start, when the values were read, and `cpu` the
-- core after the writes.
pub record_frame : Cpu → Cpu → ℕ → Cpu
record_frame before cpu stack_pointer =
    let activated =
      if is_extended before
      then record cpu {
        fpcar = frame_address before stack_pointer;
        fpccr =
            bit_or
              (bit_or (bit_and cpu.fpccr (not32 fpccr_thread))
                (if is_thread before then fpccr_thread else 0))
              (if is_lazy before then fpccr_lspact else 0);
      }
      else cpu in
    record activated {
      exception_frames =
          set_frame cpu.exception_frames cpu.exception_frame_depth
            (record (stacked_frame before stack_pointer) {
              ici_address = cpu.ici_address;
              it_state = cpu.it_state;
              ici_register = cpu.ici_register;
              ici_valid = cpu.ici_valid;
            });
      exception_frame_depth = cpu.exception_frame_depth + 1;
    }

abbrev pub is_extended_return : ℕ → Bool
is_extended_return value = not (flag value (1 << 4))

-- The stack pointer after a frame that was stored at `stack_pointer`.
unfoldable pub popped_pointer : ℕ → ℕ → List ℕ → ℕ
popped_pointer stack_pointer value core =
    let core_address =
      if is_extended_return value then u32 (stack_pointer + 72) else stack_pointer in
    u32 (core_address + 32 + (if flag (core ! 7) (1 << 9) then 4 else 0))

-- `memcpy(cpu->fp_registers, fp_registers, sizeof(fp_registers))`: the first 16 registers.
abbrev pub copy_fp : List ℕ → List ℕ → List ℕ
copy_fp registers values =
    for_range 16 0 (λ index cells. set cells index (values ! index)) registers

-- The eight words of the core: registers and xPSR.
unfoldable pub restored_core : Cpu → List ℕ → Cpu
restored_core cpu core =
    let r0 = set cpu.registers 0 (core ! 0) in
    let r1 = set r0 1 (core ! 1) in
    let r2 = set r1 2 (core ! 2) in
    let r3 = set r2 3 (core ! 3) in
    let r12 = set r3 12 (core ! 4) in
    let r14 = set r12 14 (core ! 5) in
    let r15 = set r14 15 (bit_and (core ! 6) (not32 1)) in
    load_xpsr (record cpu { registers = r15 }) (core ! 7)

-- The end of unstacking, with all words of the frame read: the core, the floating point registers
-- when they were read, and CONTROL for a return to Thread mode.
unfoldable pub restore_frame : Cpu → ℕ → List ℕ → Bool × List ℕ → Cpu
restore_frame cpu value core fp =
    let loaded = restored_core cpu core in
    let floating =
      if fp.0
      then record loaded { fp_registers = copy_fp loaded.fp_registers fp.1; fpscr = fp.1 ! 16 }
      else loaded in
    let released =
      if is_extended_return value
      then record floating {
        fpccr = bit_and floating.fpccr (not32 (bit_or fpccr_lspact fpccr_thread));
      }
      else floating in
    let controlled =
      if flag value (1 << 3)
      then record released {
        control =
            bit_or
              (bit_or (bit_and released.control (not32 (bit_or control_spsel control_fpca)))
                (if flag value (1 << 2) then control_spsel else 0))
              (if is_extended_return value then control_fpca else 0);
      }
      else released in
    record controlled { exception_frame_depth = controlled.exception_frame_depth - 1 }
