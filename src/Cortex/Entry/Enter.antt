-- ===== src/Cortex/Entry/Enter.antt =====
-- exceptions/base.c: `enter_exception`.
use kinetis_k22_sim.Base.{
  ℕ, bit_and, bit_or, Bool, true, false, ◌&&◌, ◌==◌, if◌then◌else◌, ◌<<◌, flag, not32, set, Option,
  some, none,
}
use kinetis_k22_sim.Cortex.State.{Cpu, stacking}
use kinetis_k22_sim.Cortex.Selection.{late_arrival}
use kinetis_k22_sim.Cortex.Exceptions.{current_exception, commit_entry}
use kinetis_k22_sim.Cortex.Faults.{entry_fault}
use kinetis_k22_sim.Cortex.Registers.{control_spsel}
use kinetis_k22_sim.Cortex.Bus.{DeviceBus, DebugUnit, Machine, with_cpu}
use kinetis_k22_sim.Cortex.Frames.Layout.{control_fpca}
use kinetis_k22_sim.Cortex.Frames.Stack.{stack_frame}
use kinetis_k22_sim.Cortex.Entry.Vector.{entry, fp_entry, Surroundings, find_vector, complete}

-- `(cpu->xpsr & ~0x1ffu) | exception | CORTEX_M4_XPSR_T`.
abbrev pub handler_xpsr : Cpu → ℕ → ℕ
handler_xpsr cpu exception = bit_or (bit_or (bit_and cpu.xpsr (not32 0x1ff)) exception) (1 << 24)

abbrev pub enters_from_psp : Cpu → Bool
enters_from_psp cpu = current_exception cpu == 0 && flag cpu.control control_spsel

-- The write of the stack pointer that was used.
abbrev pub set_stack_pointer : Cpu → Bool → ℕ → Cpu
set_stack_pointer cpu true value = record cpu { psp = value }
set_stack_pointer cpu false value = record cpu { msp = value }

-- The return value of a frame with floating point registers.
abbrev pub is_fp_return : ℕ → Bool
is_fp_return exception_return = bit_and exception_return 0x10 == 0

module _ {Device : Type 0} (bus : DeviceBus Device) (debug : DebugUnit)
    (around : Surroundings Device) where
  -- The core in the handler, from the debug unit's vector catch on.
  pub enter_handler : Cpu → ℕ → ℕ → ℕ → Cpu
  enter_handler cpu exception_return exception vector =
      let caught = around.debug_exception cpu exception in
      let registers = set caught.registers 14 exception_return in
      commit_entry
        (record caught {
          registers = set registers 15 (bit_and vector (not32 1));
          it_state = 0;
          xpsr = handler_xpsr caught exception;
          control = bit_and caught.control (not32 control_fpca);
          sleeping = false;
          exclusive_valid = false;
        })
        exception

  abbrev pub vector_outcome : ℕ → Machine Device × Option (ℕ × ℕ) → Machine Device × Bool
  vector_outcome exception_return (machine, some found) = (
    complete bus debug around
        (with_cpu bus debug machine (enter_handler machine.cpu exception_return found.0 found.1))
        (if is_fp_return exception_return then fp_entry else entry),
    true,
  )
  vector_outcome exception_return (machine, none) = (machine, false)

  abbrev pub stack_outcome : ℕ → Bool → Machine Device × Option (ℕ × ℕ) → Machine Device × Bool
  stack_outcome exception from_psp (machine, some stacked) =
      let moved = set_stack_pointer machine.cpu from_psp stacked.0 in
      vector_outcome stacked.1 (
        find_vector bus debug around (with_cpu bus debug machine moved)
          (late_arrival moved exception))
  stack_outcome exception from_psp (machine, none) =
      let cpu = machine.cpu in
      let faulted = record cpu { instruction_faulted = true } in
      (
        with_cpu bus debug machine
            (entry_fault faulted exception stacking cpu.exception_frame_memory_management_fault),
        false,
      )

  pub enter_exception : Machine Device → ℕ → Machine Device × Bool
  enter_exception machine exception =
      let from_psp = enters_from_psp machine.cpu in
      let stack_pointer = if from_psp then machine.cpu.psp else machine.cpu.msp in
      stack_outcome exception from_psp (stack_frame bus debug machine stack_pointer)
