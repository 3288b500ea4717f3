-- ===== src/Cortex/Entry/Leave.antt =====
-- exceptions/base.c and advanced.c: tail chaining, and `cortex_m4_exception_return`.
use kinetis_k22_sim.Base.{
  ℕ, ◌-◌, ◌/◌, bit_and, bit_or, Bool, true, false, not, ◌&&◌, ltb, ◌==◌, if◌then◌else◌, ◌!◌, ◌<<◌,
  flag, not32, set, Option, some, none,
}
use kinetis_k22_sim.Cortex.State.{Cpu, unstacking}
use kinetis_k22_sim.Cortex.Pending.{irq_mask, set_pending}
use kinetis_k22_sim.Cortex.Selection.{selected_pending}
use kinetis_k22_sim.Cortex.Exceptions.{
  current_exception, activate_external, deactivate_external, commit_return, clear_faultmask,
  valid_return,
}
use kinetis_k22_sim.Cortex.Faults.{raise_fault, exception_fault}
use kinetis_k22_sim.Cortex.Bus.{DeviceBus, DebugUnit, Machine, with_cpu}
use kinetis_k22_sim.Cortex.Frames.Unstack.{unstack_frame}
use kinetis_k22_sim.Cortex.Entry.Vector.{
  Chain, no_chain, chain_taken, chain_fault, return, fp_return, tail_chained, Surroundings,
  find_vector, complete,
}
use kinetis_k22_sim.Cortex.Entry.Enter.{handler_xpsr, set_stack_pointer, is_fp_return}

-- `cortex_m4_exception_advanced_tail_chain`: a level that is still asserted makes the returning
-- interrupt pending again, before the choice.
unfoldable pub renew_level : Cpu → ℕ → Cpu
renew_level cpu current =
    let irq = current - 16 in
    if ltb 15 current && flag (cpu.irq_level ! (irq / 32)) (irq_mask irq)
    then record cpu {
      irq_pending =
          set cpu.irq_pending (irq / 32) (bit_or (cpu.irq_pending ! (irq / 32)) (irq_mask irq));
    }
    else cpu

abbrev pub preemption_target : Cpu → ℕ → ℕ
preemption_target cpu exception_return =
    if flag exception_return (1 << 3) then 0 else cpu.active_exceptions ! (cpu.exception_depth - 2)

module _ {Device : Type 0} (bus : DeviceBus Device) (debug : DebugUnit)
    (around : Surroundings Device) where
  -- The core in the next handler, with the stack frame of the last one.
  pub chain_handler : Cpu → ℕ → ℕ → ℕ → ℕ → Cpu
  chain_handler cpu exception_return current selected vector =
      let left = deactivate_external cpu current in
      let entered = activate_external (set_pending left selected false) selected in
      let registers = set entered.registers 14 exception_return in
      let in_handler = record entered {
        active_exceptions = set entered.active_exceptions (entered.exception_depth - 1) selected;
        registers = set registers 15 (bit_and vector (not32 1));
        xpsr = handler_xpsr entered selected;
        it_state = 0;
        ici_register = 0;
        ici_valid = false;
        sleeping = false;
        exclusive_valid = false;
      } in
      around.debug_exception (clear_faultmask in_handler current) selected

  abbrev pub chain_outcome : ℕ → ℕ → Machine Device × Option (ℕ × ℕ) → Machine Device × Chain
  chain_outcome exception_return current (machine, some found) = (
    complete bus debug around
        (with_cpu bus debug machine
          (chain_handler machine.cpu exception_return current found.0 found.1))
        tail_chained,
    chain_taken,
  )
  chain_outcome exception_return current (machine, none) = (machine, chain_fault)

  unfoldable pub tail_chain : Machine Device → ℕ → ℕ → Machine Device × Chain
  tail_chain machine exception_return current =
      let renewed = renew_level machine.cpu current in
      let selected =
        selected_pending renewed (preemption_target renewed exception_return) current in
      if not (valid_return machine.cpu exception_return)
      then (machine, chain_fault)
      else if selected == 0
      then (with_cpu bus debug machine renewed, no_chain)
      else chain_outcome exception_return current
          (find_vector bus debug around (with_cpu bus debug machine renewed) selected)

  -- The end of `cortex_m4_exception_return`, without a chained exception.
  abbrev pub return_outcome : ℕ → ℕ → Machine Device × Option ℕ → Machine Device × Bool
  return_outcome exception_return current (machine, some stack_pointer) = (
    complete bus debug around
        (with_cpu bus debug machine (
          commit_return (set_stack_pointer machine.cpu (flag exception_return 4) stack_pointer)
            current (flag exception_return (1 << 3))))
        (if is_fp_return exception_return then fp_return else return),
    true,
  )
  return_outcome exception_return current (machine, none) =
      let cpu = machine.cpu in
      let faulted =
        if cpu.exception_unstack_memory_fault
        then exception_fault cpu unstacking cpu.exception_frame_memory_management_fault
        else raise_fault cpu 6 in
      (with_cpu bus debug machine faulted, true)

  abbrev pub after_chain : ℕ → ℕ → Machine Device × Chain → Machine Device × Bool
  after_chain exception_return current (machine, chain_taken) = (machine, true)
  after_chain exception_return current (machine, chain_fault) = (machine, true)
  after_chain exception_return current (machine, no_chain) =
      let cpu = machine.cpu in
      return_outcome exception_return current (
        unstack_frame bus debug machine (if flag exception_return 4 then cpu.psp else cpu.msp)
          exception_return)

  -- `cortex_m4_exception_return`.
  unfoldable pub exception_return : Machine Device → ℕ → Machine Device × Bool
  exception_return machine value =
      let cpu = machine.cpu in
      let current = current_exception cpu in
      let refused = raise_fault (record cpu { cfsr = bit_or cpu.cfsr (1 << 18) }) 6 in
      if not (valid_return cpu value)
      then (with_cpu bus debug machine refused, false)
      else after_chain value current (tail_chain machine value current)
