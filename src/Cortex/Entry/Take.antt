-- ===== src/Cortex/Entry/Take.antt =====
-- exceptions/base.c: the choice of the exception to enter, `cortex_m4_take_pending_exception`.
use kinetis_k22_sim.Base.{
  ℕ, ◌+◌, Bool, false, ◌&&◌, ◌||◌, ltb, ◌==◌, ◌!=◌, if◌then◌else◌, for_range,
}
use kinetis_k22_sim.Cortex.State.{Cpu}
use kinetis_k22_sim.Cortex.Priority.{exception_can_preempt, exception_before}
use kinetis_k22_sim.Cortex.Pending.{system_is_pending, external_is_pending}
use kinetis_k22_sim.Cortex.Exceptions.{current_exception}
use kinetis_k22_sim.Cortex.Bus.{DeviceBus, DebugUnit, Machine}
use kinetis_k22_sim.Cortex.Entry.Vector.{Surroundings}
use kinetis_k22_sim.Cortex.Entry.Enter.{enter_exception}

-- The exceptions that the loops of `cortex_m4_take_pending_exception` choose from.
pub takeable : Cpu → ℕ → Bool
takeable cpu exception =
    (if ltb exception 16
      then system_is_pending cpu exception
      else external_is_pending cpu exception)
    && exception_can_preempt cpu exception (current_exception cpu)

-- One round of the loops.
abbrev pub take_if_first : Cpu → ℕ → ℕ → ℕ
take_if_first cpu exception selected =
    if takeable cpu exception && (selected == 0 || exception_before cpu exception selected)
    then exception
    else selected

-- The choice among the configurable system exceptions and the interrupts.
unfoldable pub next_exception : Cpu → ℕ
next_exception cpu =
    let after_4 = take_if_first cpu 4 0 in
    let after_5 = take_if_first cpu 5 after_4 in
    let after_6 = take_if_first cpu 6 after_5 in
    let after_11 = take_if_first cpu 11 after_6 in
    let after_12 = take_if_first cpu 12 after_11 in
    let after_14 = take_if_first cpu 14 after_12 in
    let after_15 = take_if_first cpu 15 after_14 in
    for_range cpu.external_irq_count 0 (λ irq selected. take_if_first cpu (irq + 16) selected)
      after_15

module _ {Device : Type 0} (bus : DeviceBus Device) (debug : DebugUnit)
    (around : Surroundings Device) where
  -- `cortex_m4_take_pending_exception`.
  pub take_pending_exception : Machine Device → Machine Device × Bool
  take_pending_exception machine =
      let cpu = machine.cpu in
      let current = current_exception cpu in
      let selected = next_exception cpu in
      if system_is_pending cpu 2 && current != 2
      then enter_exception bus debug around machine 2
      else if system_is_pending cpu 3 && exception_can_preempt cpu 3 current
      then enter_exception bus debug around machine 3
      else if selected == 0
      then (machine, false)
      else enter_exception bus debug around machine selected
