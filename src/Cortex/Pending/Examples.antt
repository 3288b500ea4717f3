-- ===== src/Cortex/Pending/Examples.antt =====
-- Pending bits and lines on the sample core.
use kinetis_k22_sim.Base.{true, false, not, ◌&&◌, ◌||◌, ◌==◌, if◌then◌else◌, flag, ◌≡◌, refl, arith}
use kinetis_k22_sim.Cortex.Sample.{core, core-IsConfigured}
use kinetis_k22_sim.Cortex.Pending.{
  irq_mask, was_pending, set_pending, get_irq_pending, get_irq_active, set_irq_level,
  exception_pending, external_is_pending, wait_for_interrupt,
}
use kinetis_k22_sim.Cortex.Pending.Bits.{was_pending-set_pending}
use kinetis_k22_sim.Cortex.Pending.Lines.{set_irq_level_lem, line_is_high}
use kinetis_k22_sim.Cortex.Pending.Wake.{
  exception_enabled, wait_for_interrupt-pending, set_pending_wakes,
}

was_pending-set_pending_test :
    was_pending (set_pending core 22 true) 21 ≡ (if 22 == 21 then true else was_pending core 21)
was_pending-set_pending_test =
    was_pending-set_pending core 22 21 true core-IsConfigured (omega arith) (omega arith)

set_irq_level_lem_example : get_irq_pending (set_irq_level core 6 true) 6 ≡ (
    if (true
        && (not (line_is_high core 6)
            || (not (get_irq_pending core 6) && not (get_irq_active core 6))))
      && 6 == 6
    then true
    else get_irq_pending core 6)
set_irq_level_lem_example =
    set_irq_level_lem core 6 6 true core-IsConfigured (omega arith) (omega arith)

irq5_pending : exception_pending core 21 ≡ true
unfolding external_is_pending irq_mask exception_pending flag
irq5_pending = refl

wait_for_interrupt-pending_example : (wait_for_interrupt core).sleeping ≡ false
wait_for_interrupt-pending_example =
    wait_for_interrupt-pending core 21 (omega arith) (omega arith) irq5_pending

irq6_enabled : exception_enabled core 22 ≡ true
unfolding exception_enabled irq_mask flag
irq6_enabled = refl

set_pending_wakes_test :
    (exception_pending (set_pending core 22 true) 22 ≡ true)
    × ((set_pending core 22 true).sleeping ≡ false)
set_pending_wakes_test =
    set_pending_wakes core 22 core-IsConfigured (omega arith) (omega arith) irq6_enabled
