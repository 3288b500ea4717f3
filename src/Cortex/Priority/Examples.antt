-- ===== src/Cortex/Priority/Examples.antt =====
-- The order and the masks on the sample core.
use kinetis_k22_sim.Base.{ℕ, true, false, not, ◌≡◌, ◌≢◌, ◌⊎◌, refl, arith}
use kinetis_k22_sim.Cortex.Sample.{core, masked}
use kinetis_k22_sim.Cortex.Priority.{
  exception_priority, system_priority, exception_preemption, exception_masked,
  exception_can_preempt, exception_before,
}
use kinetis_k22_sim.Cortex.Priority.Order.{
  exception_before_trans, exception_before_total, exception_before_of_can_preempt,
}
use kinetis_k22_sim.Cortex.Priority.Masks.{preempting_under_masks}

irq5-irq4 : exception_before core 21 20 ≡ true
unfolding exception_before exception_preemption exception_priority system_priority
irq5-irq4 = refl

irq4-irq6 : exception_before core 20 22 ≡ true
unfolding exception_before exception_preemption exception_priority system_priority
irq4-irq6 = refl

exception_before_trans_test : exception_before core 21 22 ≡ true
exception_before_trans_test = exception_before_trans core 21 20 22 irq5-irq4 irq4-irq6

exception_before_total_test : exception_before core 21 22 ≡ not (exception_before core 22 21)
exception_before_total_test = exception_before_total core 21 22 (ground arith)

irq5_preempts : exception_can_preempt core 21 20 ≡ true
unfolding exception_can_preempt exception_masked exception_preemption exception_priority
    system_priority
irq5_preempts = refl

exception_before_of_can_preempt_test :
    (exception_before core 21 20 ≡ true) × (exception_can_preempt core 20 21 ≡ false)
exception_before_of_can_preempt_test =
    exception_before_of_can_preempt core 21 20 (ground arith) irq5_preempts

abbrev hard_fault : ℕ
hard_fault = 3

hard_fault_preempts : exception_can_preempt masked 3 20 ≡ true
unfolding exception_can_preempt exception_masked exception_preemption exception_priority
    system_priority
hard_fault_preempts = refl

preempting_under_masks_test :
    (masked.faultmask ≢ 0 → hard_fault ≡ 2)
    × (masked.primask ≢ 0 → (hard_fault ≡ 2) ⊎ (hard_fault ≡ 3))
preempting_under_masks_test = preempting_under_masks masked hard_fault 20 hard_fault_preempts
