-- ===== src/Cortex/Priority/Frame.antt =====
-- The priorities do not depend on the fault flag and the status of a fault.
use kinetis_k22_sim.Base.{ℕ, true, ◌≡◌, refl}
use kinetis_k22_sim.Cortex.State.{Cpu}
use kinetis_k22_sim.Cortex.Priority.{
  exception_priority, system_priority, exception_preemption, exception_masked,
  exception_can_preempt,
}

pub can_preempt_faulted :
    (cpu : Cpu) (a b : ℕ)
    → exception_can_preempt (record cpu { instruction_faulted = true }) a b
      ≡ exception_can_preempt cpu a b
unfolding exception_can_preempt exception_masked exception_preemption system_priority
    exception_priority
can_preempt_faulted cpu a b = refl

pub can_preempt_recorded :
    (cpu : Cpu) (cfsr mmfar a b : ℕ)
    → exception_can_preempt (record cpu { cfsr = cfsr; mmfar = mmfar }) a b
      ≡ exception_can_preempt cpu a b
unfolding exception_can_preempt exception_masked exception_preemption system_priority
    exception_priority
can_preempt_recorded cpu cfsr mmfar a b = refl
