-- ===== src/Cortex/Priority/Masks.antt =====
-- What PRIMASK, FAULTMASK and BASEPRI hold back.
use kinetis_k22_sim.Base.{ℕ, ◌<◌, true, ◌≡◌, ◌≢◌, ◌⊎◌, arith, u8}
use kinetis_k22_sim.Cortex.State.{Cpu}
use kinetis_k22_sim.Cortex.Priority.{
  exception_priority, system_priority, exception_masked, exception_can_preempt,
}

module _ (cpu : Cpu) where
  -- If an exception can preempt, it is the NMI (2) when FAULTMASK is set, and the NMI or HardFault
  -- (3) when PRIMASK is set.
  pub preempting_under_masks :
      (candidate current : ℕ)
      → exception_can_preempt cpu candidate current ≡ true
      → (cpu.faultmask ≢ 0 → candidate ≡ 2) × (cpu.primask ≢ 0 → (candidate ≡ 2) ⊎ (candidate ≡ 3))
  unfolding exception_can_preempt exception_masked
  preempting_under_masks candidate current h = ground arith

  -- BASEPRI holds back every configurable exception whose preemption level is not below its own.
  pub preempting_under_basepri :
      (candidate current : ℕ)
      → 3 < candidate
      → cpu.basepri ≢ 0
      → exception_can_preempt cpu candidate current ≡ true
      → (system_priority cpu (exception_priority cpu candidate)).preemption
        < (system_priority cpu (u8 cpu.basepri)).preemption
  unfolding exception_can_preempt exception_masked
  preempting_under_basepri candidate current h b k = ground arith

  -- In Thread mode (current 0) the NMI is always taken.
  pub nmi_can_preempt_thread : exception_can_preempt cpu 2 0 ≡ true
  unfolding exception_can_preempt exception_masked
  nmi_can_preempt_thread = ground arith
