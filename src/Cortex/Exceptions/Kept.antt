-- ===== src/Cortex/Exceptions/Kept.antt =====
-- What leaving an exception does not touch.
use kinetis_k22_sim.Base.{ℕ, Bool, ◌≡◌, ap, arith}
use kinetis_k22_sim.Cortex.State.{Cpu}
use kinetis_k22_sim.Cortex.Pending.Frame.{wait_for_interrupt_only}
use kinetis_k22_sim.Cortex.Exceptions.{
  commit_return, sleep_on_exit, clear_faultmask, pop_active, deactivate_external,
}

pub commit_return_registers :
    (cpu : Cpu) (e : ℕ) (thread : Bool) → (commit_return cpu e thread).registers ≡ cpu.registers
unfolding commit_return sleep_on_exit clear_faultmask pop_active deactivate_external
commit_return_registers cpu e thread =
    let left = pop_active (deactivate_external cpu e) in
    let cleared = record left { faultmask = 0 } in
    ground (
      arith,
      ap (λ (c : Cpu). c.registers) (wait_for_interrupt_only left),
      ap (λ (c : Cpu). c.registers) (wait_for_interrupt_only cleared),
    )
