-- ===== src/Cortex/Pending/Frame.antt =====
-- What the operations on pending bits leave alone.
use kinetis_k22_sim.Base.{ℕ, Bool, ◌≡◌, refl, arith}
use kinetis_k22_sim.Cortex.State.{Cpu}
use kinetis_k22_sim.Cortex.Pending.{
  was_pending, write_pending, signal_pending, set_pending, wait_for_interrupt,
}

-- Only the pending words, the event register and the sleep flag change.
pub set_pending_only :
    (cpu : Cpu) (e : ℕ) (pending : Bool)
    → let after = set_pending cpu e pending in
      after ≡ record cpu {
        system_pending = after.system_pending;
        irq_pending = after.irq_pending;
        event_register = after.event_register;
        sleeping = after.sleeping;
      }
unfolding set_pending write_pending signal_pending
set_pending_only cpu e pending = ground arith

-- Only the sleep flag changes.
pub wait_for_interrupt_only :
    (cpu : Cpu)
    → wait_for_interrupt cpu ≡ record cpu { sleeping = (wait_for_interrupt cpu).sleeping }
unfolding wait_for_interrupt
wait_for_interrupt_only cpu = refl

-- The pending state of an exception is a matter of the pending words.
pub was_pending_ext :
    (c d : Cpu) (f : ℕ)
    → c.system_pending ≡ d.system_pending
    → c.irq_pending ≡ d.irq_pending
    → was_pending c f ≡ was_pending d f
unfolding was_pending
was_pending_ext c d f p q = rw (p, q)
