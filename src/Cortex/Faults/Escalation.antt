-- ===== src/Cortex/Faults/Escalation.antt =====
-- Where a fault ends up.
use kinetis_k22_sim.Base.{
  ℕ, bit_or, ◌+◌, ◌<◌, ◌≤◌, true, false, not, ◌&&◌, ◌==◌, if◌then◌else◌, ◌<<◌, flag, ◌≡◌, ◌⊎◌, refl,
  arith, ap, ◌∙◌,
}
use kinetis_k22_sim.Cortex.State.{Cpu, IsConfigured, lockup, is_armv6_m}
use kinetis_k22_sim.Cortex.Priority.{exception_can_preempt}
use kinetis_k22_sim.Cortex.Pending.{was_pending, set_pending}
use kinetis_k22_sim.Cortex.Priority.Frame.{can_preempt_faulted}
use kinetis_k22_sim.Cortex.Pending.Frame.{was_pending_ext, set_pending_only}
use kinetis_k22_sim.Cortex.Pending.Bits.{was_pending-set_pending}
use kinetis_k22_sim.Cortex.Exceptions.{current_exception}
use kinetis_k22_sim.Cortex.Faults.{notice_fault, pend_fault, raise_fault}

-- The exception that a fault makes pending outside NMI and HardFault.
unfoldable pub fault_target : Cpu → ℕ → ℕ
fault_target cpu e =
    if not (is_armv6_m cpu.architecture)
      && flag cpu.shcsr (1 << (e + 12))
      && exception_can_preempt cpu e (current_exception cpu)
    then e
    else 3

-- The core just before the pending bit is set.
fault_base : Cpu → ℕ → Cpu
fault_base cpu e =
    let faulted = record cpu { instruction_faulted = true } in
    if not (is_armv6_m cpu.architecture) && fault_target cpu e == 3
    then record faulted { hfsr = bit_or cpu.hfsr (1 << 30) }
    else faulted

fault_base-IsConfigured : (cpu : Cpu) (e : ℕ) → IsConfigured cpu → IsConfigured (fault_base cpu e)
unfolding fault_base
fault_base-IsConfigured cpu e ok = ground arith

fault_base_pending : (cpu : Cpu) (e f : ℕ) → was_pending (fault_base cpu e) f ≡ was_pending cpu f
fault_base_pending cpu e f =
    was_pending_ext (fault_base cpu e) cpu f (unfold fault_base in ground arith)
      (unfold fault_base in ground arith)

-- Outside NMI and HardFault, raising a fault makes its target pending.
raise_fault_pends :
    (cpu : Cpu) (e : ℕ)
    → 4 ≤ e
    → e ≤ 6
    → (current_exception cpu < 2) ⊎ (3 < current_exception cpu)
    → raise_fault cpu e ≡ notice_fault (set_pending (fault_base cpu e) (fault_target cpu e) true)
unfolding raise_fault pend_fault fault_base fault_target current_exception
raise_fault_pends cpu e low high outside =
    ground (arith, can_preempt_faulted cpu e (current_exception cpu))

fault_target_bounds :
    (cpu : Cpu) (e : ℕ) → 4 ≤ e → e ≤ 6 → (3 ≤ fault_target cpu e) × (fault_target cpu e ≤ 6)
unfolding fault_target
fault_target_bounds cpu e low high = ground arith

notice_pending :
    (cpu : Cpu) (e f : ℕ)
    → was_pending (notice_fault (set_pending cpu e true)) f ≡ was_pending (set_pending cpu e true) f
notice_pending cpu e f =
    was_pending_ext (notice_fault (set_pending cpu e true)) (set_pending cpu e true) f
      (unfold notice_fault in refl) (unfold notice_fault in refl)

-- On a configured core, fault 4, 5 or 6 in the NMI or HardFault locks the core up and changes no
-- pending bit. In any other mode it wakes the core, sets the event register and makes one
-- exception pending: on Armv7E-M the fault's own, if SHCSR enables it and it can preempt, and
-- HardFault else; all other pending bits stay.
pub raise_fault_lem :
    (cpu : Cpu) (e f : ℕ)
    → IsConfigured cpu
    → 4 ≤ e
    → e ≤ 6
    → let after = raise_fault cpu e in
      ((current_exception cpu ≡ 2) ⊎ (current_exception cpu ≡ 3)
        → (after.stop ≡ lockup) × (was_pending after f ≡ was_pending cpu f))
      × ((current_exception cpu < 2) ⊎ (3 < current_exception cpu)
          → (after.sleeping ≡ false)
            × (after.event_register ≡ true)
            × (was_pending after f ≡ (if fault_target cpu e == f then true else was_pending cpu f)))
raise_fault_lem cpu e f ok low high = (
  λ h.
      unfold raise_fault current_exception in
      ground (
        arith,
        was_pending_ext (record cpu { instruction_faulted = true; stop = lockup }) cpu f refl refl,
      ),
  λ outside. rw (raise_fault_pends cpu e low high outside) (
    unfold notice_fault in refl,
    unfold notice_fault in refl,
    notice_pending (fault_base cpu e) (fault_target cpu e) f
        ∙ was_pending-set_pending (fault_base cpu e) (fault_target cpu e) f true
            (fault_base-IsConfigured cpu e ok) (omega (arith, fault_target_bounds cpu e low high))
            (omega (arith, fault_target_bounds cpu e low high))
        ∙ ap (λ b. if fault_target cpu e == f then true else b) (fault_base_pending cpu e f),
  ),
)

-- What `raise_fault_lem` leaves out: a lockup leaves the core asleep or awake, and a fault that is
-- taken does not stop it.
pub raise_fault_rest :
    (cpu : Cpu) (e : ℕ)
    → 4 ≤ e
    → e ≤ 6
    → let after = raise_fault cpu e in
      ((current_exception cpu ≡ 2) ⊎ (current_exception cpu ≡ 3)
        → (after.sleeping ≡ cpu.sleeping) × (after.event_register ≡ cpu.event_register))
      × ((current_exception cpu < 2) ⊎ (3 < current_exception cpu) → after.stop ≡ cpu.stop)
raise_fault_rest cpu e low high = (
  λ h. unfold raise_fault current_exception in ground arith,
  λ outside. rw (raise_fault_pends cpu e low high outside) (
      unfold notice_fault in
      ap (λ (c : Cpu). c.stop) (set_pending_only (fault_base cpu e) (fault_target cpu e) true)
      ∙ (unfold fault_base in ground arith)),
)
