-- ===== src/Cortex/Pending/Wake.antt =====
-- A pending exception ends the sleep.
use kinetis_k22_sim.Base.{
  ℕ, ◌+◌, ◌-◌, ◌/◌, ◌%◌, ◌<◌, ◌≤◌, bit_and, Bool, true, false, ◌&&◌, ltb, ◌==◌, if◌then◌else◌, ◌!◌,
  flag, arith, ◌≡◌, sym, ◌∙◌, u8, for_range_inv, bit-and, flag_of_bit, flag-zero, ◌<<◌, Bool-cases,
  inl, inr, ==→≡,
}
use kinetis_k22_sim.Cortex.State.{Cpu, IsConfigured}
use kinetis_k22_sim.Cortex.Pending.{
  irq_mask, external_irq_word_count, has_enabled_from, has_enabled_external_pending,
  has_wakeup_pending, system_is_pending, external_is_pending, exception_pending, write_pending,
  was_pending, signal_pending, set_pending, wait_for_interrupt,
}
use kinetis_k22_sim.Cortex.Pending.Bits.{flag_mask, was_pending-set_pending}

-- What the scan of the words has found is kept.
has_enabled_from_lem :
    (cpu : Cpu) (i n : ℕ)
    → i < n
    → flag (cpu.irq_pending ! i) (cpu.irq_enabled ! i) ≡ true
    → has_enabled_from cpu n 0 ≡ true
unfolding has_enabled_from
has_enabled_from_lem cpu i n h e =
    for_range_inv (λ (k : ℕ) (found : Bool). i < k → found ≡ true) _ n
      (λ k found below ih after. elim (Bool-cases (i == k)) [
        | inl here ↦ rw (← ==→≡ i k here, e) (ground arith)
        | inr other ↦ rw (ih (ground arith))
      ])
      n 0 false (omega arith) (λ p. absurd (omega arith)) h

-- Bit `e` of `system_pending` is a reason to wake up.
system_wakeup : (cpu : Cpu) (e : ℕ) → system_is_pending cpu e ≡ true → has_wakeup_pending cpu ≡ true
unfolding system_is_pending has_wakeup_pending
system_wakeup cpu e h = ground (arith, flag-zero (1 << e))

external_wakeup :
    (cpu : Cpu) (e : ℕ)
    → 16 ≤ e
    → e < cpu.external_irq_count + 16
    → cpu.external_irq_count ≤ 240
    → external_is_pending cpu e ≡ true
    → has_wakeup_pending cpu ≡ true
unfolding external_is_pending has_wakeup_pending has_enabled_external_pending
    external_irq_word_count
external_wakeup cpu e lo hi bound h =
    let word = (e - 16) / 32 in
    let shared : flag (cpu.irq_pending ! word) (cpu.irq_enabled ! word) ≡ true =
      flag_of_bit (cpu.irq_pending ! word) (cpu.irq_enabled ! word) ((e - 16) % 32) (
        sym (flag_mask (bit_and (cpu.irq_pending ! word) (cpu.irq_enabled ! word)) (e - 16)) ∙ h) in
    ground (
      arith,
      has_enabled_from_lem cpu word (u8 ((cpu.external_irq_count + 31) / 32)) (omega arith) shared,
    )

-- A pending system exception, or a pending and enabled interrupt, is a reason to wake up.
pub has_wakeup-exception_pending :
    (cpu : Cpu) (e : ℕ)
    → e < cpu.external_irq_count + 16
    → cpu.external_irq_count ≤ 240
    → exception_pending cpu e ≡ true
    → has_wakeup_pending cpu ≡ true
unfolding exception_pending
has_wakeup-exception_pending cpu e hi bound h =
    ground (arith, system_wakeup cpu e, external_wakeup cpu e)

-- On a core with at most 240 interrupts, `WFI` does not put the core to sleep while an implemented
-- exception is pending for it.
pub wait_for_interrupt-pending :
    (cpu : Cpu) (e : ℕ)
    → e < cpu.external_irq_count + 16
    → cpu.external_irq_count ≤ 240
    → exception_pending cpu e ≡ true
    → (wait_for_interrupt cpu).sleeping ≡ false
unfolding wait_for_interrupt
wait_for_interrupt-pending cpu e hi bound h = rw (has_wakeup-exception_pending cpu e hi bound h)

signal_pending_wakes :
    (cpu : Cpu) (was : Bool)
    → has_wakeup_pending (signal_pending cpu true was) ≡ true
    → (signal_pending cpu true was).sleeping ≡ false
unfolding signal_pending has_wakeup_pending has_enabled_external_pending external_irq_word_count
    has_enabled_from
signal_pending_wakes cpu was h = ground arith

-- Whether NVIC_ISER enables the exception; the system exceptions need no enabling here.
unfoldable pub exception_enabled : Cpu → ℕ → Bool
exception_enabled cpu e =
    if ltb e 16 then true else flag (cpu.irq_enabled ! ((e - 16) / 32)) (irq_mask (e - 16))

-- An exception is pending for the core when its bit is set and it is enabled.
pub exception_pending_lem :
    (cpu : Cpu) (e : ℕ) → exception_pending cpu e ≡ (was_pending cpu e && exception_enabled cpu e)
unfolding exception_pending system_is_pending external_is_pending was_pending exception_enabled
exception_pending_lem cpu e =
    let word = (e - 16) / 32 in
    ground (
      arith,
      flag_mask (bit_and (cpu.irq_pending ! word) (cpu.irq_enabled ! word)) (e - 16),
      bit-and (cpu.irq_pending ! word) (cpu.irq_enabled ! word) ((e - 16) % 32),
      flag_mask (cpu.irq_pending ! word) (e - 16),
      flag_mask (cpu.irq_enabled ! word) (e - 16),
    )

set_pending_frame :
    (cpu : Cpu) (e : ℕ) (pending : Bool)
    → ((set_pending cpu e pending).irq_enabled ≡ cpu.irq_enabled)
      × ((set_pending cpu e pending).external_irq_count ≡ cpu.external_irq_count)
unfolding set_pending signal_pending write_pending
set_pending_frame cpu e pending = ground arith

exception_enabled-set_pending :
    (cpu : Cpu) (e f : ℕ) (pending : Bool)
    → exception_enabled (set_pending cpu e pending) f ≡ exception_enabled cpu f
unfolding exception_enabled
exception_enabled-set_pending cpu e f pending = rw ((set_pending_frame cpu e pending).0)

-- On a configured core, making an implemented and enabled exception pending makes it a candidate,
-- and wakes the core.
pub set_pending_wakes :
    (cpu : Cpu) (e : ℕ)
    → IsConfigured cpu
    → 2 ≤ e
    → e < cpu.external_irq_count + 16
    → exception_enabled cpu e ≡ true
    → (exception_pending (set_pending cpu e true) e ≡ true)
      × ((set_pending cpu e true).sleeping ≡ false)
set_pending_wakes cpu e ok lo hi enabled = (candidate, awake)
  where
    candidate : exception_pending (set_pending cpu e true) e ≡ true
    candidate = ground (
      arith,
      exception_pending_lem (set_pending cpu e true) e,
      was_pending-set_pending cpu e e true ok lo hi,
      exception_enabled-set_pending cpu e e true,
    )

    wakeable : has_wakeup_pending (set_pending cpu e true) ≡ true
    wakeable =
        has_wakeup-exception_pending (set_pending cpu e true) e
          (omega (arith, (set_pending_frame cpu e true).1))
          (omega (arith, (set_pending_frame cpu e true).1, ok.irq_count)) candidate

    enters :
        set_pending cpu e true ≡ signal_pending (write_pending cpu e true) true (was_pending cpu e)
    enters = unfold set_pending in ground arith

    awake : (set_pending cpu e true).sleeping ≡ false
    awake = rw enters (
        signal_pending_wakes (write_pending cpu e true) (was_pending cpu e) (rw enters at wakeable))
