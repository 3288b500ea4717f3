-- ===== src/Cortex/Pending.antt =====
-- src/architecture/cortex_m4/system.c, exceptions/base.c and exceptions/advanced.c: the pending
-- bits of exceptions, and the lines of external interrupts.
pub mod Bits
pub mod Wake
pub mod Frame
pub mod Examples
pub mod Lines
use kinetis_k22_sim.Base.{
  ℕ, ◌+◌, ◌-◌, ◌*◌, ◌/◌, ◌%◌, ◌^◌, bit_and, bit_or, Bool, true, false, not, ◌&&◌, ◌||◌, ltb, leb,
  ◌==◌, ◌!=◌, if◌then◌else◌, ◌!◌, ◌<<◌, ◌>>◌, u8, u32, not32, flag, set, for_range, List,
}
use kinetis_k22_sim.Cortex.State.{Cpu}

-- `1u << (irq & 31u)`.
unfoldable pub irq_mask : ℕ → ℕ
irq_mask irq = 1 << (bit_and irq 31)

unfoldable pub external_irq_word_count : Cpu → ℕ
external_irq_word_count cpu = u8 ((cpu.external_irq_count + 31) / 32)

-- The loop of `has_enabled_external_pending`, over the words from `index` on.
has_enabled_from : Cpu → ℕ → ℕ → Bool
has_enabled_from cpu left index =
    for_range left index (λ i found. found || flag (cpu.irq_pending ! i) (cpu.irq_enabled ! i))
      false

pub has_enabled_external_pending : Cpu → Bool
has_enabled_external_pending cpu = has_enabled_from cpu (external_irq_word_count cpu) 0

pub has_wakeup_pending : Cpu → Bool
has_wakeup_pending cpu = cpu.system_pending != 0 || has_enabled_external_pending cpu

-- `cortex_m4_system_wait_for_interrupt`.
pub wait_for_interrupt : Cpu → Cpu
wait_for_interrupt cpu = record cpu { sleeping = not (has_wakeup_pending cpu) }

-- `system_pending` and `external_pending` of exceptions/advanced.c.
unfoldable pub system_is_pending : Cpu → ℕ → Bool
system_is_pending cpu exception = flag cpu.system_pending (1 << exception)

unfoldable pub external_is_pending : Cpu → ℕ → Bool
external_is_pending cpu exception =
    let irq = exception - 16 in
    flag (bit_and (cpu.irq_pending ! (irq / 32)) (cpu.irq_enabled ! (irq / 32))) (irq_mask irq)

unfoldable pub exception_pending : Cpu → ℕ → Bool
exception_pending cpu exception =
    if ltb exception 16 then system_is_pending cpu exception else external_is_pending cpu exception

pub write_bit : ℕ → ℕ → Bool → ℕ
write_bit word mask true = bit_or word mask
write_bit word mask false = bit_and word (not32 mask)

-- The first part of `cortex_m4_system_set_pending`: the bit, and whether it was set before.
pub write_pending : Cpu → ℕ → Bool → Cpu
write_pending cpu exception pending =
    if ltb exception 16
    then record cpu { system_pending = write_bit cpu.system_pending (1 << exception) pending }
    else let irq = exception - 16 in
      record cpu {
        irq_pending =
            set cpu.irq_pending (irq / 32)
              (write_bit (cpu.irq_pending ! (irq / 32)) (irq_mask irq) pending);
      }

unfoldable pub was_pending : Cpu → ℕ → Bool
was_pending cpu exception =
    if ltb exception 16
    then flag cpu.system_pending (1 << exception)
    else let irq = exception - 16 in flag (cpu.irq_pending ! (irq / 32)) (irq_mask irq)

-- Its second part: SEVONPEND sets the event register, and a pending exception ends the sleep.
pub signal_pending : Cpu → Bool → Bool → Cpu
signal_pending cpu pending was =
    let woken =
      if pending && not was && flag cpu.scr 0x10
      then record cpu { event_register = true }
      else cpu in
    if pending && has_wakeup_pending woken then record woken { sleeping = false } else woken

-- `cortex_m4_system_set_pending`.
pub set_pending : Cpu → ℕ → Bool → Cpu
set_pending cpu exception pending =
    if ltb exception 2 || leb (cpu.external_irq_count + 16) exception
    then cpu
    else signal_pending (write_pending cpu exception pending) pending (was_pending cpu exception)

-- `cortex_m4_set_irq`.
pub set_irq : Cpu → ℕ → Bool → Cpu
set_irq cpu irq pending =
    if leb cpu.external_irq_count irq then cpu else set_pending cpu (irq + 16) pending

-- `cortex_m4_get_irq_pending` and `cortex_m4_get_irq_active`.
pub get_irq_pending : Cpu → ℕ → Bool
get_irq_pending cpu irq =
    if leb cpu.external_irq_count irq
    then false
    else flag (cpu.irq_pending ! (irq / 32)) (irq_mask irq)

unfoldable pub get_irq_active : Cpu → ℕ → Bool
get_irq_active cpu irq =
    if leb cpu.external_irq_count irq
    then false
    else flag (cpu.irq_active ! (irq / 32)) (irq_mask irq)

-- The two branches of `cortex_m4_set_irq_level`.
pub raise_irq_level : Cpu → ℕ → Cpu
raise_irq_level cpu irq =
    let was_asserted = flag (cpu.irq_level ! (irq / 32)) (irq_mask irq) in
    let raised = record cpu {
      irq_level = set cpu.irq_level (irq / 32) (bit_or (cpu.irq_level ! (irq / 32)) (irq_mask irq));
    } in
    if not was_asserted || (not (get_irq_pending raised irq) && not (get_irq_active raised irq))
    then set_irq raised irq true
    else raised

pub lower_irq_level : Cpu → ℕ → Cpu
lower_irq_level cpu irq = record cpu {
  irq_level =
      set cpu.irq_level (irq / 32) (bit_and (cpu.irq_level ! (irq / 32)) (not32 (irq_mask irq)));
}

-- `cortex_m4_set_irq_level`.
pub set_irq_level : Cpu → ℕ → Bool → Cpu
set_irq_level cpu irq asserted =
    if leb cpu.external_irq_count irq
    then cpu
    else if asserted
    then raise_irq_level cpu irq
    else lower_irq_level cpu irq
