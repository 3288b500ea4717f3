-- ===== src/Cortex/SysTick.antt =====
-- src/architecture/cortex_m4/bus.c: `cortex_m4_advance`, which counts SysTick. The cycle counter, the
-- debug unit and the device, which are told of the cycles after the loop, are not part of it.
pub mod Period
pub mod Examples
use kinetis_k22_sim.Base.{
  ℕ, ◌+◌, ◌-◌, ◌%◌, ◌^◌, bit_and, bit_or, Bool, true, false, not, ◌&&◌, ◌||◌, ◌==◌, ◌!=◌,
  if◌then◌else◌, ◌<<◌, flag, u8, for_range,
}
use kinetis_k22_sim.Cortex.State.{Cpu, is_armv6_m}
use kinetis_k22_sim.Cortex.Pending.{set_pending}

-- The counter reaches 0: COUNTFLAG, and the exception if TICKINT is set.
pub expire : Cpu → Cpu
expire cpu =
    let counted = record cpu { systick_control = bit_or cpu.systick_control (1 << 16) } in
    if flag counted.systick_control 2
    then record (set_pending counted 15 true) { sleeping = false }
    else counted

pub count_down : Cpu → Cpu
count_down cpu =
    let counted = record cpu { systick_current = cpu.systick_current - 1 } in
    if cpu.systick_current == 0
    then record cpu { systick_current = cpu.systick_reload }
    else if counted.systick_current == 0
    then expire counted
    else counted

-- On Armv6-M the external clock is one core cycle in 16.
abbrev pub core_clocked : Cpu → Bool
core_clocked cpu = not (is_armv6_m cpu.architecture) || flag cpu.systick_control (1 << 2)

pub next_phase : Cpu → Cpu
next_phase cpu =
    if core_clocked cpu
    then cpu
    else record cpu { systick_external_phase = bit_and (u8 (cpu.systick_external_phase + 1)) 15 }

-- One round of the loop; `sleeping` is the state before it.
pub systick_cycle : Bool → Cpu → Cpu
systick_cycle sleeping cpu =
    let phased = next_phase cpu in
    let clocked = core_clocked cpu || phased.systick_external_phase == 0 in
    if sleeping && is_armv6_m cpu.architecture
    then cpu
    else if flag phased.systick_control 1 && clocked
    then count_down phased
    else phased

pub advance_systick : Cpu → ℕ → Cpu
advance_systick cpu cycles = for_range cycles 0 (λ cycle c. systick_cycle cpu.sleeping c) cpu
