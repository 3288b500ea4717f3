-- ===== src/Cortex/Scs/Reset.antt =====
-- system.c: `cortex_m4_system_reset`, and the state that it starts from. The reset of the debug unit
-- is a parameter.
use kinetis_k22_sim.Base.{
  ℕ, ◌-◌, ◌/◌, bit_and, bit_or, false, ◌==◌, if◌then◌else◌, ◌<<◌, replicate, ◌≡◌, refl, arith,
  replicate_zero, flag, flag_none, for_range,
}
use kinetis_k22_sim.Cortex.State.{Cpu, is_armv6_m}
use kinetis_k22_sim.Cortex.Exceptions.{empty_frame, reset_exceptions}
use kinetis_k22_sim.Cortex.Exceptions.Stack.{IsStack}
use kinetis_k22_sim.Cortex.Mpu.{mpu_reset, mpu_active}
use kinetis_k22_sim.Cortex.Scs.Reserved.{IsImplemented}
use kinetis_k22_sim.Cortex.Scs.Priorities.{zeros_priorities}
use kinetis_k22_sim.Cortex.Pending.{irq_mask, was_pending, get_irq_active}
use kinetis_k22_sim.Cortex.Selection.{exception_active}

-- timing.c, `cortex_m4_timing_reset`, on the fields of the model.
pub timing_reset : Cpu → Cpu
timing_reset cpu = record cpu { exclusive_granule = 0; exclusive_valid = false }

abbrev pub reset_cpuid : Cpu → ℕ
reset_cpuid cpu =
    if cpu.cpuid == 0
    then (if is_armv6_m cpu.architecture then 0x410cc601 else 0x410fc241)
    else cpu.cpuid

-- The registers before the resets of the other units, and the arrays after them.
pub reset_registers : Cpu → Cpu
reset_registers cpu = record cpu {
  cpuid = reset_cpuid cpu;
  vtor = 0;
  aircr = 0;
  scr = 0;
  ccr = if is_armv6_m cpu.architecture then 0x208 else 1 << 9;
  shcsr = 0;
  cfsr = 0;
  hfsr = 0;
  dfsr = 0;
  mmfar = 0;
  bfar = 0;
  afsr = 0;
  cpacr = 0;
  fpccr = if is_armv6_m cpu.architecture then 0 else bit_or (1 << 31) (1 << 30);
  fpcar = 0;
  fpdscr = 0;
  fpscr = 0;
  primask = 0;
  basepri = 0;
  faultmask = 0;
  system_pending = 0;
  systick_control = 0;
  systick_reload = 0;
  systick_current = 0;
  systick_external_phase = 0;
  exception_frame_depth = 0;
}

pub reset_arrays : Cpu → Cpu
reset_arrays cpu = record cpu {
  irq_enabled = replicate 8 0;
  irq_pending = replicate 8 0;
  irq_active = replicate 8 0;
  irq_priority = replicate 240 0;
  system_priority = replicate 12 0;
  exception_frames = replicate 16 empty_frame;
}

zero_vtor :
    (cpu : Cpu) → bit_and 0 (if is_armv6_m cpu.architecture then 0xffffff00 else 0xffffff80) ≡ 0
zero_vtor cpu = ground arith

reset_ccr :
    (cpu : Cpu)
    → bit_and (if is_armv6_m cpu.architecture then 0x208 else 1 << 9) 0x0000031b
      ≡ (if is_armv6_m cpu.architecture then 0x208 else 1 << 9)
reset_ccr cpu = ground arith

reset_fpccr :
    (cpu : Cpu)
    → bit_and (if is_armv6_m cpu.architecture then 0 else bit_or (1 << 31) (1 << 30)) 0xc0000009
      ≡ (if is_armv6_m cpu.architecture then 0 else bit_or (1 << 31) (1 << 30))
reset_fpccr cpu = ground arith

module _ (debug_reset : Cpu → Cpu) where
  pub system_reset : Cpu → Cpu
  system_reset cpu =
      reset_arrays (timing_reset (debug_reset (mpu_reset (reset_exceptions (reset_registers cpu)))))

  -- Reset, with a debug unit whose reset touches only its own state, leaves no exception and no
  -- interrupt active or pending, an active stack that is well formed and empty, no fault status, the
  -- memory protection off, and in the registers of the system control space only bits that they
  -- implement, whatever the state was before.
  pub system_reset_lem :
      (cpu : Cpu) (pending active irq : ℕ)
      → ((c : Cpu) → debug_reset c ≡ record c { debug = (debug_reset c).debug })
      → let reset = system_reset cpu in
        IsImplemented reset
        × IsStack reset
        × (reset.exception_depth ≡ 0)
        × (was_pending reset pending ≡ false)
        × (exception_active reset active ≡ false)
        × (get_irq_active reset irq ≡ false)
        × (reset.cfsr ≡ 0)
        × (reset.hfsr ≡ 0)
        × (reset.dfsr ≡ 0)
        × (mpu_active reset ≡ false)
  unfolding system_reset reset_registers reset_arrays timing_reset reset_exceptions mpu_reset
      was_pending exception_active get_irq_active for_range
  system_reset_lem cpu pending active irq law =
      let units = mpu_reset (reset_exceptions (reset_registers cpu)) in
      rw (law units) (
        (
          refl,
          refl,
          zero_vtor cpu,
          refl,
          refl,
          refl,
          refl,
          refl,
          refl,
          reset_ccr cpu,
          refl,
          refl,
          refl,
          reset_fpccr cpu,
          zeros_priorities (8 - cpu.priority_bits) 240,
          zeros_priorities (8 - cpu.priority_bits) 12,
        ),
        record {
          fits = omega arith;
          entries = λ i h. absurd (omega arith);
          clean = λ i h. replicate_zero 16 i;
        },
        refl,
        ground (
          arith,
          flag_none (1 << pending),
          flag_none (irq_mask (pending - 16)),
          replicate_zero 8 ((pending - 16) / 32),
        ),
        ground arith,
        ground (arith, flag_none (irq_mask irq), replicate_zero 8 (irq / 32)),
        refl,
        refl,
        refl,
        unfold mpu_active flag in (ground arith),
      )
