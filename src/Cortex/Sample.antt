-- ===== src/Cortex/Sample.antt =====
-- A core for the tests: it handles interrupt 4 (exception 20), entered from Thread mode, and the more
-- urgent interrupt 5 (exception 21) is pending.
use kinetis_k22_sim.Base.{
  ℕ, ◌<◌, ◌≤◌, false, [], ◌∷◌, ◌!◌, replicate, replicate_zero, ◌≡◌, refl, arith, zero, suc,
}
use kinetis_k22_sim.Cortex.State.{Cpu, armv7e_m, running, ExceptionFrame, IsConfigured}
use kinetis_k22_sim.Cortex.Exceptions.Stack.{IsStack}

abbrev pub frame : ExceptionFrame
frame = record {
  address = 0x20000fe0;
  ici_address = 0;
  return_value = 0xfffffff9;
  stacked_xpsr = 0x01000000;
  it_state = 0;
  ici_register = 0;
  extended = false;
  lazy = false;
  ici_valid = false;
}

abbrev pub core : Cpu
core = record {
  architecture = armv7e_m;
  cpuid = 0x410fc241;
  external_irq_count = 74;
  priority_bits = 4;
  mpu_region_count = 0;
  registers = replicate 16 0x100;
  msp = 0x20001000;
  psp = 0x20002000;
  xpsr = 0x01000014;
  control = 0;
  primask = 0;
  basepri = 0;
  faultmask = 0;
  fpscr = 0;
  fp_registers = replicate 32 0;
  breakpoints = replicate 8 0;
  vtor = 0;
  aircr = 0;
  scr = 0;
  ccr = 0;
  shcsr = 0;
  cfsr = 0;
  hfsr = 0;
  mmfar = 0;
  bfar = 0;
  cpacr = 0;
  fpccr = 0xc0000000;
  fpcar = 0;
  fpdscr = 0;
  mpu_control = 0;
  mpu_region_number = 0;
  mpu_region_base = [];
  mpu_region_attributes = [];
  dfsr = 0;
  afsr = 0;
  systick_control = 0;
  systick_reload = 0;
  systick_current = 0;
  systick_calibration = 0;
  systick_external_phase = 0;
  irq_enabled = 0x70 ∷ replicate 7 0;
  irq_pending = 0x20 ∷ replicate 7 0;
  irq_active = 0x10 ∷ replicate 7 0;
  irq_level = replicate 8 0;
  system_pending = 0;
  irq_priority = 0 ∷ 0 ∷ 0 ∷ 0 ∷ 0x80 ∷ 0x40 ∷ 0xa0 ∷ replicate 67 0;
  system_priority = replicate 12 0;
  exclusive_address = 0;
  exclusive_reservation_base = 0;
  exclusive_size = 0;
  exclusive_granule = 0;
  exception_depth = 1;
  exception_frame_depth = 1;
  it_state = 0x0c;
  breakpoint_enabled = 0;
  exclusive_valid = false;
  event_register = false;
  sleeping = false;
  reset_requested = false;
  instruction_faulted = false;
  stop = running;
  exception_frames = frame ∷ [];
  active_exceptions = 20 ∷ replicate 15 0;
  ici_address = 0;
  ici_register = 0;
  ici_valid = false;
  exception_unstack_memory_fault = false;
  exception_frame_memory_management_fault = false;
  debug = record { itm_trace_privilege = 0; halted = false };
}

-- The core with Armv7-M's masks.
abbrev pub masked : Cpu
masked = record core { primask = 1 }

abbrev pub raised_base : Cpu
raised_base = record core { basepri = 0x60 }

pub core-IsConfigured : IsConfigured core
core-IsConfigured = record {
  irq_count = omega arith;
  pending_words = refl;
  enabled_words = refl;
  active_words = refl;
  level_words = refl;
  active_cells = refl;
}

core_entries : (i : ℕ) → i < 1 → 2 ≤ core.active_exceptions ! i
core_entries zero h = omega arith
core_entries (suc i) h = absurd (omega arith)

core_clean : (i : ℕ) → 1 ≤ i → core.active_exceptions ! i ≡ 0
core_clean zero h = absurd (omega arith)
core_clean (suc i) h = replicate_zero 15 i

pub core-IsStack : IsStack core
core-IsStack = record { fits = omega arith; entries = core_entries; clean = core_clean }
