-- ===== src/Timing/Sample.antt =====
-- Timing states for the tests: the watchdog of a K22 with the interrupt and updates enabled, first locked,
-- then with an open update window; and a running external watchdog monitor.
use kinetis_k22_sim.Base.{
  ℕ, ◌^◌, ◌<◌, true, false, List, [], ◌∷◌, ◌!◌, replicate, all_ltb_sound, refl, arith,
}
use kinetis_k22_sim.Timing.State.{Timing, Profile}

abbrev pub profile : Profile
profile = record { is_mkv10 = false; has_wdog = true; has_ewm = true }

-- Enabled, with IRQRSTEN and ALLOWUPDATE, on the LPO; the timeout is 1000 ticks.
abbrev pub registers : List ℕ
registers = 0x01d5 ∷ 1 ∷ 0 ∷ 1000 ∷ 0 ∷ 0x10 ∷ 0xb480 ∷ 0xd928 ∷ 0 ∷ 0 ∷ 0 ∷ 0x0400 ∷ []

abbrev pub locked : Timing
locked = record {
  profile = profile;
  irq_calls = [];
  slow_irc_hz = 32768;
  fast_irc_hz = 4000000;
  lpo_hz = 1000;
  core_clock_hz = 120000000;
  bus_clock_hz = 60000000;
  debug_halted = false;
  sim_wdogc = 0;
  mcg = replicate 16 0;
  smc = 0 ∷ 0 ∷ 3 ∷ 1 ∷ [];
  smc_stop_status = 0;
  smc_pmprot_written = false;
  cpu_sleeping = false;
  deep_sleeping = false;
  cpu_only = false;
  wdog = registers;
  wdog_pending = registers;
  wdog_counter = 400;
  wdog_update_mask = 0;
  wdog_unlock_stage = 0;
  wdog_refresh_stage = 0;
  wdog_remainder = 0;
  wdog_bus_remainder = 0;
  wdog_bus_cycles = 5000;
  wdog_sequence_deadline = 0;
  wdog_update_ready = 0;
  wdog_update_deadline = 0;
  wdog_reset_deadline = 0;
  wdog_initial_debug_remaining = 0;
  wdog_initial_unlock_required = false;
  wdog_initial_debug_pause = false;
  wdog_update_open = false;
  wdog_update_written = false;
  wdog_reset_pending = false;
  ewm_ctrl = 9;
  ewm_cmpl = 10;
  ewm_cmph = 200;
  ewm_prescaler = 0;
  ewm_service_stage = 0;
  ewm_control_written = true;
  ewm_cmpl_written = true;
  ewm_cmph_written = true;
  ewm_prescaler_written = true;
  ewm_input = false;
  ewm_output = false;
  ewm_counter = 100;
  ewm_remainder = 0;
  ewm_service_deadline = 0;
  ewm_service_remaining = 0;
  ewm_service_paused = false;
  reset_generation = 1;
}

abbrev pub opened : Timing
opened = record locked {
  wdog_update_open = true;
  wdog_update_ready = 4900;
  wdog_update_deadline = 5156;
}

-- The cells of the sample registers are 16-bit values.
pub registers_fit : (i : ℕ) → registers ! i < 2 ^ 16
registers_fit = all_ltb_sound (2 ^ 16) registers (omega arith) refl
