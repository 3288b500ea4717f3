-- ===== src/Timing/State.antt =====
-- src/device/kinetis/timing/api.h: `KinetisTiming`, as far as the watchdog, the external watchdog
-- monitor and the clocks that drive them read or write it.
use kinetis_k22_sim.Base.{ℕ, Bool, List}

-- The timing section of a device profile: whether it is the MKV10Z1287, and which of the two
-- watchdogs it has.
pub record Profile : Type 0 where
  pub is_mkv10 : Bool
  pub has_wdog : Bool
  pub has_ewm : Bool

-- A call of `signals.irq`: the interrupt number and the level.
pub record IrqCall : Type 0 where
  pub number : ℕ
  pub asserted : Bool

-- `irq_calls` lists the calls of `signals.irq` made so far, the last one first.
pub record Timing : Type 0 where
  pub profile : Profile
  pub irq_calls : List IrqCall
  pub slow_irc_hz : ℕ
  pub fast_irc_hz : ℕ
  pub lpo_hz : ℕ
  pub core_clock_hz : ℕ
  pub bus_clock_hz : ℕ
  pub debug_halted : Bool
  pub sim_wdogc : ℕ
  pub mcg : List ℕ
  pub smc : List ℕ
  pub smc_stop_status : ℕ
  pub smc_pmprot_written : Bool
  pub cpu_sleeping : Bool
  pub deep_sleeping : Bool
  pub cpu_only : Bool
  pub wdog : List ℕ
  pub wdog_pending : List ℕ
  pub wdog_counter : ℕ
  pub wdog_update_mask : ℕ
  pub wdog_unlock_stage : ℕ
  pub wdog_refresh_stage : ℕ
  pub wdog_remainder : ℕ
  pub wdog_bus_remainder : ℕ
  pub wdog_bus_cycles : ℕ
  pub wdog_sequence_deadline : ℕ
  pub wdog_update_ready : ℕ
  pub wdog_update_deadline : ℕ
  pub wdog_reset_deadline : ℕ
  pub wdog_initial_debug_remaining : ℕ
  pub wdog_initial_unlock_required : Bool
  pub wdog_initial_debug_pause : Bool
  pub wdog_update_open : Bool
  pub wdog_update_written : Bool
  pub wdog_reset_pending : Bool
  pub ewm_ctrl : ℕ
  pub ewm_cmpl : ℕ
  pub ewm_cmph : ℕ
  pub ewm_prescaler : ℕ
  pub ewm_service_stage : ℕ
  pub ewm_control_written : Bool
  pub ewm_cmpl_written : Bool
  pub ewm_cmph_written : Bool
  pub ewm_prescaler_written : Bool
  pub ewm_input : Bool
  pub ewm_output : Bool
  pub ewm_counter : ℕ
  pub ewm_remainder : ℕ
  pub ewm_service_deadline : ℕ
  pub ewm_service_remaining : ℕ
  pub ewm_service_paused : Bool
  pub reset_generation : ℕ
