-- ===== src/Timing/Clock.antt =====
-- src/device/kinetis/timing/clocks.c and registers.c: the ticks of a source clock in a span of core
-- cycles, and the clocks of the watchdogs.
pub mod Exact
pub mod Examples
use kinetis_k22_sim.Base.{
  ℕ, ◌+◌, ◌*◌, ◌/◌, ◌%◌, ◌^◌, bit_and, Bool, true, false, not, ◌&&◌, ◌||◌, ◌==◌, ◌!=◌,
  if◌then◌else◌, ◌!◌, ◌>>◌, flag, u64,
}
use kinetis_k22_sim.Timing.State.{Timing}

-- The ticks, and the remainder that is carried to the next call.
pub record Ticks : Type 0 where
  pub ticks : ℕ
  pub remainder : ℕ

-- `kinetis_timing_internal_clock_ticks`.
unfoldable pub clock_ticks : ℕ → ℕ → ℕ → ℕ → Ticks
clock_ticks remainder cycles source_hz core_hz =
    if source_hz == 0 || core_hz == 0
    then record { ticks = 0; remainder = remainder }
    else let accumulated_cycles = u64 (remainder + u64 (cycles * source_hz)) in
      record { ticks = accumulated_cycles / core_hz; remainder = accumulated_cycles % core_hz }

-- `kinetis_timing_power_status`.
pub power_status : Timing → ℕ
power_status timing =
    if timing.deep_sleeping && timing.smc_stop_status != 0
    then timing.smc_stop_status
    else timing.smc ! 3

-- `kinetis_timing_bus_clock_running`.
unfoldable pub bus_clock_running : Timing → Bool
bus_clock_running timing =
    if timing.cpu_only
    then false
    else if not timing.deep_sleeping
    then true
    else bit_and (timing.smc ! 1) 7 == 0 && bit_and (timing.smc ! 2 >> 6) 3 == 2

-- `kinetis_timing_internal_mcgir_clock_hz`.
pub mcgir_clock_hz : Timing → ℕ
mcgir_clock_hz timing =
    if not (flag (timing.mcg ! 0) 2)
      || (timing.deep_sleeping
          && (not (flag (timing.mcg ! 0) 1)
              || (power_status timing != 2 && power_status timing != 0x10)))
    then 0
    else if flag (timing.mcg ! 1) 1
    then timing.fast_irc_hz >> bit_and (timing.mcg ! 8 >> 1) 7
    else timing.slow_irc_hz

-- `kinetis_timing_internal_lpo_clock_hz`.
unfoldable pub lpo_clock_hz : Timing → ℕ
lpo_clock_hz timing =
    if timing.profile.is_mkv10
      && timing.deep_sleeping
      && power_status timing == 0x40
      && bit_and (timing.smc ! 2) 7 == 0
    then 0
    else timing.lpo_hz
