-- ===== src/Timing/Watchdog/Examples.antt =====
-- The passage of time: 1200000 cycles are two ticks of the LPO divided by 5.
use kinetis_k22_sim.Base.{ℕ, flag, ◌≡◌, refl}
use kinetis_k22_sim.Timing.Sample.{locked}
use kinetis_k22_sim.Timing.Clock.{clock_ticks, bus_clock_running, lpo_clock_hz}
use kinetis_k22_sim.Timing.Watchdog.{
  Outcome, running, reset, advance_wdog, advance_watchdog_bus_time, process_watchdog_bus_time,
  close_update_window, is_watchdog_running, watchdog_advance, effective_watchdog_timeout,
}

abbrev counter : Outcome → ℕ
counter (running timing) = timing.wdog_counter
counter (reset timing srs0 srs1) = 0

advance_test : counter (advance_wdog locked 1200000) ≡ 402
unfolding advance_wdog advance_watchdog_bus_time process_watchdog_bus_time close_update_window
    is_watchdog_running watchdog_advance effective_watchdog_timeout clock_ticks bus_clock_running
    lpo_clock_hz flag
advance_test = refl
