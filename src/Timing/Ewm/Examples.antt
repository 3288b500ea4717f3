-- ===== src/Timing/Ewm/Examples.antt =====
-- The external watchdog monitor with time: 12000000 cycles are 100 ticks of the LPO.
use kinetis_k22_sim.Base.{◌+◌, flag, some, none, ◌≡◌, refl}
use kinetis_k22_sim.Timing.Sample.{locked}
use kinetis_k22_sim.Timing.Clock.{clock_ticks, lpo_clock_hz}
use kinetis_k22_sim.Timing.Watchdog.{update_watchdog_interrupt}
use kinetis_k22_sim.Timing.Ewm.{ewm_base, advance_ewm, count_ewm, trigger_ewm_output, read_ewm}

advance_test : (advance_ewm locked 11000000).ewm_counter ≡ 191
unfolding advance_ewm count_ewm clock_ticks lpo_clock_hz flag trigger_ewm_output
    update_watchdog_interrupt
advance_test = refl

read_test : read_ewm locked (ewm_base + 3) 1 ≡ some 200
unfolding read_ewm
read_test = refl

gap_test : read_ewm locked (ewm_base + 4) 1 ≡ none
unfolding read_ewm
gap_test = refl
