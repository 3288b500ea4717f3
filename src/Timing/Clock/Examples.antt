-- ===== src/Timing/Clock/Examples.antt =====
-- Clocks: in a stop mode the bus clock stops, except in partial stop 2; the LPO stops in VLLS0 on MKV10.
use kinetis_k22_sim.Base.{true, false, ◌∷◌, [], flag, replicate, ◌≡◌, refl}
use kinetis_k22_sim.Timing.State.{Timing}
use kinetis_k22_sim.Timing.Sample.{locked, profile}
use kinetis_k22_sim.Timing.Clock.{power_status, bus_clock_running, mcgir_clock_hz, lpo_clock_hz}

abbrev stopped : Timing
stopped = record locked {
  profile = record profile { is_mkv10 = true };
  cpu_sleeping = true;
  deep_sleeping = true;
  smc_stop_status = 0x40;
  smc = 0 ∷ 0 ∷ 0 ∷ 1 ∷ [];
}

partial_stop : Timing
partial_stop = record stopped { smc = 0 ∷ 0 ∷ 0x80 ∷ 1 ∷ [] }

bus_stops_test : bus_clock_running stopped ≡ false
unfolding bus_clock_running
bus_stops_test = refl

bus_runs_test : bus_clock_running partial_stop ≡ true
unfolding bus_clock_running partial_stop
bus_runs_test = refl

lpo_stops_test : lpo_clock_hz stopped ≡ 0
unfolding lpo_clock_hz power_status
lpo_stops_test = refl

irc_test : mcgir_clock_hz (record locked { mcg = 2 ∷ 0 ∷ replicate 14 0 }) ≡ 32768
unfolding mcgir_clock_hz flag
irc_test = refl
