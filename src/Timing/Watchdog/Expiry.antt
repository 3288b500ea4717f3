-- ===== src/Timing/Watchdog/Expiry.antt =====
-- The watchdog's counter against its timeout, and the reset that follows the interrupt.
use kinetis_k22_sim.Base.{
  ℕ, ◌+◌, ◌-◌, ◌%◌, ◌^◌, ◌<◌, Bool, true, false, not, ◌||◌, leb, ◌==◌, if◌then◌else◌, ◌!◌, length,
  bit, Bool-cases, inl, inr, ◌≡◌, refl, ◌∙◌, arith,
}
use kinetis_k22_sim.Timing.State.{Timing}
use kinetis_k22_sim.Timing.Watchdog.{
  Outcome, running, reset, handle_watchdog_expiration, process_watchdog_bus_time,
  advance_watchdog_bus_time, close_update_window, watchdog_advance,
}
use kinetis_k22_sim.Timing.Watchdog.Timeout.{
  timeout, is_counting, interrupted, expired, handle_watchdog_expiration_lem,
  is_watchdog_running_lem, effective_watchdog_timeout_lem,
}

abbrev pub count : Timing → ℕ → Timing
count timing ticks = record timing { wdog_counter = timing.wdog_counter + ticks }

-- The tests of `watchdog_advance`, past the stop: the subtraction does not wrap where it is reached.
advance_cases :
    (stopped : Bool) (limit counter ticks : ℕ) (idle done on : Outcome)
    → limit < 2 ^ 32
    → counter < 2 ^ 32
    → (ticks == 0 ≡ true → stopped ≡ true)
    → (if stopped
        then idle
        else if limit == 0 || leb limit counter || leb ((limit + 2 ^ 32 - counter) % 2 ^ 32) ticks
        then done
        else on)
      ≡ (if stopped then idle else if leb limit (counter + ticks) then done else on)
advance_cases stopped limit counter ticks idle done on small fits never =
    elim (Bool-cases stopped) [
      | inl halt ↦ rw halt refl
      | inr runs ↦ elim (Bool-cases (leb limit counter)) [
        | inl past ↦ ground arith
        | inr before ↦
            let below : counter < limit = ground arith in
            let whole : (limit + 2 ^ 32 - counter) % 2 ^ 32 ≡ limit - counter = omega arith in
            ground arith
      ]
    ]

timeout-lt :
    (timing : Timing)
    → timing.wdog ! 2 < 2 ^ 16
    → timing.wdog ! 3 < 2 ^ 16
    → timeout timing < 2 ^ 32
timeout-lt timing high low = ground arith

-- With at least two register cells, 16-bit words in the timeout registers and a 32-bit count: given
-- no tick, or absent, or not counting, the watchdog does nothing; it counts with WDOGEN, in debug
-- only with DBGEN, asleep only with WAITEN and deeply asleep only with STOPEN, never in VLLS of the
-- MKV10. Else it expires exactly when the count with the ticks reaches the timeout, and else has
-- counted the ticks. The timeout is the two words, or in the byte test the byte of them that BYTESEL
-- selects. An expiration clears the count; with IRQRSTEN and no reset pending it sets INTFLG, calls
-- interrupt 22 (23 on the MKV10) and schedules the reset in 256 bus cycles, and else it resets.
pub watchdog_advance_lem :
    (timing : Timing) (ticks : ℕ)
    → 1 < length timing.wdog
    → timing.wdog ! 2 < 2 ^ 16
    → timing.wdog ! 3 < 2 ^ 16
    → timing.wdog_counter < 2 ^ 32
    → watchdog_advance timing ticks ≡ (
        if ticks == 0 || not timing.profile.has_wdog || not (is_counting timing)
        then running timing
        else if leb (timeout timing) (timing.wdog_counter + ticks)
        then expired timing
        else running (count timing ticks))
unfolding watchdog_advance
watchdog_advance_lem timing ticks cells high low counter =
    let value = effective_watchdog_timeout_lem timing low in
    let expires = handle_watchdog_expiration_lem timing cells in
    let runs = is_watchdog_running_lem timing in
    let small = timeout-lt timing high low in
    rw (value, expires, runs)
      (advance_cases (ticks == 0 || not timing.profile.has_wdog || not (is_counting timing))
        (timeout timing) timing.wdog_counter ticks (running timing) (expired timing)
        (running (count timing ticks)) small counter (λ h. rw h refl))

-- No sequence and no window is under way.
pub record IsQuiet (timing : Timing) : Type 0 where
  pub unlock : timing.wdog_unlock_stage ≡ 0
  pub refresh : timing.wdog_refresh_stage ≡ 0
  pub update : timing.wdog_update_open ≡ false
  pub initial : timing.wdog_initial_unlock_required ≡ false

-- With at least two register cells, the interrupt enabled (IRQRSTEN), no reset pending, no sequence
-- or window under way and a cycle count that does not wrap, an expiration clears the count, sets
-- INTFLG, calls interrupt 22 (23 on the MKV10) and schedules the reset, and changes nothing else; any
-- number of bus cycles in one step then end in a reset if they are 256 or more, and only count if
-- they are fewer.
pub reset_after_interrupt :
    (timing : Timing) (bus_ticks : ℕ)
    → IsQuiet timing
    → 1 < length timing.wdog
    → bit (timing.wdog ! 0) 2 ≡ true
    → timing.wdog_reset_pending ≡ false
    → timing.wdog_bus_cycles + bus_ticks < 2 ^ 64
    → timing.wdog_bus_cycles + 256 < 2 ^ 64
    → let later = record (interrupted timing) {
      wdog_bus_cycles = timing.wdog_bus_cycles + bus_ticks;
    } in
      (handle_watchdog_expiration timing ≡ running (interrupted timing))
      × (advance_watchdog_bus_time (interrupted timing) bus_ticks
          ≡ (if leb 256 bus_ticks then reset later 0x20 0 else running later))
unfolding advance_watchdog_bus_time process_watchdog_bus_time close_update_window
reset_after_interrupt timing bus_ticks quiet cells enabled fresh fits fits' =
    let u = quiet.unlock in
    let r = quiet.refresh in
    let o = quiet.update in
    let i = quiet.initial in
    let asked : expired timing ≡ running (interrupted timing) = rw (enabled, fresh) refl in
    (handle_watchdog_expiration_lem timing cells ∙ asked, ground arith)
