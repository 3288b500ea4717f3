-- ===== src/Timing/Watchdog.antt =====
-- src/device/kinetis/timing/watchdogs.c: the passage of time in the watchdog.
--
-- A handler ends in `running` or in `reset`, with the state in which it calls
-- `kinetis_timing_internal_signal_reset` and the two bytes of the reset source; in C it returns
-- true then. The reset of the whole device that follows is not part of the model.
pub mod Access
pub mod Timeout
pub mod Expiry
pub mod Examples
pub mod Update
use kinetis_k22_sim.Base.{
  ℕ, ◌+◌, ◌-◌, ◌*◌, ◌/◌, ◌%◌, ◌^◌, bit_and, bit_or, Bool, true, false, not, ◌&&◌, ◌||◌, ltb, leb,
  ◌==◌, ◌!=◌, if◌then◌else◌, ◌!◌, set, ◌<<◌, ◌>>◌, flag, u32, u64, sub32, not16, for_range, List,
  ◌∷◌,
}
use kinetis_k22_sim.Timing.State.{Timing, Profile, IrqCall}
use kinetis_k22_sim.Timing.Clock.{
  clock_ticks, bus_clock_running, power_status, mcgir_clock_hz, lpo_clock_hz,
}

pub data Outcome : Type 0 where
  running : Timing → Outcome
  reset : Timing → (srs0 srs1 : ℕ) → Outcome

-- An assignment after a handler's result is dropped with `(void)`.
abbrev pub after : (Timing → Timing) → Outcome → Outcome
after change (running timing) = running (change timing)
after change (reset timing srs0 srs1) = reset (change timing) srs0 srs1

abbrev pub profile_irq : Timing → ℕ → ℕ → ℕ
profile_irq timing default_irq mkv10_irq =
    if timing.profile.is_mkv10 then mkv10_irq else default_irq

abbrev pub set_irq : Timing → ℕ → Bool → Timing
set_irq timing number asserted = record timing {
  irq_calls = record { number = number; asserted = asserted } ∷ timing.irq_calls;
}

unfoldable pub update_watchdog_interrupt : Timing → Timing
update_watchdog_interrupt timing =
    set_irq timing (profile_irq timing 22 23)
      (flag (timing.wdog ! 1) 0x8000 || (timing.ewm_output && flag timing.ewm_ctrl 8))

abbrev pub watchdog_timeout_value : Timing → ℕ
watchdog_timeout_value timing = bit_or (timing.wdog ! 2 << 16) (timing.wdog ! 3)

pub request_interrupt : Timing → Timing
request_interrupt timing = update_watchdog_interrupt (record timing {
  wdog = set timing.wdog 1 (bit_or (timing.wdog ! 1) 0x8000);
  wdog_reset_pending = true;
  wdog_reset_deadline = u64 (timing.wdog_bus_cycles + 256);
})

pub handle_watchdog_expiration : Timing → Outcome
handle_watchdog_expiration timing =
    let cleared = record timing { wdog_counter = 0 } in
    if not (flag (timing.wdog ! 0) 4)
    then reset cleared 0x20 0
    else if timing.wdog_reset_pending
    then reset cleared 0x20 0
    else running (request_interrupt cleared)

abbrev pub byte_mask : ℕ → ℕ
byte_mask byte_index = if byte_index % 2 == 0 then 0x00ff else 0xff00

-- One round of the loop in `apply_watchdog_update`.
pub apply_update_byte : List ℕ → ℕ → ℕ → List ℕ → List ℕ
apply_update_byte pending update_mask byte_index wdog =
    let register_index = byte_index / 2 in
    let mask = byte_mask byte_index in
    if bit_and update_mask (1 << byte_index) == 0
    then wdog
    else set wdog register_index (
        bit_or (bit_and (wdog ! register_index) (not16 mask))
          (bit_and (pending ! register_index) mask))

-- The control register after an update.
abbrev pub updated_control : ℕ → ℕ → ℕ → ℕ
updated_control control pending test_mode_bits =
    bit_or (bit_and (bit_or (bit_and control 0x00e4) (bit_and pending (not16 0x00e4))) 0x7cff)
      test_mode_bits

abbrev pub updated_registers : List ℕ → List ℕ → ℕ → List ℕ
updated_registers wdog pending update_mask =
    let merged = for_range 24 0 (apply_update_byte pending update_mask) wdog in
    let control = updated_control (merged ! 0) (pending ! 0) (bit_and (wdog ! 0) 0x4000) in
    set (set (set merged 0 control) 1 (bit_or (bit_and (merged ! 1) 0x8000) 1)) 11
      (bit_and (merged ! 11) 0x0700)

pub apply_watchdog_update : Timing → Timing
apply_watchdog_update timing = record timing {
  wdog = updated_registers timing.wdog timing.wdog_pending timing.wdog_update_mask;
  wdog_update_open = false;
  wdog_update_mask = 0;
  wdog_counter = 0;
  wdog_remainder = 0;
}

-- The last test of `process_watchdog_bus_time`.
pub close_update_window : Timing → Outcome
close_update_window timing =
    if timing.wdog_update_open && leb timing.wdog_update_deadline timing.wdog_bus_cycles
    then if timing.wdog_update_written
      then running (apply_watchdog_update timing)
      else handle_watchdog_expiration (record timing { wdog_update_open = false })
    else running timing

pub process_watchdog_bus_time : Timing → Outcome
process_watchdog_bus_time timing =
    let sequence_late = ltb timing.wdog_sequence_deadline timing.wdog_bus_cycles in
    if timing.wdog_reset_pending && leb timing.wdog_reset_deadline timing.wdog_bus_cycles
    then reset timing 0x20 0
    else if timing.wdog_unlock_stage == 1 && sequence_late
    then handle_watchdog_expiration (record timing { wdog_unlock_stage = 0 })
    else if timing.wdog_refresh_stage == 1 && sequence_late
    then handle_watchdog_expiration (record timing { wdog_refresh_stage = 0 })
    else if timing.wdog_initial_unlock_required
        && not timing.wdog_initial_debug_pause
        && timing.wdog_unlock_stage == 0
        && ltb timing.wdog_update_deadline timing.wdog_bus_cycles
    then handle_watchdog_expiration (record timing { wdog_initial_unlock_required = false })
    else close_update_window timing

pub advance_watchdog_bus_time : Timing → ℕ → Outcome
advance_watchdog_bus_time timing elapsed_bus_ticks =
    process_watchdog_bus_time
      (record timing { wdog_bus_cycles = u64 (timing.wdog_bus_cycles + elapsed_bus_ticks) })

pub is_watchdog_running : Timing → Bool
is_watchdog_running timing =
    let control = timing.wdog ! 0 in
    if not (flag control 1)
    then false
    else if timing.debug_halted && not (flag control 0x20)
    then false
    else if not timing.cpu_sleeping
    then true
    else if timing.deep_sleeping
    then not (timing.profile.is_mkv10 && power_status timing == 0x40) && flag control 0x40
    else flag control 0x80

pub effective_watchdog_timeout : Timing → ℕ
effective_watchdog_timeout timing =
    let configured_timeout = watchdog_timeout_value timing in
    let timeout_byte_index = bit_and (timing.wdog ! 0 >> 12) 3 in
    if bit_and (timing.wdog ! 0) 0x4c00 != 0x0c00
    then configured_timeout
    else bit_and (configured_timeout >> (timeout_byte_index * 8)) 0xff

-- `kinetis_timing_watchdog_advance`.
pub watchdog_advance : Timing → ℕ → Outcome
watchdog_advance timing elapsed_watchdog_ticks =
    let timeout_ticks = effective_watchdog_timeout timing in
    if elapsed_watchdog_ticks == 0
      || not timing.profile.has_wdog
      || not (is_watchdog_running timing)
    then running timing
    else if timeout_ticks == 0
        || leb timeout_ticks timing.wdog_counter
        || leb (sub32 timeout_ticks timing.wdog_counter) elapsed_watchdog_ticks
    then handle_watchdog_expiration timing
    else running (record timing { wdog_counter = timing.wdog_counter + elapsed_watchdog_ticks })

abbrev pub wdog_source_hz : Timing → ℕ → ℕ
wdog_source_hz timing bus_clock_hz =
    let is_test_mode = bit_and (timing.wdog ! 0) 0x4400 == 0x0400 in
    let default_clock_hz =
      if timing.profile.is_mkv10 && flag timing.sim_wdogc 2
      then mcgir_clock_hz timing
      else lpo_clock_hz timing in
    if is_test_mode || flag (timing.wdog ! 0) 2 then bus_clock_hz else default_clock_hz

-- The second half of `kinetis_timing_internal_advance_wdog`, from `divider` on.
abbrev pub count_wdog : ℕ → ℕ → Timing → Outcome
count_wdog cycles bus_clock_hz timing =
    let divider = (bit_and (timing.wdog ! 11) 0x700 >> 8) + 1 in
    let elapsed =
      clock_ticks timing.wdog_remainder cycles (wdog_source_hz timing bus_clock_hz / divider)
        timing.core_clock_hz in
    let elapsed_watchdog_ticks =
      if ltb (2 ^ 32 - 1) elapsed.ticks then 2 ^ 32 - 1 else elapsed.ticks in
    watchdog_advance (record timing { wdog_remainder = elapsed.remainder }) elapsed_watchdog_ticks

-- What follows the bus time in `kinetis_timing_internal_advance_wdog`.
abbrev pub continue_wdog : Bool → ℕ → ℕ → Outcome → Outcome
continue_wdog update_was_open cycles bus_clock_hz (reset timing srs0 srs1) = reset timing srs0 srs1
continue_wdog update_was_open cycles bus_clock_hz (running timing) =
    if (update_was_open && not timing.wdog_update_open) || not (is_watchdog_running timing)
    then running timing
    else count_wdog cycles bus_clock_hz timing

-- `kinetis_timing_internal_advance_wdog`.
pub advance_wdog : Timing → ℕ → Outcome
advance_wdog timing cycles =
    let bus_clock_hz = if bus_clock_running timing then timing.bus_clock_hz else 0 in
    let elapsed = clock_ticks timing.wdog_bus_remainder cycles bus_clock_hz timing.core_clock_hz in
    let counted = record timing { wdog_bus_remainder = elapsed.remainder } in
    if not timing.profile.has_wdog
    then running timing
    else continue_wdog timing.wdog_update_open cycles bus_clock_hz
        (advance_watchdog_bus_time counted elapsed.ticks)
