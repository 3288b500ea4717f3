-- ===== src/Timing/Ewm.antt =====
-- src/device/kinetis/timing/watchdogs.c: the external watchdog monitor.
pub mod Service
pub mod Examples
use kinetis_k22_sim.Base.{
  ℕ, ◌+◌, ◌-◌, ◌*◌, ◌/◌, ◌%◌, ◌^◌, bit_and, bit_or, Bool, true, false, not, ◌&&◌, ◌||◌, ltb, leb,
  ◌==◌, ◌!=◌, if◌then◌else◌, flag, u8, u64, sub32, same, Option, some, none,
}
use kinetis_k22_sim.Timing.State.{Timing}
use kinetis_k22_sim.Timing.Clock.{clock_ticks, lpo_clock_hz}
use kinetis_k22_sim.Timing.Watchdog.{update_watchdog_interrupt}

pub trigger_ewm_output : Timing → Timing
trigger_ewm_output timing = update_watchdog_interrupt (record timing { ewm_output = true })

abbrev pub ewm_clock_stopped : Timing → Bool
ewm_clock_stopped timing =
    if timing.profile.is_mkv10 then timing.deep_sleeping else timing.cpu_sleeping

-- The counter and the comparison at the end of `kinetis_timing_internal_advance_ewm`.
pub count_ewm : Timing → ℕ → Timing
count_ewm timing ticks =
    let increment = if ltb (2 ^ 32 - 1) ticks then 2 ^ 32 - 1 else ticks in
    let counter =
      if leb (2 ^ 32 - 1 - timing.ewm_counter) increment
      then 2 ^ 32 - 1
      else timing.ewm_counter + increment in
    let counted = record timing { ewm_counter = counter } in
    if timing.ewm_cmph != 0xff && leb timing.ewm_cmph counter
    then trigger_ewm_output counted
    else counted

-- `kinetis_timing_internal_advance_ewm`.
pub advance_ewm : Timing → ℕ → Timing
advance_ewm timing cycles =
    let source_hz = lpo_clock_hz timing / (timing.ewm_prescaler + 1) in
    let elapsed = clock_ticks timing.ewm_remainder cycles source_hz timing.core_clock_hz in
    if not timing.profile.has_ewm
      || not (flag timing.ewm_ctrl 1)
      || timing.ewm_output
      || ewm_clock_stopped timing
    then timing
    else count_ewm (record timing { ewm_remainder = elapsed.remainder }) elapsed.ticks

abbrev pub ewm_base : ℕ
ewm_base = 0x40061000

-- `kinetis_timing_internal_read_ewm`; `none` when it returns false.
pub read_ewm : Timing → ℕ → ℕ → Option ℕ
read_ewm timing address size =
    let offset = address - ewm_base in
    if size != 1 || ltb address ewm_base || ltb (ewm_base + 5) address || address == ewm_base + 4
    then none
    else if offset == 0
    then some timing.ewm_ctrl
    else if offset == 1
    then some 0
    else if offset == 2
    then some timing.ewm_cmpl
    else if offset == 3
    then some timing.ewm_cmph
    else if offset == 5
    then some timing.ewm_prescaler
    else none

-- Offset 0, the control register; its first write may start the monitor.
pub start_ewm : Timing → ℕ → Timing
start_ewm timing write_value =
    let control = bit_and (u8 write_value) 15 in
    let written = record timing { ewm_ctrl = control; ewm_control_written = true } in
    if flag control 1 then record written { ewm_counter = 0; ewm_output = false } else written

pub write_ewm_control : Timing → ℕ → Option Timing
write_ewm_control timing write_value =
    if not timing.ewm_control_written
    then some (update_watchdog_interrupt (start_ewm timing write_value))
    else if bit_and (u8 write_value) 7 != bit_and timing.ewm_ctrl 7
    then none
    else some (
        update_watchdog_interrupt (record timing {
          ewm_ctrl = bit_or (bit_and timing.ewm_ctrl 7) (bit_and (u8 write_value) 8);
        }))

-- Offset 1, the service sequence.
abbrev pub end_service : Timing → Timing
end_service timing = record timing { ewm_service_stage = 0; ewm_service_paused = false }

abbrev pub input_asserted : Timing → Bool
input_asserted timing = flag timing.ewm_ctrl 4 && same timing.ewm_input (flag timing.ewm_ctrl 2)

pub serve_ewm : Timing → Timing
serve_ewm timing =
    if ltb timing.ewm_cmpl timing.ewm_counter
      && ltb timing.ewm_counter timing.ewm_cmph
      && not (input_asserted timing)
    then record timing { ewm_counter = 0 }
    else trigger_ewm_output timing

pub write_ewm_service : Timing → ℕ → Timing
write_ewm_service timing write_value =
    if write_value == 0xb4
    then record timing {
      ewm_service_stage = 1;
      ewm_service_deadline = u64 (timing.wdog_bus_cycles + 15);
      ewm_service_paused = false;
    }
    else if write_value == 0x2c
        && timing.ewm_service_stage == 1
        && not timing.ewm_service_paused
        && leb timing.wdog_bus_cycles timing.ewm_service_deadline
    then end_service (serve_ewm timing)
    else end_service timing

-- `kinetis_timing_internal_write_ewm`; `none` when it returns false, and then nothing has changed.
pub write_ewm : Timing → ℕ → ℕ → ℕ → Option Timing
write_ewm timing address size write_value =
    let offset = sub32 address ewm_base in
    if size != 1
    then none
    else if offset == 0
    then write_ewm_control timing write_value
    else if offset == 1
    then some (write_ewm_service timing write_value)
    else if offset == 2
    then if timing.ewm_cmpl_written
      then none
      else some (record timing { ewm_cmpl = u8 write_value; ewm_cmpl_written = true })
    else if offset == 3
    then if timing.ewm_cmph_written
      then none
      else some (record timing { ewm_cmph = u8 write_value; ewm_cmph_written = true })
    else if offset == 5
    then if timing.ewm_prescaler_written
      then none
      else some (record timing { ewm_prescaler = u8 write_value; ewm_prescaler_written = true })
    else none
