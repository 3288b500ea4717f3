-- ===== src/Timing/Watchdog/Access.antt =====
-- src/device/kinetis/timing/watchdogs.c: the reads and writes of the watchdog's registers.
pub mod RoundTrip
pub mod Examples
pub mod Sequence
pub mod Window
use kinetis_k22_sim.Base.{
  ℕ, ◌+◌, ◌-◌, ◌*◌, ◌/◌, ◌%◌, ◌^◌, bit_and, bit_or, Bool, true, false, not, ◌&&◌, ◌||◌, ltb, leb,
  ◌==◌, ◌!=◌, if◌then◌else◌, ◌!◌, set, ◌<<◌, ◌>>◌, flag, u8, u16, u64, not16, Option, some, none,
}
use kinetis_k22_sim.Timing.State.{Timing}
use kinetis_k22_sim.Timing.Watchdog.{
  Outcome, running, reset, after, handle_watchdog_expiration, apply_watchdog_update,
  advance_watchdog_bus_time, update_watchdog_interrupt,
}

abbrev pub wdog_base : ℕ
wdog_base = 0x40052000

-- The guard of `kinetis_timing_internal_read_wdog` and `kinetis_timing_internal_write_wdog`;
-- `address + size` is a 32-bit sum.
pub is_wdog_access : ℕ → ℕ → Bool
is_wdog_access address size = not (
    (size != 1 && size != 2)
    || ltb address wdog_base
    || ltb (wdog_base + 0x18) ((address + size) % 2 ^ 32)
    || (size == 2 && bit_and address 1 != 0))

-- `kinetis_timing_internal_read_wdog`; `none` when it returns false.
pub read_wdog : Timing → ℕ → ℕ → Option ℕ
read_wdog timing address size =
    let register_index = (address - wdog_base) / 2 in
    let register_value =
      if register_index == 8
      then u16 (timing.wdog_counter >> 16)
      else if register_index == 9
      then u16 timing.wdog_counter
      else timing.wdog ! register_index in
    if not (is_wdog_access address size)
    then none
    else if size == 1
    then some (bit_and (register_value >> (bit_and (address - wdog_base) 1 * 8)) 0xff)
    else some register_value

-- `kinetis_timing_projected_watchdog_read`.
pub projected_watchdog_read : Timing → ℕ → ℕ → Option ℕ
projected_watchdog_read timing address size =
    if not timing.wdog_update_open || not timing.wdog_update_written
    then read_wdog timing address size
    else read_wdog (apply_watchdog_update timing) address size

pub is_valid_sequence_byte : ℕ → ℕ → ℕ → ℕ → Bool
is_valid_sequence_byte lane byte_value first second =
    let shift = u8 (lane * 8) in
    byte_value == bit_and (first >> shift) 0xff || byte_value == bit_and (second >> shift) 0xff

pub merge_watchdog_write : ℕ → ℕ → ℕ → ℕ → ℕ
merge_watchdog_write previous_value address size write_value =
    let shift = bit_and address 1 * 8 in
    let byte_mask = u16 (0xff << shift) in
    if size == 2
    then u16 write_value
    else bit_or (bit_and previous_value (not16 byte_mask)) (u16 (u8 write_value << shift))

-- The first step of an unlock and of a refresh.
pub open_unlock_sequence : Timing → Timing
open_unlock_sequence timing = record timing {
  wdog_unlock_stage = 1;
  wdog_sequence_deadline = u64 (timing.wdog_bus_cycles + 20);
}

pub open_refresh_sequence : Timing → Timing
open_refresh_sequence timing = record timing {
  wdog_refresh_stage = 1;
  wdog_sequence_deadline = u64 (timing.wdog_bus_cycles + 20);
}

pub open_update_window : Timing → Timing
open_update_window timing =
    let update_ready = u64 (timing.wdog_bus_cycles + 1) in
    record timing {
      wdog_unlock_stage = 0;
      wdog_initial_unlock_required = false;
      wdog_update_open = true;
      wdog_update_written = false;
      wdog_update_mask = 0;
      wdog_update_ready = update_ready;
      wdog_update_deadline = u64 (update_ready + 256);
      wdog_pending = timing.wdog;
    }

pub accept_wdog_unlock : Timing → ℕ → Outcome
accept_wdog_unlock timing sequence_value =
    if sequence_value == 0xc520
    then running (open_unlock_sequence timing)
    else if sequence_value == 0xd928
        && timing.wdog_unlock_stage == 1
        && leb timing.wdog_bus_cycles timing.wdog_sequence_deadline
    then running (open_update_window timing)
    else handle_watchdog_expiration (record timing { wdog_unlock_stage = 0 })

abbrev close_refresh : Timing → Timing
close_refresh timing = record timing { wdog_refresh_stage = 0 }

pub accept_wdog_refresh : Timing → ℕ → Outcome
accept_wdog_refresh timing sequence_value =
    let refresh_window = bit_or (timing.wdog ! 4 << 16) (timing.wdog ! 5) in
    if sequence_value == 0xa602
    then running (open_refresh_sequence timing)
    else if sequence_value == 0xb480
        && timing.wdog_refresh_stage == 1
        && leb timing.wdog_bus_cycles timing.wdog_sequence_deadline
    then if flag (timing.wdog ! 0) (1 << 3) && ltb timing.wdog_counter refresh_window
      then after close_refresh (handle_watchdog_expiration timing)
      else running (record timing { wdog_counter = 0; wdog_refresh_stage = 0 })
    else handle_watchdog_expiration (close_refresh timing)

-- The writes that `kinetis_timing_internal_write_wdog` makes after the bus cycle, by register:
-- 7, the unlock sequence.
pub write_unlock : Timing → ℕ → ℕ → ℕ → Outcome
write_unlock timing address size write_value =
    let merged = merge_watchdog_write (timing.wdog ! 7) address size write_value in
    let written = record timing { wdog = set timing.wdog 7 merged } in
    if timing.wdog_refresh_stage != 0 || timing.wdog_update_open
    then running timing
    else if not timing.wdog_initial_unlock_required && not (flag (timing.wdog ! 0) 0x10)
    then running timing
    else if size == 1
        && not (
            is_valid_sequence_byte (bit_and (address - wdog_base) 1) (u8 write_value) 0xc520 0xd928)
    then handle_watchdog_expiration written
    else if size == 2 || merged == 0xc520 || merged == 0xd928
    then accept_wdog_unlock written merged
    else running written

-- 6, the refresh sequence.
pub write_refresh : Timing → ℕ → ℕ → ℕ → Outcome
write_refresh timing address size write_value =
    let merged = merge_watchdog_write (timing.wdog ! 6) address size write_value in
    let written = record timing { wdog = set timing.wdog 6 merged } in
    if timing.wdog_unlock_stage != 0 || timing.wdog_update_open
    then running timing
    else if size == 1
        && not (
            is_valid_sequence_byte (bit_and (address - wdog_base) 1) (u8 write_value) 0xa602 0xb480)
    then handle_watchdog_expiration written
    else if size == 2 || merged == 0xa602 || merged == 0xb480
    then accept_wdog_refresh written merged
    else running written

abbrev pub written_lane : ℕ → ℕ → ℕ → ℕ
written_lane address size write_value =
    if size == 1
    then u16 (u8 write_value << (bit_and (address - wdog_base) 1 * 8))
    else u16 write_value

-- 1, the interrupt flag.
pub write_status : Timing → ℕ → Timing
write_status timing written_value =
    let cleared =
      if flag written_value 0x8000
      then update_watchdog_interrupt
          (record timing { wdog = set timing.wdog 1 (bit_and (timing.wdog ! 1) 0x7fff) })
      else timing in
    if cleared.wdog_update_open && leb cleared.wdog_update_ready cleared.wdog_bus_cycles
    then record cleared { wdog_update_written = true }
    else cleared

-- The registers that an update window takes.
pub write_pending_register : Timing → ℕ → ℕ → ℕ → Timing
write_pending_register timing address size write_value =
    let register_index = (address - wdog_base) / 2 in
    let update_byte = register_index * 2 + bit_and (address - wdog_base) 1 in
    let update_bits = if size == 2 then 3 << (register_index * 2) else 1 << update_byte in
    let pending =
      merge_watchdog_write (timing.wdog_pending ! register_index) address size write_value in
    let control = bit_or (bit_and (timing.wdog ! 0) (not16 0x00e4)) (bit_and pending 0x00e4) in
    if not timing.wdog_update_open
      || ltb timing.wdog_bus_cycles timing.wdog_update_ready
      || leb 12 register_index
      || bit_and timing.wdog_update_mask update_bits != 0
    then timing
    else record timing {
      wdog_pending = set timing.wdog_pending register_index pending;
      wdog_update_mask = bit_or timing.wdog_update_mask update_bits;
      wdog_update_written = true;
      wdog = if register_index == 0 then set timing.wdog 0 control else timing.wdog;
    }

pub write_register : Timing → ℕ → ℕ → ℕ → Outcome
write_register timing address size write_value =
    let register_index = (address - wdog_base) / 2 in
    let written_value = written_lane address size write_value in
    if register_index == 7
    then write_unlock timing address size write_value
    else if register_index == 6
    then write_refresh timing address size write_value
    else if register_index == 1
    then running (write_status timing written_value)
    else if register_index == 10
    then running (record timing {
      wdog = set timing.wdog 10 (bit_and (timing.wdog ! 10) (not16 written_value));
    })
    else if register_index == 8 || register_index == 9
    then running timing
    else running (write_pending_register timing address size write_value)

abbrev continue_write : ℕ → ℕ → ℕ → Outcome → Outcome
continue_write address size write_value (reset timing srs0 srs1) = reset timing srs0 srs1
continue_write address size write_value (running timing) =
    write_register timing address size write_value

-- `kinetis_timing_internal_write_wdog`; `none` when it returns false.
pub write_wdog : Timing → ℕ → ℕ → ℕ → Option Outcome
write_wdog timing address size write_value =
    if not (is_wdog_access address size)
    then none
    else some (continue_write address size write_value (advance_watchdog_bus_time timing 1))
