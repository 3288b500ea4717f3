-- ===== src/Timing/Examples.antt =====
-- The timing theorems at the sample states.
use kinetis_k22_sim.Base.{
  ◌+◌, ◌*◌, ◌/◌, Bool, true, not, ◌&&◌, ◌||◌, ◌==◌, ◌!=◌, ltb, leb, if◌then◌else◌, ◌!◌, flag, bit,
  u16, ◌≡◌, refl, arith, some,
}
use kinetis_k22_sim.Timing.State.{Timing}
use kinetis_k22_sim.Timing.Sample.{locked, opened, registers_fit}
use kinetis_k22_sim.Timing.Clock.{clock_ticks}
use kinetis_k22_sim.Timing.Clock.Exact.{clock_ticks_split}
use kinetis_k22_sim.Timing.Watchdog.{
  running, reset, watchdog_advance, handle_watchdog_expiration, advance_watchdog_bus_time,
  apply_watchdog_update,
}
use kinetis_k22_sim.Timing.Watchdog.Timeout.{timeout, is_counting, interrupted, expired}
use kinetis_k22_sim.Timing.Watchdog.Expiry.{
  IsQuiet, count, watchdog_advance_lem, reset_after_interrupt,
}
use kinetis_k22_sim.Timing.Watchdog.Update.{IsWords, apply_watchdog_update_lem}
use kinetis_k22_sim.Timing.Watchdog.Access.{
  wdog_base, write_wdog, write_pending_register, projected_watchdog_read,
}
use kinetis_k22_sim.Timing.Watchdog.Access.Sequence.{
  IsLocked, at_cycle, after_first, after_second, ends_in_reset, unlock_sequence_lem,
}
use kinetis_k22_sim.Timing.Watchdog.Access.Window.{written_registers, write_wdog_locked}
use kinetis_k22_sim.Timing.Watchdog.Access.RoundTrip.{IsWritable, projected_read-write}
use kinetis_k22_sim.Timing.Ewm.{count_ewm, write_ewm, write_ewm_service, input_asserted}
use kinetis_k22_sim.Timing.Ewm.Service.{
  IsKept, after_write, saturated, count_ewm_lem, write_ewm_service_lem, write_ewm-IsKept,
}

clock_ticks_split_example :
    ((clock_ticks 7 (1000 + 2000) 1000 120000000).ticks
      ≡ (clock_ticks 7 1000 1000 120000000).ticks
        + (clock_ticks (clock_ticks 7 1000 1000 120000000).remainder 2000 1000 120000000).ticks)
    × ((clock_ticks 7 (1000 + 2000) 1000 120000000).remainder
        ≡ (clock_ticks (clock_ticks 7 1000 1000 120000000).remainder 2000 1000 120000000).remainder)
clock_ticks_split_example =
    clock_ticks_split 7 1000 2000 1000 120000000 (omega arith) (omega arith) (omega arith)
      (omega arith) (omega arith)

watchdog_advance_lem_example : watchdog_advance locked 600 ≡ (
    if 600 == 0 || not locked.profile.has_wdog || not (is_counting locked)
    then running locked
    else if leb (timeout locked) (locked.wdog_counter + 600)
    then expired locked
    else running (count locked 600))
watchdog_advance_lem_example =
    watchdog_advance_lem locked 600 (omega arith) (omega arith) (omega arith) (omega arith)

locked-IsQuiet : IsQuiet locked
locked-IsQuiet = record { unlock = refl; refresh = refl; update = refl; initial = refl }

interrupt_enabled : bit (locked.wdog ! 0) 2 ≡ true
unfolding bit
interrupt_enabled = refl

reset_after_interrupt_example :
    (handle_watchdog_expiration locked ≡ running (interrupted locked))
    × (advance_watchdog_bus_time (interrupted locked) 256 ≡ (
        if leb 256 256
        then reset (record (interrupted locked) { wdog_bus_cycles = 5000 + 256 }) 0x20 0
        else running (record (interrupted locked) { wdog_bus_cycles = 5000 + 256 })))
reset_after_interrupt_example =
    reset_after_interrupt locked 256 locked-IsQuiet (omega arith) interrupt_enabled refl
      (omega arith) (omega arith)

apply_watchdog_update_lem_test : bit ((apply_watchdog_update opened).wdog ! 3) 5 ≡ (
    if bit opened.wdog_update_mask (3 * 2 + 5 / 8)
    then bit (opened.wdog_pending ! 3) 5
    else bit (opened.wdog ! 3) 5)
apply_watchdog_update_lem_test =
    apply_watchdog_update_lem opened 3 5 refl (omega arith) (omega arith) (omega arith)

locked-IsLocked : IsLocked locked
unfolding flag
locked-IsLocked = record {
  unlock = refl;
  refresh = refl;
  update = refl;
  pending = refl;
  allowed = refl;
  in_time = λ h. ground arith;
}

unlock_sequence_lem_example :
    (write_wdog locked (wdog_base + 0xe) 2 0xc520 ≡ some (running (after_first locked)))
    × (advance_watchdog_bus_time (after_first locked) 7
        ≡ running (at_cycle (after_first locked) (5001 + 7)))
    × (write_wdog (at_cycle (after_first locked) (5001 + 7)) (wdog_base + 0xe) 2 0xd928
        ≡ some (running (after_second locked 7)))
    × ((after_second locked 7).wdog_update_open ≡ true)
    × ((after_second locked 7).wdog_update_ready ≡ 5001 + 7 + 2)
    × ((after_second locked 7).wdog_update_deadline ≡ 5001 + 7 + 258)
    × (ends_in_reset
          (write_wdog (at_cycle (after_first locked) (5001 + 20)) (wdog_base + 0xe) 2 0xd928)
        ≡ true)
unlock_sequence_lem_example =
    unlock_sequence_lem locked 7 locked-IsLocked (omega arith) (omega arith)

write_wdog_locked_example :
    written_registers locked (write_wdog locked (wdog_base + 6) 2 20) ! 3 ≡ 1000
write_wdog_locked_example =
    write_wdog_locked locked (wdog_base + 6) 2 20 3 refl (ground arith) (ground arith)
      (ground arith) (ground arith)

opened-IsWords : IsWords opened.wdog
unfolding IsWords
opened-IsWords = registers_fit

opened-IsWritable : IsWritable opened 3
opened-IsWritable = record {
  cells = refl;
  pending_cells = refl;
  words = opened-IsWords;
  update = refl;
  ready = omega arith;
  unwritten = refl;
}

projected_read-write_example :
    projected_watchdog_read
      (write_pending_register opened (wdog_base + 3 * 2) 2 0x12345)
      (wdog_base + 3 * 2)
      2
    ≡ some (u16 0x12345)
projected_read-write_example =
    projected_read-write opened 3 0x12345 opened-IsWritable opened-IsWords (omega arith)
      (omega arith)

count_ewm_lem_test :
    ((count_ewm locked 100).ewm_counter ≡ saturated (locked.ewm_counter + 100))
    × ((count_ewm locked 100).ewm_output
        ≡ locked.ewm_cmph != 0xff && leb locked.ewm_cmph (saturated (locked.ewm_counter + 100)))
count_ewm_lem_test = count_ewm_lem locked 100 (omega arith) refl

abbrev served : Timing
served =
    write_ewm_service
      (record (write_ewm_service locked 0xb4) { wdog_bus_cycles = locked.wdog_bus_cycles + 3 }) 0x2c

abbrev inside : Bool
inside =
    ltb locked.ewm_cmpl locked.ewm_counter
    && ltb locked.ewm_counter locked.ewm_cmph
    && not (input_asserted locked)

write_ewm_service_lem_example :
    (served.ewm_service_stage ≡ 0)
    × (served.ewm_counter ≡ (if leb 3 15 && inside then 0 else locked.ewm_counter))
    × (served.ewm_output ≡ leb 3 15 && not inside)
write_ewm_service_lem_example = write_ewm_service_lem locked 3 refl (omega arith)

locked-IsKept : IsKept locked locked
locked-IsKept = record {
  control = refl;
  low_compare = refl;
  high_compare = refl;
  prescaler = refl;
  cmpl = refl;
  cmph = refl;
  divider = refl;
  enabled = refl;
}

write_ewm-IsKept_example : IsKept locked (after_write locked (write_ewm locked 0x40061000 1 1))
write_ewm-IsKept_example = write_ewm-IsKept locked 0x40061000 1 1 locked-IsKept
