-- ===== src/Timing/Watchdog/Access/Sequence.antt =====
-- The unlock sequence of the watchdog: two writes, the second at most 20 bus cycles after the first.
use kinetis_k22_sim.Base.{
  ℕ, ◌+◌, ◌^◌, ◌<◌, ◌≤◌, bit_or, Bool, true, false, ◌&&◌, ◌||◌, ltb, ◌==◌, ◌!◌, set, get_or-set_ne,
  flag, u64, ◌≡◌, refl, ap, ◌∙◌, arith, Option, some, none,
}
use kinetis_k22_sim.Timing.State.{Timing}
use kinetis_k22_sim.Timing.Watchdog.{
  Outcome, running, reset, handle_watchdog_expiration, process_watchdog_bus_time,
  advance_watchdog_bus_time, close_update_window, request_interrupt, update_watchdog_interrupt,
}
use kinetis_k22_sim.Timing.Watchdog.Access.{
  wdog_base, is_wdog_access, merge_watchdog_write, write_unlock, write_register, write_wdog,
  open_unlock_sequence, open_update_window, accept_wdog_unlock, continue_write,
}

-- Nothing is under way and the update of the registers is allowed; after a reset, when it must be
-- unlocked, the time for that is not over.
pub record IsLocked (timing : Timing) : Type 0 where
  pub unlock : timing.wdog_unlock_stage ≡ 0
  pub refresh : timing.wdog_refresh_stage ≡ 0
  pub update : timing.wdog_update_open ≡ false
  pub pending : timing.wdog_reset_pending ≡ false
  pub allowed : timing.wdog_initial_unlock_required || flag (timing.wdog ! 0) 0x10 ≡ true
  pub in_time :
      timing.wdog_initial_unlock_required ≡ true
      → timing.wdog_bus_cycles + 1 ≤ timing.wdog_update_deadline

abbrev pub at_cycle : Timing → ℕ → Timing
at_cycle timing cycle = record timing { wdog_bus_cycles = cycle }

abbrev pub sequence_written : Timing → ℕ → Timing
sequence_written timing value = record timing { wdog = set timing.wdog 7 value }

-- The state after the first write, and after the second, `elapsed` bus cycles later.
abbrev pub after_first : Timing → Timing
after_first timing =
    open_unlock_sequence (sequence_written (at_cycle timing (timing.wdog_bus_cycles + 1)) 0xc520)

abbrev pub after_second : Timing → ℕ → Timing
after_second timing elapsed = open_update_window (
    sequence_written (at_cycle (after_first timing) (timing.wdog_bus_cycles + 1 + (elapsed + 1)))
      0xd928)

unlock_first :
    (timing : Timing)
    → IsLocked timing
    → timing.wdog_bus_cycles + 1 < 2 ^ 64
    → write_wdog timing (wdog_base + 0xe) 2 0xc520 ≡ some (running (after_first timing))
unfolding write_wdog is_wdog_access write_register write_unlock accept_wdog_unlock
    merge_watchdog_write advance_watchdog_bus_time process_watchdog_bus_time close_update_window
    open_unlock_sequence
unlock_first timing locked fits =
    let u = locked.unlock in
    let r = locked.refresh in
    let o = locked.update in
    let p = locked.pending in let i = locked.in_time in let a = locked.allowed in ground arith

-- Between the writes only the bus cycles count, up to the deadline.
unlock_wait :
    (timing : Timing) (elapsed : ℕ)
    → IsLocked timing
    → elapsed ≤ 20
    → timing.wdog_bus_cycles + 22 < 2 ^ 64
    → advance_watchdog_bus_time (after_first timing) elapsed
      ≡ running (at_cycle (after_first timing) (timing.wdog_bus_cycles + 1 + elapsed))
unfolding advance_watchdog_bus_time process_watchdog_bus_time close_update_window
    open_unlock_sequence
unlock_wait timing elapsed locked h fits =
    let r = locked.refresh in let o = locked.update in let p = locked.pending in ground arith

-- The bus cycle of the second write.
second_in_time :
    (timing : Timing) (elapsed : ℕ)
    → IsLocked timing
    → elapsed < 20
    → timing.wdog_bus_cycles + 22 < 2 ^ 64
    → advance_watchdog_bus_time
        (at_cycle (after_first timing) (timing.wdog_bus_cycles + 1 + elapsed))
        1
      ≡ running (at_cycle (after_first timing) (timing.wdog_bus_cycles + 1 + (elapsed + 1)))
unfolding advance_watchdog_bus_time process_watchdog_bus_time close_update_window
    open_unlock_sequence
second_in_time timing elapsed locked h fits =
    let r = locked.refresh in let o = locked.update in let p = locked.pending in ground arith

abbrev pub unlock_expired : Timing → Timing
unlock_expired timing = record (at_cycle (after_first timing) (timing.wdog_bus_cycles + 1 + 21)) {
  wdog_unlock_stage = 0;
}

second_late :
    (timing : Timing)
    → IsLocked timing
    → timing.wdog_bus_cycles + 22 < 2 ^ 64
    → advance_watchdog_bus_time (at_cycle (after_first timing) (timing.wdog_bus_cycles + 1 + 20)) 1
      ≡ handle_watchdog_expiration (unlock_expired timing)
unfolding advance_watchdog_bus_time process_watchdog_bus_time open_unlock_sequence
second_late timing locked fits =
    let p = locked.pending in
    let e : u64 (timing.wdog_bus_cycles + 1 + 20 + 1) ≡ timing.wdog_bus_cycles + 1 + 21 =
      ground arith in
    let d : u64 (timing.wdog_bus_cycles + 1 + 20) ≡ timing.wdog_bus_cycles + 1 + 20 =
      ground arith in
    let l : ltb (timing.wdog_bus_cycles + 1 + 20) (timing.wdog_bus_cycles + 1 + 21) ≡ true =
      ground arith in
    rw e (rw d (rw p (rw l refl)))

second_accepted :
    (timing : Timing) (elapsed : ℕ)
    → IsLocked timing
    → elapsed < 20
    → timing.wdog_bus_cycles + 22 < 2 ^ 64
    → write_register
        (at_cycle (after_first timing) (timing.wdog_bus_cycles + 1 + (elapsed + 1)))
        (wdog_base + 0xe)
        2
        0xd928
      ≡ running (after_second timing elapsed)
unfolding write_register write_unlock accept_wdog_unlock merge_watchdog_write open_unlock_sequence
second_accepted timing elapsed locked h fits =
    let r = locked.refresh in
    let o = locked.update in
    let p = locked.pending in
    let a = locked.allowed in
    let keep = get_or-set_ne timing.wdog 7 0 0xc520 0 (ground arith) in ground arith

-- Whether a handler asks for the watchdog's reset.
abbrev pub is_reset : Outcome → Bool
is_reset (running timing) = false
is_reset (reset timing srs0 srs1) = srs0 == 0x20 && srs1 == 0

abbrev pub ends_in_reset : Option Outcome → Bool
ends_in_reset none = false
ends_in_reset (some outcome) = is_reset outcome

-- With `unlock_stage` back at 0 the write of 0xd928 is a second expiration, and the interrupt that
-- the first one asked for is followed by the reset at once.
expired_unlock :
    (timing : Timing)
    → timing.wdog_unlock_stage ≡ 0
    → timing.wdog_refresh_stage ≡ 0
    → timing.wdog_update_open ≡ false
    → timing.wdog_initial_unlock_required || flag (timing.wdog ! 0) 0x10 ≡ true
    → is_reset (continue_write (wdog_base + 0xe) 2 0xd928 (handle_watchdog_expiration timing))
      ≡ true
unfolding handle_watchdog_expiration request_interrupt update_watchdog_interrupt write_register
    write_unlock accept_wdog_unlock merge_watchdog_write
expired_unlock timing u r o a =
    let keep = get_or-set_ne timing.wdog 1 0 (bit_or (timing.wdog ! 1) 0x8000) 0 (ground arith) in
    let keep' =
      get_or-set_ne (set timing.wdog 1 (bit_or (timing.wdog ! 1) 0x8000)) 7 0 0xd928 0
        (ground arith) in
    ground arith

late :
    (timing : Timing)
    → IsLocked timing
    → is_reset (
        continue_write
          (wdog_base + 0xe)
          2
          0xd928
          (handle_watchdog_expiration (unlock_expired timing)))
      ≡ true
unfolding open_unlock_sequence
late timing locked =
    let keep = get_or-set_ne timing.wdog 7 0 0xc520 0 (ground arith) in
    let a = locked.allowed in
    expired_unlock (unlock_expired timing) refl locked.refresh locked.update (ground arith)

-- From a locked watchdog whose 64-bit cycle count does not wrap, the two halfword writes 0xc520
-- and 0xd928 open the update window when fewer than 20 bus cycles pass between them: it is ready
-- at the next bus cycle, and its deadline is 256 cycles after that. When 20 cycles pass, the
-- second write ends in a reset, with the interrupt enabled or not.
pub unlock_sequence_lem :
    (timing : Timing) (elapsed : ℕ)
    → IsLocked timing
    → elapsed < 20
    → timing.wdog_bus_cycles + 300 < 2 ^ 64
    → let cycle = timing.wdog_bus_cycles + 1 in
      let opened = after_second timing elapsed in
      (write_wdog timing (wdog_base + 0xe) 2 0xc520 ≡ some (running (after_first timing)))
      × (advance_watchdog_bus_time (after_first timing) elapsed
          ≡ running (at_cycle (after_first timing) (cycle + elapsed)))
      × (write_wdog (at_cycle (after_first timing) (cycle + elapsed)) (wdog_base + 0xe) 2 0xd928
          ≡ some (running opened))
      × (opened.wdog_update_open ≡ true)
      × (opened.wdog_update_ready ≡ cycle + elapsed + 2)
      × (opened.wdog_update_deadline ≡ cycle + elapsed + 258)
      × (ends_in_reset
            (write_wdog (at_cycle (after_first timing) (cycle + 20)) (wdog_base + 0xe) 2 0xd928)
          ≡ true)
unfolding open_update_window write_wdog is_wdog_access
unlock_sequence_lem timing elapsed locked h fits = (
  unlock_first timing locked (omega arith),
  unlock_wait timing elapsed locked (omega arith) (omega arith),
  ap (λ o. some (continue_write (wdog_base + 0xe) 2 0xd928 o))
        (second_in_time timing elapsed locked h (omega arith))
      ∙ ap some (second_accepted timing elapsed locked h (omega arith)),
  refl,
  ground arith,
  ground arith,
  ap (λ o. is_reset (continue_write (wdog_base + 0xe) 2 0xd928 o))
        (second_late timing locked (omega arith))
      ∙ late timing locked,
)
