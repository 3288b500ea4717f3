-- ===== src/Timing/Watchdog/Access/Window.antt =====
-- The registers of the watchdog change only through an open update window.
use kinetis_k22_sim.Base.{
  ℕ, bit_and, bit_or, Bool, false, ◌!◌, set, get_or-set_ne, not16, ◌≡◌, ◌≢◌, refl, sym, ◌∙◌, arith,
  Option, some, none, List,
}
use kinetis_k22_sim.Timing.State.{Timing}
use kinetis_k22_sim.Timing.Watchdog.{
  Outcome, running, reset, handle_watchdog_expiration, process_watchdog_bus_time, request_interrupt,
  advance_watchdog_bus_time, close_update_window, update_watchdog_interrupt,
}
use kinetis_k22_sim.Timing.Watchdog.Access.{
  write_unlock, write_refresh, write_status, write_pending_register, write_register, write_wdog,
  open_unlock_sequence, open_update_window, open_refresh_sequence, accept_wdog_unlock,
  accept_wdog_refresh, continue_write, merge_watchdog_write, written_lane,
}

-- The registers when the handler ends.
abbrev pub registers : Outcome → List ℕ
registers (running timing) = timing.wdog
registers (reset timing srs0 srs1) = timing.wdog

abbrev pub written_registers : Timing → Option Outcome → List ℕ
written_registers timing none = timing.wdog
written_registers timing (some outcome) = registers outcome

expiration_keeps :
    (timing : Timing) (i : ℕ)
    → i ≢ 1
    → registers (handle_watchdog_expiration timing) ! i ≡ timing.wdog ! i
unfolding handle_watchdog_expiration request_interrupt update_watchdog_interrupt
expiration_keeps timing i ne =
    let keep =
      get_or-set_ne timing.wdog 1 i (bit_or (timing.wdog ! 1) 0x8000) 0 (λ e. ne (sym e)) in
    ground arith

-- The same for an expiration after a write of cell `j`.
expiration_keeps_set :
    (timing : Timing) (i j value : ℕ)
    → i ≢ 1
    → i ≢ j
    → registers (handle_watchdog_expiration (record timing { wdog = set timing.wdog j value })) ! i
      ≡ timing.wdog ! i
expiration_keeps_set timing i j value ne ne' =
    expiration_keeps (record timing { wdog = set timing.wdog j value }) i ne
    ∙ get_or-set_ne timing.wdog j i value 0 (λ e. ne' (sym e))

-- Whether a window is open in the state that a handler leaves.
abbrev pub is_open : Outcome → Bool
is_open (running timing) = timing.wdog_update_open
is_open (reset timing srs0 srs1) = false

time_keeps :
    (timing : Timing) (ticks i : ℕ)
    → timing.wdog_update_open ≡ false
    → i ≢ 1
    → registers (advance_watchdog_bus_time timing ticks) ! i ≡ timing.wdog ! i
unfolding advance_watchdog_bus_time process_watchdog_bus_time close_update_window
    handle_watchdog_expiration request_interrupt update_watchdog_interrupt
time_keeps timing ticks i o ne =
    let keep =
      get_or-set_ne timing.wdog 1 i (bit_or (timing.wdog ! 1) 0x8000) 0 (λ e. ne (sym e)) in
    ground arith

time_closed :
    (timing : Timing) (ticks : ℕ)
    → timing.wdog_update_open ≡ false
    → is_open (advance_watchdog_bus_time timing ticks) ≡ false
unfolding advance_watchdog_bus_time process_watchdog_bus_time close_update_window
    handle_watchdog_expiration request_interrupt update_watchdog_interrupt
time_closed timing ticks o = ground arith

unlock_keeps :
    (timing : Timing) (address size value i : ℕ)
    → i ≢ 1
    → i ≢ 7
    → registers (write_unlock timing address size value) ! i ≡ timing.wdog ! i
unfolding write_unlock accept_wdog_unlock open_unlock_sequence open_update_window
    handle_watchdog_expiration request_interrupt update_watchdog_interrupt
unlock_keeps timing address size value i n1 n7 =
    let merged = merge_watchdog_write (timing.wdog ! 7) address size value in
    let keep = get_or-set_ne timing.wdog 7 i merged 0 (λ e. n7 (sym e)) in
    let wdog = set timing.wdog 7 merged in
    let keep' = get_or-set_ne wdog 1 i (bit_or (wdog ! 1) 0x8000) 0 (λ e. n1 (sym e)) in
    ground arith

refresh_keeps :
    (timing : Timing) (address size value i : ℕ)
    → i ≢ 1
    → i ≢ 6
    → registers (write_refresh timing address size value) ! i ≡ timing.wdog ! i
unfolding write_refresh accept_wdog_refresh open_refresh_sequence handle_watchdog_expiration
    request_interrupt update_watchdog_interrupt
refresh_keeps timing address size value i n1 n7 =
    let merged = merge_watchdog_write (timing.wdog ! 6) address size value in
    let keep = get_or-set_ne timing.wdog 6 i merged 0 (λ e. n7 (sym e)) in
    let wdog = set timing.wdog 6 merged in
    let keep' = get_or-set_ne wdog 1 i (bit_or (wdog ! 1) 0x8000) 0 (λ e. n1 (sym e)) in
    ground arith

register_keeps :
    (timing : Timing) (address size value i : ℕ)
    → timing.wdog_update_open ≡ false
    → i ≢ 1
    → i ≢ 6
    → i ≢ 7
    → i ≢ 10
    → registers (write_register timing address size value) ! i ≡ timing.wdog ! i
unfolding write_register write_status write_pending_register update_watchdog_interrupt
register_keeps timing address size value i o n1 n6 n7 n10 =
    let keep1 =
      get_or-set_ne timing.wdog 1 i (bit_and (timing.wdog ! 1) 0x7fff) 0 (λ e. n1 (sym e)) in
    let keep10 =
      get_or-set_ne timing.wdog 10 i
        (bit_and (timing.wdog ! 10) (not16 (written_lane address size value))) 0
        (λ e. n10 (sym e)) in
    let unlock = unlock_keeps timing address size value i n1 n7 in
    let refresh = refresh_keeps timing address size value i n1 n6 in ground arith

continue_keeps :
    (outcome : Outcome) (address size value i : ℕ)
    → is_open outcome ≡ false
    → i ≢ 1
    → i ≢ 6
    → i ≢ 7
    → i ≢ 10
    → registers (continue_write address size value outcome) ! i ≡ registers outcome ! i
continue_keeps (running timing) address size value i o n1 n6 n7 n10 =
    register_keeps timing address size value i o n1 n6 n7 n10
continue_keeps (reset timing srs0 srs1) address size value i o n1 n6 n7 n10 = refl

-- Without an open update window, no write at any address, of any size and value, changes a register
-- other than the status (1), the two sequence registers (6, 7) and the reset count (10).
pub write_wdog_locked :
    (timing : Timing) (address size value i : ℕ)
    → timing.wdog_update_open ≡ false
    → i ≢ 1
    → i ≢ 6
    → i ≢ 7
    → i ≢ 10
    → written_registers timing (write_wdog timing address size value) ! i ≡ timing.wdog ! i
unfolding write_wdog
write_wdog_locked timing address size value i o n1 n6 n7 n10 =
    let keep =
      continue_keeps (advance_watchdog_bus_time timing 1) address size value i
        (time_closed timing 1 o) n1 n6 n7 n10 in
    let time = time_keeps timing 1 i o n1 in ground arith
