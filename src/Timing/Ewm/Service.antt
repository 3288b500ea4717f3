-- ===== src/Timing/Ewm/Service.antt =====
-- What the external watchdog monitor promises: its settings are written once, and the counter runs
-- into the output unless it is served inside the window.
use kinetis_k22_sim.Base.{
  ℕ, ◌+◌, ◌-◌, ◌^◌, ◌<◌, bit_and, bit_or, Bool, true, false, not, ◌&&◌, ◌||◌, ltb, leb, ◌!=◌,
  if◌then◌else◌, u8, Option, some, none, ◌≡◌, sym, arith, bit, bits_ext, bit_and-lt, bit-and,
  bit-or, bit-zero, ◌∙◌,
}
use kinetis_k22_sim.Timing.State.{Timing}
use kinetis_k22_sim.Timing.Watchdog.{update_watchdog_interrupt}
use kinetis_k22_sim.Timing.Ewm.{
  trigger_ewm_output, count_ewm, start_ewm, write_ewm_control, input_asserted, serve_ewm,
  write_ewm_service, write_ewm,
}

digit_split : (a b c d : Bool) → (d && c) ≡ false → ((a && c) || (b && d)) && c ≡ a && c
digit_split a b c d h = ground arith

low_bits : (x y : ℕ) → bit_and (bit_or (bit_and x 7) (bit_and y 8)) 7 ≡ bit_and x 7
low_bits x y =
    bits_ext 3 (bit_and (bit_or (bit_and x 7) (bit_and y 8)) 7) (bit_and x 7)
      (bit_and-lt 3 (bit_or (bit_and x 7) (bit_and y 8)) 7 (omega arith))
      (bit_and-lt 3 x 7 (omega arith))
      (λ k lt.
        let apart : (bit 8 k && bit 7 k) ≡ false = sym (bit-and 8 7 k) ∙ bit-zero k in
        let outer = bit-and (bit_or (bit_and x 7) (bit_and y 8)) 7 k in
        let middle = bit-or (bit_and x 7) (bit_and y 8) k in
        let first = bit-and x 7 k in
        let second = bit-and y 8 k in
        let split = digit_split (bit x k) (bit y k) (bit 7 k) (bit 8 k) apart in
        rw outer (rw middle (rw first (rw second split))))

-- The state after a write; a refused one changes nothing.
abbrev pub after_write : Timing → Option Timing → Timing
after_write timing none = timing
after_write timing (some written) = written

-- The settings.
pub record IsKept (before now : Timing) : Type 0 where
  pub control : now.ewm_control_written ≡ true
  pub low_compare : now.ewm_cmpl_written ≡ true
  pub high_compare : now.ewm_cmph_written ≡ true
  pub prescaler : now.ewm_prescaler_written ≡ true
  pub cmpl : now.ewm_cmpl ≡ before.ewm_cmpl
  pub cmph : now.ewm_cmph ≡ before.ewm_cmph
  pub divider : now.ewm_prescaler ≡ before.ewm_prescaler
  pub enabled : bit_and now.ewm_ctrl 7 ≡ bit_and before.ewm_ctrl 7

-- The counter after `ticks`: the sum, or 2^32 - 1 when it is larger.
abbrev pub saturated : ℕ → ℕ
saturated n = if ltb n (2 ^ 32) then n else 2 ^ 32 - 1

-- From a 32-bit counter, with the output not set, the counter becomes the sum with the ticks, held
-- at 2^32 - 1, and the output is set exactly when it reaches the high compare value, unless that
-- is 0xff.
pub count_ewm_lem :
    (timing : Timing) (ticks : ℕ)
    → timing.ewm_counter < 2 ^ 32
    → timing.ewm_output ≡ false
    → let now = count_ewm timing ticks in
      let counter = saturated (timing.ewm_counter + ticks) in
      (now.ewm_counter ≡ counter)
      × (now.ewm_output ≡ timing.ewm_cmph != 0xff && leb timing.ewm_cmph counter)
unfolding count_ewm trigger_ewm_output update_watchdog_interrupt
count_ewm_lem timing ticks h o = ground arith

-- With the output not set and a cycle count that does not wrap, the writes 0xb4 and 0x2c end the
-- sequence. At most 15 bus cycles apart, they put the counter to 0 when it stands strictly between
-- the compare values and the input is not asserted, and else set the output and leave the counter;
-- further apart, they change neither.
pub write_ewm_service_lem :
    (timing : Timing) (elapsed : ℕ)
    → timing.ewm_output ≡ false
    → timing.wdog_bus_cycles + elapsed < 2 ^ 64 - 15
    → let started = write_ewm_service timing 0xb4 in
      let waited = record started { wdog_bus_cycles = timing.wdog_bus_cycles + elapsed } in
      let served = write_ewm_service waited 0x2c in
      let inside =
        ltb timing.ewm_cmpl timing.ewm_counter
        && ltb timing.ewm_counter timing.ewm_cmph
        && not (input_asserted timing) in
      (served.ewm_service_stage ≡ 0)
      × (served.ewm_counter ≡ (if leb elapsed 15 && inside then 0 else timing.ewm_counter))
      × (served.ewm_output ≡ leb elapsed 15 && not inside)
unfolding write_ewm_service serve_ewm trigger_ewm_output update_watchdog_interrupt
write_ewm_service_lem timing elapsed o h = ground arith

-- Once all settings are written, no write at any address, of any size and value, changes the
-- compare values, the prescaler or the three low bits of the control register.
pub write_ewm-IsKept :
    (timing : Timing) (address size value : ℕ)
    → IsKept timing timing
    → IsKept timing (after_write timing (write_ewm timing address size value))
unfolding write_ewm write_ewm_control start_ewm write_ewm_service serve_ewm trigger_ewm_output
    update_watchdog_interrupt
write_ewm-IsKept timing address size value h =
    let c = h.control in
    let l = h.low_compare in
    let u = h.high_compare in
    let p = h.prescaler in
    let low = low_bits timing.ewm_ctrl (u8 value) in
    record {
      control = ground arith;
      low_compare = ground arith;
      high_compare = ground arith;
      prescaler = ground arith;
      cmpl = ground arith;
      cmph = ground arith;
      divider = ground arith;
      enabled = ground arith;
    }
