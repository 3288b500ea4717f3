-- ===== src/Timing/Watchdog/Access/RoundTrip.antt =====
-- What is written through an open update window is what is read once the window has closed.
use kinetis_k22_sim.Base.{
  ℕ, ◌+◌, ◌-◌, ◌*◌, ◌/◌, ◌<◌, ◌≤◌, bit_and, bit_or, true, false, ◌==◌, ◌!◌, set, length,
  get_or-set_self, ◌<<◌, u16, bit, bit-or, bit-shl, bits_ext, bit_and_one, agree_below,
  agree_below_sound, ◌≡◌, refl, ap, ◌∙◌, arith, some,
}
use kinetis_k22_sim.Timing.State.{Timing}
use kinetis_k22_sim.Timing.Watchdog.{apply_watchdog_update}
use kinetis_k22_sim.Timing.Watchdog.Update.{
  IsWords, merged_words, cell_fits, apply_watchdog_update_lem,
}
use kinetis_k22_sim.Timing.Watchdog.Access.{
  wdog_base, is_wdog_access, read_wdog, projected_watchdog_read, merge_watchdog_write,
  write_pending_register,
}

-- An open window that takes a write of both bytes of register `i`.
pub record IsWritable (timing : Timing) (i : ℕ) : Type 0 where
  pub cells : length timing.wdog ≡ 12
  pub pending_cells : length timing.wdog_pending ≡ 12
  pub words : IsWords timing.wdog
  pub update : timing.wdog_update_open ≡ true
  pub ready : timing.wdog_update_ready ≤ timing.wdog_bus_cycles
  pub unwritten : bit_and timing.wdog_update_mask (3 << (i * 2)) ≡ 0

abbrev taken : Timing → ℕ → ℕ → Timing
taken timing i value = record timing {
  wdog_pending = set timing.wdog_pending i (u16 value);
  wdog_update_mask = bit_or timing.wdog_update_mask (3 << (i * 2));
  wdog_update_written = true;
}

write_taken :
    (timing : Timing) (i value : ℕ)
    → IsWritable timing i
    → 2 ≤ i
    → i < 6
    → write_pending_register timing (wdog_base + i * 2) 2 value ≡ taken timing i value
unfolding write_pending_register merge_watchdog_write
write_taken timing i value h low high =
    let o = h.update in
    let r = h.ready in
    let u = h.unwritten in
    let index : (wdog_base + i * 2 - wdog_base) / 2 ≡ i = omega arith in
    let nonzero : i == 0 ≡ false = ground arith in
    rw index (rw u (rw o (rw nonzero (ground arith))))

even_address : (i : ℕ) → bit_and (wdog_base + i * 2) 1 ≡ 0
even_address i = bit_and_one (wdog_base + i * 2) ∙ omega arith

projected_register :
    (timing : Timing) (i : ℕ)
    → timing.wdog_update_open ≡ true
    → timing.wdog_update_written ≡ true
    → 2 ≤ i
    → i < 6
    → projected_watchdog_read timing (wdog_base + i * 2) 2
      ≡ some ((apply_watchdog_update timing).wdog ! i)
unfolding projected_watchdog_read read_wdog is_wdog_access
projected_register timing i o w low high =
    let index : (wdog_base + i * 2 - wdog_base) / 2 ≡ i = omega arith in
    let even : bit_and (wdog_base + i * 2) 1 ≡ 0 = even_address i in ground arith

three_digit : (n : ℕ) → n < 2 → bit 3 n ≡ true
unfolding agree_below bit
three_digit n h = agree_below_sound 2 (λ n. bit 3 n) (λ n. true) n refl h

-- Both bytes of register `i` are marked.
mask_digit :
    (update_mask i k : ℕ) → k < 16 → bit (bit_or update_mask (3 << (i * 2))) (i * 2 + k / 8) ≡ true
mask_digit update_mask i k h =
    let or = bit-or update_mask (3 << (i * 2)) (i * 2 + k / 8) in
    let shifted = bit-shl 3 (i * 2) (i * 2 + k / 8) in
    let byte : i * 2 + k / 8 - i * 2 ≡ k / 8 = omega arith in
    let three = three_digit (k / 8) (omega arith) in ground arith

written_cell :
    (timing : Timing) (i value : ℕ)
    → IsWritable timing i
    → IsWords timing.wdog_pending
    → 2 ≤ i
    → i < 6
    → (apply_watchdog_update (taken timing i value)).wdog ! i ≡ u16 value
unfolding IsWords apply_watchdog_update
written_cell timing i value h wp low high =
    let fits : i < length timing.wdog_pending = ground (arith, h.pending_cells) in
    bits_ext 16 ((apply_watchdog_update (taken timing i value)).wdog ! i) (u16 value)
      (merged_words (set timing.wdog_pending i (u16 value)) timing.wdog
        (bit_or timing.wdog_update_mask (3 << (i * 2))) i
        (λ j. cell_fits timing.wdog_pending i (u16 value) j wp (omega arith)) h.words low
        (omega arith))
      (omega arith)
      (λ k hk.
        apply_watchdog_update_lem (taken timing i value) i k h.cells low (omega arith) hk
        ∙ (rw (mask_digit timing.wdog_update_mask i k hk)
            (ap (λ x. bit x k) (get_or-set_self timing.wdog_pending i (u16 value) 0 fits))))

-- A 16-bit write to register 2, 3, 4 or 5 (the timeout and the refresh window), through an open
-- window that is ready and in which the register has not been written, is what the projected read
-- gives: the value after the window has closed. The arrays have 12 cells of 16 bits.
pub projected_read-write :
    (timing : Timing) (i value : ℕ)
    → IsWritable timing i
    → IsWords timing.wdog_pending
    → 2 ≤ i
    → i < 6
    → projected_watchdog_read
        (write_pending_register timing (wdog_base + i * 2) 2 value)
        (wdog_base + i * 2)
        2
      ≡ some (u16 value)
projected_read-write timing i value h wp low high = rw (write_taken timing i value h low high) (
    projected_register (taken timing i value) i h.update refl low high
    ∙ ap some (written_cell timing i value h wp low high))
