-- ===== src/Ports/Flags.antt =====
-- The interrupt flags of a port: in the control registers and in ISFR.
use kinetis_k22_sim.Base.{
  ℕ, ◌+◌, ◌/◌, ◌%◌, ◌^◌, ◌<◌, ◌≤◌, List, Bool, true, false, not, ◌&&◌, ◌||◌, ltb, ◌==◌,
  if◌then◌else◌, bit_and, bit_or, bit, bit-and, bit-or, bit-not32, bit-clear, bit_and-lt, flag,
  flag-pow, not32, u16, ◌<<◌, ◌>>◌, ◌!◌, set, length, length-set, get_or-set, for_range_inv, Option,
  some, none, ◌≡◌, refl, ap, ◌∙◌, arith, Bool-cases, inl, inr, ==→≡, sym,
}
use kinetis_k22_sim.Ports.State.{Port, pin_exists, pcr_isf, pcr_lk, pcr_writable}
use kinetis_k22_sim.Ports.Levels.{pin_level, update_output_events}
use kinetis_k22_sim.Ports.Output.{update_output_events_only}
use kinetis_k22_sim.Ports.Control.{
  write_pcr, write_pin_control, write_global_control, write_isfr, write_filter, write_port,
}

-- The flag of each pin stands in its control register and in ISFR, a 32-bit register.
pub record IsFlagged (port : Port) : Type 0 where
  pub cells : length port.pcr ≡ 32
  pub narrow : port.isfr < 2 ^ 32
  pub flags : (pin : ℕ) → pin < 32 → bit (port.pcr ! pin) 24 ≡ bit port.isfr pin

cleared_digit : (value : ℕ) → bit (bit_and value (not32 pcr_isf)) 24 ≡ false
cleared_digit value = let gone = bit-clear value 24 24 (omega arith) (omega arith) in ground arith

-- One cell and one digit written alike.
set-IsFlagged :
    (port : Port) (pin value isfr : ℕ)
    → pin < 32
    → isfr < 2 ^ 32
    → IsFlagged port
    → ((k : ℕ) → k < 32 → bit isfr k ≡ (if pin == k then bit value 24 else bit port.isfr k))
    → IsFlagged (record port { pcr = set port.pcr pin value; isfr = isfr })
set-IsFlagged port pin value isfr small narrow ok digits = record {
  cells = length-set port.pcr pin value ∙ ok.cells;
  narrow = narrow;
  flags = λ k lt.
      let cell = get_or-set port.pcr pin k value 0 (omega (arith, ok.cells)) in
      let digit = digits k lt in
      let old = ok.flags k lt in
      elim (Bool-cases (pin == k)) [
        | inl same ↦ rw (cell, digit, same) refl
        | inr other ↦ rw (cell, digit, other) old
      ];
}

unlocked_digit : (value : ℕ) → bit (bit_and value (bit_and pcr_writable (not32 pcr_isf))) 24 ≡ false
unfolding bit
unlocked_digit value =
    let both = bit-and value 0xf87f7 24 in let none : bit 0xf87f7 24 ≡ false = refl in ground arith

isf_digit : (value : ℕ) → bit (bit_and value pcr_isf) 24 ≡ bit value 24
unfolding bit
isf_digit value =
    let both = bit-and value pcr_isf 24 in let one : bit pcr_isf 24 ≡ true = refl in ground arith

write_pcr-IsFlagged :
    (port : Port) (pin value : ℕ) (clear : Bool)
    → pin < 32
    → IsFlagged port
    → IsFlagged (write_pcr port pin value clear)
unfolding write_pcr
write_pcr-IsFlagged port pin value true small ok =
    let isfr = bit_and port.isfr (not32 (1 << pin)) in
    let narrow : isfr < 2 ^ 32 = bit_and-lt 32 port.isfr (not32 (1 << pin)) (omega arith) in
    let one : 1 << pin ≡ 2 ^ pin = omega arith in
    let digit = λ (k : ℕ) (lt : k < 32).
      ap (λ m. bit (bit_and port.isfr (not32 m)) k) one ∙ bit-clear port.isfr pin k small lt in
    let locked = cleared_digit (port.pcr ! pin) in
    let free = unlocked_digit value in
    elim (Bool-cases (flag (port.pcr ! pin) pcr_lk)) [
      | inl lock ↦ rw lock (
          set-IsFlagged port pin _ isfr small narrow ok
            (λ k lt. let gone = digit k lt in ground arith))
      | inr unlock ↦ rw unlock (
          set-IsFlagged port pin _ isfr small narrow ok
            (λ k lt. let gone = digit k lt in ground arith))
    ]
write_pcr-IsFlagged port pin value false small ok =
    let previous = port.pcr ! pin in
    let unlocked = bit_and value (bit_and pcr_writable (not32 pcr_isf)) in
    let free = unlocked_digit value in
    let flag_digit = isf_digit previous in
    let joined = bit-or unlocked (bit_and previous pcr_isf) 24 in
    let old = ok.flags pin small in
    let kept : bit (bit_or unlocked (bit_and previous pcr_isf)) 24 ≡ bit port.isfr pin =
      ground arith in
    elim (Bool-cases (flag previous pcr_lk)) [
      | inl lock ↦ rw lock ok
      | inr unlock ↦ rw unlock (
          set-IsFlagged port pin _ port.isfr small ok.narrow ok (λ k lt.
            elim (Bool-cases (pin == k)) [
              | inl same ↦ rw same (ap (λ j. bit port.isfr j) (sym (==→≡ pin k same)) ∙ sym kept)
              | inr other ↦ rw other refl
            ]))
    ]

same_flags :
    (port changed : Port)
    → changed.pcr ≡ port.pcr
    → changed.isfr ≡ port.isfr
    → IsFlagged port
    → IsFlagged changed
same_flags port changed pcr isfr ok = record {
  cells = ap length pcr ∙ ok.cells;
  narrow = omega (arith, isfr, ok.narrow);
  flags = λ k lt.
      ap (λ (cells : List ℕ). bit (cells ! k) 24) pcr
      ∙ ok.flags k lt
      ∙ sym (ap (λ x. bit x k) isfr);
}

events-IsFlagged :
    (port : Port) (before : ℕ) → IsFlagged port → IsFlagged (update_output_events port before)
events-IsFlagged port before ok =
    let only = update_output_events_only port before in
    same_flags port (update_output_events port before) (ap (λ (p : Port). p.pcr) only)
      (ap (λ (p : Port). p.isfr) only) ok

write_global_control-IsFlagged :
    (port : Port) (first value : ℕ)
    → first ≤ 16
    → IsFlagged port
    → IsFlagged (write_global_control port first value)
unfolding write_global_control
write_global_control-IsFlagged port first value small ok = events-IsFlagged _ (pin_level port) (
    for_range_inv (λ i p. IsFlagged p) _ 16
      (λ i p below kept.
        let written = write_pcr-IsFlagged p (first + i) (u16 value) false (omega arith) kept in
        elim (Bool-cases (flag (u16 (value >> 16)) (1 << i) && pin_exists p (first + i))) [
          | inl chosen ↦ rw chosen written
          | inr other ↦ rw other kept
        ])
      16 0 port refl ok)

-- Before pin `done`, the flags in the control registers have been cleared where `value` has a digit.
record Clears (port : Port) (value isfr done : ℕ) (now : Port) : Type 0 where
  pub cells : length now.pcr ≡ 32
  pub kept : now.isfr ≡ isfr
  pub flags :
      (k : ℕ) → k < 32 → bit (now.pcr ! k) 24 ≡ (bit port.isfr k && not (ltb k done && bit value k))

clear_step :
    (port : Port) (value isfr done : ℕ) (now : Port)
    → done < 32
    → Clears port value isfr done now
    → Clears port value isfr (done + 1) (
        if flag value (1 << done)
        then record now { pcr = set now.pcr done (bit_and (now.pcr ! done) (not32 pcr_isf)) }
        else now)
clear_step port value isfr done now below holds =
    let one : 1 << done ≡ 2 ^ done = omega arith in
    let digit = ap (λ m. flag value m) one ∙ flag-pow value done in
    let gone = cleared_digit (now.pcr ! done) in
    elim (Bool-cases (bit value done)) [
      | inl written ↦
          rw (digit, written)
            record {
              cells = length-set now.pcr done _ ∙ holds.cells;
              kept = holds.kept;
              flags = λ k lt.
                  let cell =
                    get_or-set now.pcr done k (bit_and (now.pcr ! done) (not32 pcr_isf)) 0
                      (omega (arith, holds.cells)) in
                  let old = holds.flags k lt in
                  elim (Bool-cases (done == k)) [
                    | inl same ↦
                        let here = ap (λ j. bit value j) (==→≡ done k same) in
                        rw (cell, same) (ground arith)
                    | inr other ↦ rw (cell, other) (old ∙ ground arith)
                  ];
            }
      | inr unwritten ↦
          rw (digit, unwritten)
            record {
              cells = holds.cells;
              kept = holds.kept;
              flags = λ k lt.
                  let old = holds.flags k lt in
                  elim (Bool-cases (done == k)) [
                    | inl same ↦ let here = ap (λ j. bit value j) (==→≡ done k same) in ground arith
                    | inr other ↦ ground arith
                  ];
            }
    ]

write_isfr-IsFlagged :
    (port : Port) (value : ℕ) → value < 2 ^ 32 → IsFlagged port → IsFlagged (write_isfr port value)
unfolding write_isfr
write_isfr-IsFlagged port value fits ok =
    let isfr = bit_and port.isfr (not32 value) in
    let done =
      for_range_inv (λ i now. Clears port value isfr i now) _ 32
        (λ i now below holds. clear_step port value isfr i now below holds) 32 0
        (record port { isfr = isfr }) refl
        record {
          cells = ok.cells;
          kept = refl;
          flags = λ k lt. let old = ok.flags k lt in ground arith;
        } in
    record {
      cells = done.cells;
      narrow =
          let low : isfr < 2 ^ 32 = bit_and-lt 32 port.isfr (not32 value) (omega arith) in
          omega (arith, low, done.kept);
      flags = λ k lt.
          let now = done.flags k lt in
          let digit = bit-and port.isfr (not32 value) k in
          let inverted = bit-not32 value k fits lt in
          let kept = ap (λ x. bit x k) (done.kept) in ground arith;
    }

-- The port after a write that returns false is the port before.
abbrev pub after : Port → Option Port → Port
after port (some written) = written
after port none = port

record IsKept (port : Port) (out : Option Port) : Type 0 where
  pub flagged : IsFlagged (after port out)

branch :
    {port : Port} {test : Bool} {chosen other : Option Port}
    → (test ≡ true → IsKept port chosen)
    → (test ≡ false → IsKept port other)
    → IsKept port (if test then chosen else other)
branch {test = true} on off = on refl
branch {test = false} on off = off refl

kept : {port written : Port} → IsFlagged written → IsKept port (some written)
kept ok = record { flagged = ok }

refused : {port : Port} → IsFlagged port → IsKept port none
refused ok = record { flagged = ok }

pin_exists-lt : (port : Port) (pin : ℕ) → pin_exists port pin ≡ true → pin < 32
unfolding pin_exists
pin_exists-lt port pin found = ground arith

write_pin_control-IsKept :
    (port : Port) (offset size value : ℕ)
    → IsFlagged port
    → IsKept port (write_pin_control port offset size value)
unfolding write_pin_control
write_pin_control-IsKept port offset size value ok =
    branch {test = not (pin_exists port (offset / 4)) || ltb 4 (offset % 4 + size)}
      (λ missing. refused ok)
      (λ found. kept (
        events-IsFlagged _ (pin_level port) (
          write_pcr-IsFlagged port (offset / 4) _ _ (pin_exists-lt port (offset / 4) (ground arith))
            ok)))

write_filter-IsKept :
    (port : Port) (offset size value : ℕ)
    → IsFlagged port
    → IsKept port (write_filter port offset size value)
unfolding write_filter
write_filter-IsKept port offset size value ok =
    branch {test = offset == 0xc0 && size == 4} (λ enable. kept (same_flags port _ refl refl ok))
      (λ no_enable.
        branch {test = offset == 0xc4 && size == 1} (λ clock. kept (same_flags port _ refl refl ok))
          (λ no_clock.
            branch {test = offset == 0xc8 && size == 1}
              (λ width. kept (same_flags port _ refl refl ok)) (λ missing. refused ok)))

-- A write of any size and 32-bit value, at any offset of a PORT module, keeps the two places of the
-- interrupt flags in agreement: bit 24 of each control register and ISFR.
pub write_port-IsFlagged :
    (port : Port) (offset size value : ℕ)
    → value < 2 ^ 32
    → IsFlagged port
    → IsFlagged (after port (write_port port offset size value))
unfolding write_port
write_port-IsFlagged port offset size value fits ok =
    let half = if offset == 0x80 then 0 else 16 in
    let global = write_global_control-IsFlagged port half value (ground arith) ok in
    (branch {test = ltb offset 0x80} (λ low. write_pin_control-IsKept port offset size value ok)
      (λ high.
        branch {test = (offset == 0x80 || offset == 0x84) && size == 4} (λ whole. kept global)
          (λ no_global.
            branch {test = offset == 0xa0 && size == 4}
              (λ isfr. kept (write_isfr-IsFlagged port value fits ok))
              (λ no_isfr. write_filter-IsKept port offset size value ok)))).flagged
