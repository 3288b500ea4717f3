-- ===== src/Timing/Watchdog/Timeout.antt =====
-- What the watchdog's registers say, digit by digit: its timeout, whether it counts, and what its
-- expiration leaves.
use kinetis_k22_sim.Base.{
  ℕ, ◌+◌, ◌*◌, ◌/◌, ◌%◌, ◌^◌, ◌<◌, Bool, true, false, not, ◌&&◌, ◌||◌, ◌==◌, if◌then◌else◌, bit_and,
  bit_or, bit, bit-and, bit-set, agree_below, agree_below_sound, bits_ext, bit_and-lt, low_mask,
  bit_and_three, bit_or-shl, flag, flag-pow, u64, ◌>>◌, ◌!◌, set, length, get_or-set_self, ◌∷◌, ◌≡◌,
  refl, ap, ◌∙◌, arith, Bool-cases, inl, inr, ==→≡,
}
use kinetis_k22_sim.Timing.State.{Timing}
use kinetis_k22_sim.Timing.Clock.{power_status}
use kinetis_k22_sim.Timing.Watchdog.{
  Outcome, running, reset, handle_watchdog_expiration, request_interrupt, update_watchdog_interrupt,
  is_watchdog_running, effective_watchdog_timeout,
}

-- In the byte test (TESTWDOG and BYTESEL, without DISTESTWDOG) one of the four bytes counts.
abbrev pub timeout : Timing → ℕ
timeout timing =
    let control = timing.wdog ! 0 in
    let whole = timing.wdog ! 2 * 2 ^ 16 + timing.wdog ! 3 in
    if bit control 10 && bit control 11 && not (bit control 14)
    then whole / 2 ^ (control / 2 ^ 12 % 4 * 8) % 256
    else whole

-- WDOGEN; DBGEN in debug; WAITEN asleep and STOPEN deeply asleep, but never in VLLS of the MKV10.
abbrev pub is_counting : Timing → Bool
is_counting timing =
    let control = timing.wdog ! 0 in
    let stopped = timing.profile.is_mkv10 && power_status timing == 0x40 in
    bit control 0
    && (not timing.debug_halted || bit control 5)
    && (not timing.cpu_sleeping
        || (if timing.deep_sleeping then bit control 6 && not stopped else bit control 7))

-- The interrupt of an expiration: flag INTFLG, a call for interrupt 22 (23 on the MKV10), and a reset
-- 256 bus cycles later.
abbrev pub interrupted : Timing → Timing
interrupted timing = record timing {
  wdog_counter = 0;
  wdog = set timing.wdog 1 (bit_or (timing.wdog ! 1) (2 ^ 15));
  wdog_reset_pending = true;
  wdog_reset_deadline = u64 (timing.wdog_bus_cycles + 256);
  irq_calls =
      record { number = if timing.profile.is_mkv10 then 23 else 22; asserted = true }
      ∷ timing.irq_calls;
}

abbrev pub expired : Timing → Outcome
expired timing =
    if bit (timing.wdog ! 0) 2 && not timing.wdog_reset_pending
    then running (interrupted timing)
    else reset (record timing { wdog_counter = 0 }) 0x20 0

pub handle_watchdog_expiration_lem :
    (timing : Timing) → 1 < length timing.wdog → handle_watchdog_expiration timing ≡ expired timing
unfolding handle_watchdog_expiration request_interrupt update_watchdog_interrupt
handle_watchdog_expiration_lem timing cells =
    let enabled = flag-pow (timing.wdog ! 0) 2 in
    let control = bit_or (timing.wdog ! 1) 0x8000 in
    let cell = get_or-set_self timing.wdog 1 control 0 cells in
    let digit = bit-set (timing.wdog ! 1) 15 15 in
    let raised : flag control 0x8000 ≡ true = flag-pow control 15 ∙ (ground arith) in
    let asserted : flag (set timing.wdog 1 control ! 1) 0x8000 ≡ true =
      ap (λ x. flag x 0x8000) cell ∙ raised in
    ground arith

pub is_watchdog_running_lem : (timing : Timing) → is_watchdog_running timing ≡ is_counting timing
unfolding is_watchdog_running
is_watchdog_running_lem timing =
    let control = timing.wdog ! 0 in
    let enabled = flag-pow control 0 in
    let debug = flag-pow control 5 in
    let stop = flag-pow control 6 in let wait = flag-pow control 7 in ground arith

-- The digits of the mask of the byte test and of its value.
mask_digits :
    (k : ℕ)
    → k < 16
    → (bit 0x4c00 k ≡ (10 == k || 11 == k || 14 == k)) × (bit 0x0c00 k ≡ (10 == k || 11 == k))
unfolding agree_below bit
mask_digits k lt = (
  agree_below_sound 16 (λ j. bit 0x4c00 j) (λ j. 10 == j || 11 == j || 14 == j) k refl lt,
  agree_below_sound 16 (λ j. bit 0x0c00 j) (λ j. 10 == j || 11 == j) k refl lt,
)

byte_digits :
    (control : ℕ)
    → (bit control 10 && bit control 11 && not (bit control 14)) ≡ true
    → bit_and control 0x4c00 ≡ 0x0c00
byte_digits control digits =
    bits_ext 16 (bit_and control 0x4c00) 0x0c00 (bit_and-lt 16 control 0x4c00 (omega arith))
      (omega arith)
      (λ k lt.
        let literal = mask_digits k lt in
        let both = bit-and control 0x4c00 k in
        elim (Bool-cases (10 == k)) [
          | inl ten ↦ let at_k = ap (λ i. bit control i) (==→≡ 10 k ten) in ground arith
          | inr not_ten ↦ elim (Bool-cases (11 == k)) [
            | inl eleven ↦ let at_k = ap (λ i. bit control i) (==→≡ 11 k eleven) in ground arith
            | inr neither ↦ elim (Bool-cases (14 == k)) [
              | inl last ↦ let at_k = ap (λ i. bit control i) (==→≡ 14 k last) in ground arith
              | inr none ↦ ground arith
            ]
          ]
        ])

byte_literals :
    (bit 0x4c00 10 ≡ true)
    × (bit 0x4c00 11 ≡ true)
    × (bit 0x4c00 14 ≡ true)
    × (bit 0x0c00 10 ≡ true)
    × (bit 0x0c00 11 ≡ true)
    × (bit 0x0c00 14 ≡ false)
unfolding bit
byte_literals = (refl, refl, refl, refl, refl, refl)

byte_test :
    (control : ℕ)
    → (bit_and control 0x4c00 == 0x0c00)
      ≡ (bit control 10 && bit control 11 && not (bit control 14))
byte_test control =
    let tenth = bit-and control 0x4c00 10 in
    let eleventh = bit-and control 0x4c00 11 in
    let last = bit-and control 0x4c00 14 in
    let literals = byte_literals in
    elim (Bool-cases (bit_and control 0x4c00 == 0x0c00)) [
      | inl same ↦
          let value = ==→≡ (bit_and control 0x4c00) 0x0c00 same in
          let at_10 = ap (λ x. bit x 10) value in
          let at_11 = ap (λ x. bit x 11) value in
          let at_14 = ap (λ x. bit x 14) value in ground arith
      | inr other ↦ elim (Bool-cases (bit control 10 && bit control 11 && not (bit control 14))) [
        | inl digits ↦ let value = byte_digits control digits in ground arith
        | inr none ↦ rw (other, none) refl
      ]
    ]

pub effective_watchdog_timeout_lem :
    (timing : Timing)
    → timing.wdog ! 3 < 2 ^ 16
    → effective_watchdog_timeout timing ≡ timeout timing
unfolding effective_watchdog_timeout
effective_watchdog_timeout_lem timing low =
    let control = timing.wdog ! 0 in
    let test = byte_test control in
    let whole = bit_or-shl 16 (timing.wdog ! 2) (timing.wdog ! 3) low in
    let index = bit_and_three (control >> 12) in
    elim (Bool-cases (bit control 10 && bit control 11 && not (bit control 14))) [
      | inl byte ↦ rw (test, byte, whole, index) (low_mask 8 _)
      | inr wide ↦ rw (test, wide, whole) refl
    ]
