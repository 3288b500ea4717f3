-- ===== src/Ports/Output.antt =====
-- What writes of the GPIO registers leave in the output register.
use kinetis_k22_sim.Base.{
  ℕ, ◌-◌, ◌^◌, ◌<◌, Bool, not, ◌&&◌, ◌||◌, bit_and, bit, bit-and, bit-or, bit-xor, bit-not32,
  low_mask, bit-ones, bit_and-lt, not32, u32, xor, ◌<<◌, for_range_inv, Option, some, none, ◌≡◌,
  refl, ap, ◌∙◌, arith,
}
use kinetis_k22_sim.Ports.State.{Port, merge_value}
use kinetis_k22_sim.Ports.Levels.{update_output_events, pin_level}
use kinetis_k22_sim.Ports.Gpio.{written_gpio, with_events, write_gpio}

-- The events of the pins change nothing but the list of events.
pub update_output_events_only :
    (port : Port) (previous : ℕ)
    → update_output_events port previous
      ≡ record port { events = (update_output_events port previous).events }
unfolding update_output_events
update_output_events_only port previous =
    for_range_inv (λ index emitted. emitted ≡ record port { events = emitted.events }) _ 32
      (λ index emitted below only. ground arith) 32 0 port refl refl

-- The digit of PDOR after a write.
abbrev pub pdor_digit : Option Port → ℕ → Option Bool
pdor_digit (some port) k = some (bit port.pdor k)
pdor_digit none k = none

pdor_digit-with_events :
    (before : ℕ) (out : Option Port) (k : ℕ)
    → pdor_digit (with_events before out) k ≡ pdor_digit out k
pdor_digit-with_events before none k = refl
pdor_digit-with_events before (some port) k =
    ap (λ (p : Port). some (bit p.pdor k)) (update_output_events_only port before)

whole_word : (value : ℕ) → value < 2 ^ 32 → u32 (bit_and value (2 ^ 32 - 1) << 0) ≡ value
whole_word value fits = let masked = low_mask 32 value in omega arith

whole_merge :
    (old value k : ℕ) → value < 2 ^ 32 → k < 32 → bit (merge_value old 0 4 value) k ≡ bit value k
unfolding merge_value
whole_merge old value k fits lt =
    let ones = bit-ones 32 k in
    let zeros = bit-not32 (2 ^ 32 - 1) k (omega arith) lt in
    let word : u32 (value << 0) ≡ value = omega arith in
    let merged =
      bit-or (bit_and old (not32 (2 ^ 32 - 1))) (bit_and (u32 (value << 0)) (2 ^ 32 - 1)) k in
    let none = bit-and old (not32 (2 ^ 32 - 1)) k in
    let all = bit-and (u32 (value << 0)) (2 ^ 32 - 1) k in
    let same = ap (λ x. bit x k) word in ground arith

-- A word write of a 32-bit value puts the digits of the pins of the package into PDOR at offset 0, sets
-- those that it has at 4, clears them at 8 and inverts them at 12; all other digits of PDOR stay, those
-- at offset 0 of pins that the package lacks become 0.
pub write_gpio-digits :
    (port : Port) (value k : ℕ)
    → port.package_pin_mask < 2 ^ 32
    → value < 2 ^ 32
    → k < 32
    → let before = bit port.pdor k in
      let chosen = bit value k && bit port.package_pin_mask k in
      (pdor_digit (write_gpio port 0 4 value) k ≡ some chosen)
      × (pdor_digit (write_gpio port 4 4 value) k ≡ some (before || chosen))
      × (pdor_digit (write_gpio port 8 4 value) k ≡ some (before && not chosen))
      × (pdor_digit (write_gpio port 12 4 value) k ≡ some (xor before chosen))
unfolding write_gpio written_gpio
write_gpio-digits port value k narrow fits lt =
    let mask = port.package_pin_mask in
    let word = whole_word value fits in
    let chosen = bit-and value mask k in
    let kept = λ (out : Option Port). pdor_digit-with_events (pin_level port) out k in
    let merged = whole_merge port.pdor value k fits lt in
    let cleared = bit-not32 (bit_and value mask) k (bit_and-lt 32 value mask narrow) lt in
    (
      kept (written_gpio port 0 4 value)
          ∙ ap some (bit-and (merge_value port.pdor 0 4 value) mask k ∙ (rw merged refl)),
      kept (written_gpio port 4 4 value)
          ∙ ap some (rw (word, bit-or port.pdor (bit_and value mask) k, chosen) refl),
      kept (written_gpio port 8 4 value)
          ∙ ap some
              (rw (word, bit-and port.pdor (not32 (bit_and value mask)) k, cleared, chosen) refl),
      kept (written_gpio port 12 4 value)
          ∙ ap some (rw (word, bit-xor port.pdor (bit_and value mask) k, chosen) refl),
    )
