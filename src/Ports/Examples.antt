-- ===== src/Ports/Examples.antt =====
-- A port with four pins.
use kinetis_k22_sim.Base.{
  ℕ, zero, suc, bit-zero, ◌!◌, ◌∙◌, sym, true, false, not, ◌&&◌, ◌||◌, xor, bit, [], replicate,
  some, refl, ◌≡◌, flag, for_range, arith,
}
use kinetis_k22_sim.Ports.State.{Port, pin_exists}
use kinetis_k22_sim.Ports.Levels.{pin_level_unfiltered, pin_high}
use kinetis_k22_sim.Ports.Gpio.{write_gpio}
use kinetis_k22_sim.Ports.Output.{pdor_digit, write_gpio-digits}
use kinetis_k22_sim.Ports.Control.{write_port}
use kinetis_k22_sim.Ports.Flags.{IsFlagged, after, write_port-IsFlagged}

abbrev port_c : Port
port_c = record {
  number = 2;
  pcr = replicate 32 0x103;
  isfr = 0;
  dfer = 0;
  dfcr = 0;
  dfwr = 0;
  pdor = 0x5;
  pddr = 0x3;
  external = 0x8;
  external_drive = 0x8;
  filtered = 0;
  package_pin_mask = 0xf;
  port_clocked = true;
  is_mkv10 = false;
  events = [];
}

write_gpio-digits_example :
    (pdor_digit (write_gpio port_c 0 4 0x16) 2 ≡ some (bit 0x16 2 && bit 0xf 2))
    × (pdor_digit (write_gpio port_c 4 4 0x16) 2 ≡ some (bit 0x5 2 || (bit 0x16 2 && bit 0xf 2)))
    × (pdor_digit (write_gpio port_c 8 4 0x16) 2
        ≡ some (bit 0x5 2 && not (bit 0x16 2 && bit 0xf 2)))
    × (pdor_digit (write_gpio port_c 12 4 0x16) 2
        ≡ some (xor (bit 0x5 2) (bit 0x16 2 && bit 0xf 2)))
write_gpio-digits_example =
    write_gpio-digits port_c 0x16 2 (omega arith) (omega arith) (omega arith)

level_test : pin_level_unfiltered port_c ≡ 0xd
unfolding pin_level_unfiltered pin_high pin_exists flag for_range
level_test = refl

unflagged : (n pin : ℕ) → bit (replicate n 0x103 ! pin) 24 ≡ false
unfolding bit
unflagged zero pin = refl
unflagged (suc n) zero = refl
unflagged (suc n) (suc pin) = unflagged n pin

port_c-IsFlagged : IsFlagged port_c
port_c-IsFlagged = record {
  cells = refl;
  narrow = omega arith;
  flags = λ pin lt. unflagged 32 pin ∙ sym (bit-zero pin);
}

write_port-IsFlagged_example : IsFlagged (after port_c (write_port port_c 0x80 4 0x00030105))
write_port-IsFlagged_example =
    write_port-IsFlagged port_c 0x80 4 0x00030105 (omega arith) port_c-IsFlagged
