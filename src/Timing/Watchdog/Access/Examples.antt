-- ===== src/Timing/Watchdog/Access/Examples.antt =====
-- The bytes of a sequence, and a read of the timeout register by halves.
use kinetis_k22_sim.Base.{◌+◌, true, false, some, none, ◌≡◌, refl}
use kinetis_k22_sim.Timing.Sample.{locked}
use kinetis_k22_sim.Timing.Watchdog.Access.{
  wdog_base, is_wdog_access, is_valid_sequence_byte, read_wdog,
}

first_byte_test : is_valid_sequence_byte 0 0x20 0xc520 0xd928 ≡ true
unfolding is_valid_sequence_byte
first_byte_test = refl

wrong_lane_test : is_valid_sequence_byte 1 0x20 0xc520 0xd928 ≡ false
unfolding is_valid_sequence_byte
wrong_lane_test = refl

read_high_test : read_wdog locked (wdog_base + 7) 1 ≡ some 3
unfolding read_wdog is_wdog_access
read_high_test = refl

read_word_test : read_wdog locked (wdog_base + 6) 4 ≡ none
unfolding read_wdog is_wdog_access
read_word_test = refl
