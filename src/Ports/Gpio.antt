-- ===== src/Ports/Gpio.antt =====
-- device/kinetis/gpio/core.c: the registers of the GPIO module.
use kinetis_k22_sim.Base.{
  ℕ, ◌+◌, ◌*◌, not, ◌||◌, ltb, ◌==◌, if◌then◌else◌, bit_and, bit_or, bit_xor, not32, u32, ◌<<◌,
  ◌>>◌, Option, some, none,
}
use kinetis_k22_sim.Ports.State.{Port, width_mask, merge_value}
use kinetis_k22_sim.Ports.Levels.{pin_level, update_output_events}

abbrev pub gpio_value : Port → ℕ → ℕ
gpio_value port register_offset =
    if register_offset == 0
    then port.pdor
    else if register_offset == 0x10
    then (if not port.is_mkv10 || port.port_clocked then pin_level port else 0)
    else if register_offset == 0x14
    then port.pddr
    else 0

-- `kinetis_io_internal_read_gpio`; `none` when it returns false.
pub read_gpio : Port → ℕ → ℕ → Option ℕ
read_gpio port offset size =
    let byte_offset = bit_and offset 3 in
    let value = gpio_value port (bit_and offset (not32 3)) in
    if ltb 4 (byte_offset + size)
    then none
    else some (bit_and (value >> (byte_offset * 8)) (width_mask size))

-- The register that a write changes: PDOR, PSOR, PCOR, PTOR or PDDR.
unfoldable pub written_gpio : Port → ℕ → ℕ → ℕ → Option Port
written_gpio port offset size write_value =
    let register_offset = bit_and offset (not32 3) in
    let package_mask = port.package_pin_mask in
    let shifted_value = u32 (bit_and write_value (width_mask size) << (bit_and offset 3 * 8)) in
    let selected = bit_and shifted_value package_mask in
    if register_offset == 0
    then some (record port {
      pdor = bit_and (merge_value port.pdor offset size write_value) package_mask;
    })
    else if register_offset == 4
    then some (record port { pdor = bit_or port.pdor selected })
    else if register_offset == 8
    then some (record port { pdor = bit_and port.pdor (not32 selected) })
    else if register_offset == 0x0c
    then some (record port { pdor = bit_xor port.pdor selected })
    else if register_offset == 0x14
    then some (record port {
      pddr = bit_and (merge_value port.pddr offset size write_value) package_mask;
    })
    else none

abbrev pub with_events : ℕ → Option Port → Option Port
with_events before (some port) = some (update_output_events port before)
with_events before none = none

-- `kinetis_io_internal_write_gpio`; `none` when it returns false.
unfoldable pub write_gpio : Port → ℕ → ℕ → ℕ → Option Port
write_gpio port offset size write_value =
    if ltb 4 (bit_and offset 3 + size)
    then none
    else with_events (pin_level port) (written_gpio port offset size write_value)
