-- ===== src/Ports/Control.antt =====
-- device/kinetis/gpio/core.c: the registers of the PORT module.
use kinetis_k22_sim.Base.{
  ℕ, ◌+◌, ◌-◌, ◌*◌, ◌/◌, ◌%◌, Bool, false, not, ◌&&◌, ◌||◌, ltb, leb, ◌==◌, ◌!=◌, if◌then◌else◌,
  bit_and, bit_or, flag, not32, u8, u16, ◌<<◌, ◌>>◌, ◌!◌, set, for_range, Option, some, none,
}
use kinetis_k22_sim.Ports.State.{
  Port, pcr_isf, pcr_lk, pcr_writable, width_mask, merge_value, pin_exists,
}
use kinetis_k22_sim.Ports.Levels.{pin_level, pin_level_unfiltered, update_output_events}

-- `kinetis_io_internal_read_port`; `none` when it returns false.
pub read_port : Port → ℕ → ℕ → Option ℕ
read_port port offset size =
    let pin = offset / 4 in
    if ltb offset 0x80
    then (if not (pin_exists port pin) || ltb 4 (offset % 4 + size)
        then none
        else some (bit_and (port.pcr ! pin >> (bit_and offset 3 * 8)) (width_mask size)))
    else if offset == 0x80 || offset == 0x84
    then (if size != 4 then none else some 0)
    else if offset == 0xa0 && size == 4
    then some port.isfr
    else if offset == 0xc0 && size == 4
    then some port.dfer
    else if offset == 0xc4 && size == 1
    then some port.dfcr
    else if offset == 0xc8 && size == 1
    then some port.dfwr
    else none

-- A locked register keeps all but its flag.
unfoldable pub write_pcr : Port → ℕ → ℕ → Bool → Port
write_pcr port pin requested_value clear_isf =
    let previous_value = port.pcr ! pin in
    let unlocked = bit_and requested_value (bit_and pcr_writable (not32 pcr_isf)) in
    let kept_isf = bit_or unlocked (bit_and previous_value pcr_isf) in
    let isfr = if clear_isf then bit_and port.isfr (not32 (1 << pin)) else port.isfr in
    let cleared = record port {
      pcr = set port.pcr pin (bit_and previous_value (not32 pcr_isf));
      isfr = isfr;
    } in
    if flag previous_value pcr_lk then (if clear_isf then cleared else port) else record port {
      pcr = set port.pcr pin (if clear_isf then unlocked else kept_isf);
      isfr = isfr;
    }

-- A write of one control register.
unfoldable pub write_pin_control : Port → ℕ → ℕ → ℕ → Option Port
write_pin_control port offset size write_value =
    let pin = offset / 4 in
    let register_byte = bit_and offset 3 in
    let clear_isf =
      leb register_byte 3
      && ltb 3 (register_byte + size)
      && flag write_value (1 << ((3 - register_byte) * 8)) in
    let written =
      write_pcr port pin (merge_value (port.pcr ! pin) offset size write_value) clear_isf in
    if not (pin_exists port pin) || ltb 4 (offset % 4 + size)
    then none
    else some (update_output_events written (pin_level port))

-- GPCLR and GPCHR: the same value for the selected pins of one half of the port.
unfoldable pub write_global_control : Port → ℕ → ℕ → Port
write_global_control port first write_value =
    let selected_pins = u16 (write_value >> 16) in
    let written =
      for_range 16 0
        (λ i p.
          if flag selected_pins (1 << i) && pin_exists p (first + i)
          then write_pcr p (first + i) (u16 write_value) false
          else p)
        port in
    update_output_events written (pin_level port)

-- ISFR: written digits are cleared.
unfoldable pub write_isfr : Port → ℕ → Port
write_isfr port write_value =
    for_range 32 0
      (λ pin p.
        if flag write_value (1 << pin)
        then record p { pcr = set p.pcr pin (bit_and (p.pcr ! pin) (not32 pcr_isf)) }
        else p)
      (record port { isfr = bit_and port.isfr (not32 write_value) })

abbrev pub write_dfer : Port → ℕ → Port
write_dfer port write_value =
    let enabled = record port { dfer = bit_and write_value port.package_pin_mask } in
    record enabled { filtered = pin_level_unfiltered enabled }

-- The registers of the digital filter.
unfoldable pub write_filter : Port → ℕ → ℕ → ℕ → Option Port
write_filter port offset size write_value =
    if offset == 0xc0 && size == 4
    then some (write_dfer port write_value)
    else if offset == 0xc4 && size == 1
    then some (record port { dfcr = bit_and (u8 write_value) 1 })
    else if offset == 0xc8 && size == 1
    then some (record port { dfwr = bit_and (u8 write_value) 0x1f })
    else none

-- `kinetis_io_internal_write_port`; `none` when it returns false.
unfoldable pub write_port : Port → ℕ → ℕ → ℕ → Option Port
write_port port offset size write_value =
    if ltb offset 0x80
    then write_pin_control port offset size write_value
    else if (offset == 0x80 || offset == 0x84) && size == 4
    then some (write_global_control port (if offset == 0x80 then 0 else 16) write_value)
    else if offset == 0xa0 && size == 4
    then some (write_isfr port write_value)
    else write_filter port offset size write_value
