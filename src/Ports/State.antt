-- ===== src/Ports/State.antt =====
-- device/kinetis/gpio/core.c and io.h: the state of one port. The functions take the number of the port
-- and use the cell of that number in each array of `KinetisIo`; a Port is these cells.
use kinetis_k22_sim.Base.{
  ℕ, ◌-◌, ◌*◌, ◌^◌, Bool, ◌&&◌, ltb, ◌==◌, if◌then◌else◌, bit_and, bit_or, flag, not32, u32, ◌<<◌,
  List, ◌∷◌,
}

-- The first three are the events of a port.
pub data EventType : Type 0 where
  irq : EventType
  dma : EventType
  gpio_output : EventType
  usb_token : EventType
  can_transmit : EventType
  i2s_transmit : EventType
  flexbus_transfer : EventType
  access_error : EventType

pub record Event : Type 0 where
  pub type : EventType
  pub source : ℕ
  pub value : ℕ
  pub auxiliary : ℕ

-- `is_mkv10` tells the profile KINETIS_PROFILE_MKV10Z1287, and `port_clocked` is `clock_enabled` of the
-- port's peripheral. `events` has the calls of the event handler, the last one first.
pub record Port : Type 0 where
  pub number : ℕ
  pub pcr : List ℕ
  pub isfr : ℕ
  pub dfer : ℕ
  pub dfcr : ℕ
  pub dfwr : ℕ
  pub pdor : ℕ
  pub pddr : ℕ
  pub external : ℕ
  pub external_drive : ℕ
  pub filtered : ℕ
  pub package_pin_mask : ℕ
  pub port_clocked : Bool
  pub is_mkv10 : Bool
  pub events : List Event

abbrev pub pcr_isf : ℕ
pcr_isf = 1 << 24

abbrev pub pcr_lk : ℕ
pcr_lk = 1 << 15

abbrev pub pcr_ode : ℕ
pcr_ode = 1 << 5

abbrev pub pcr_pe : ℕ
pcr_pe = 1 << 1

abbrev pub pcr_ps : ℕ
pcr_ps = 1

abbrev pub pcr_writable : ℕ
pcr_writable = 0x010f87f7

abbrev pub emit : Port → EventType → ℕ → ℕ → ℕ → Port
emit port type source value auxiliary = record port {
  events =
      record { type = type; source = source; value = value; auxiliary = auxiliary } ∷ port.events;
}

abbrev pub width_mask : ℕ → ℕ
width_mask size = if size == 4 then 2 ^ 32 - 1 else (1 << (size * 8)) - 1

-- A register with the bytes at `offset` written.
unfoldable pub merge_value : ℕ → ℕ → ℕ → ℕ → ℕ
merge_value previous_value offset size write_value =
    let shift = bit_and offset 3 * 8 in
    let bit_mask = u32 (width_mask size << shift) in
    bit_or (bit_and previous_value (not32 bit_mask)) (bit_and (u32 (write_value << shift)) bit_mask)

unfoldable pub pin_exists : Port → ℕ → Bool
pin_exists port pin = ltb pin 32 && flag port.package_pin_mask (1 << pin)
