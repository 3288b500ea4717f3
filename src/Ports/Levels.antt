-- ===== src/Ports/Levels.antt =====
-- device/kinetis/gpio/core.c: the levels of the pins, and the events of their changes.
use kinetis_k22_sim.Base.{
  ℕ, ◌+◌, ◌*◌, Bool, true, not, ◌&&◌, ◌||◌, leb, ◌==◌, if◌then◌else◌, bit_and, bit_or, bit_xor,
  flag, not32, of_bool, ◌<<◌, ◌>>◌, ◌!◌, set, for_range, xor,
}
use kinetis_k22_sim.Ports.State.{
  Port, dma, irq, gpio_output, emit, pcr_isf, pcr_ode, pcr_pe, pcr_ps, pin_exists,
}

-- The level of a pin: what it drives as an output, unless it is open drain and drives 1; else what is
-- driven from outside; else what it is pulled to.
unfoldable pub pin_high : Port → ℕ → Bool
pin_high port pin =
    let pcr = port.pcr ! pin in
    let mask = 1 << pin in
    let is_output = flag port.pddr mask && bit_and (pcr >> 8) 7 == 1 in
    if is_output && (not (flag pcr pcr_ode) || not (flag port.pdor mask))
    then flag port.pdor mask
    else if flag port.external_drive mask
    then flag port.external mask
    else flag pcr pcr_pe && flag pcr pcr_ps

unfoldable pub pin_level_unfiltered : Port → ℕ
pin_level_unfiltered port =
    for_range 32 0
      (λ pin levels.
        if pin_exists port pin && pin_high port pin then bit_or levels (1 << pin) else levels)
      0

pub pin_level : Port → ℕ
pin_level port =
    let filtered = bit_and port.dfer port.package_pin_mask in
    bit_or (bit_and (pin_level_unfiltered port) (not32 filtered)) (bit_and port.filtered filtered)

-- Whether a change of a pin from `previous` to `current` triggers its event, by IRQC.
pub is_triggered : ℕ → Bool → Bool → Bool
is_triggered interrupt_config previous current =
    if interrupt_config == 1 || interrupt_config == 9
    then not previous && current
    else if interrupt_config == 2 || interrupt_config == 10
    then previous && not current
    else if interrupt_config == 3 || interrupt_config == 11
    then true
    else if interrupt_config == 8
    then not current
    else interrupt_config == 12 && current

abbrev pub port_irq : Port → ℕ
port_irq port = if port.is_mkv10 then (if port.number == 0 then 30 else 31) else 59 + port.number

pub update_pin_event : Port → ℕ → Bool → Bool → Port
update_pin_event port pin previous current =
    let interrupt_config = bit_and (port.pcr ! pin >> 16) 15 in
    let mask = 1 << pin in
    let flagged = record port {
      isfr = bit_or port.isfr mask;
      pcr = set port.pcr pin (bit_or (port.pcr ! pin) pcr_isf);
    } in
    if not (xor previous current) || not (is_triggered interrupt_config previous current)
    then port
    else if leb interrupt_config 3
    then emit flagged dma (port.number * 32 + pin) (of_bool current) interrupt_config
    else emit flagged irq (port_irq port) mask interrupt_config

-- The loop of `update_output_events` takes the lowest digit of `changed` again and again: it emits an
-- event for each of the digits, from the lowest up.
unfoldable pub update_output_events : Port → ℕ → Port
update_output_events port previous_pin_level =
    let current = pin_level port in
    let changed =
      bit_and (bit_and (bit_xor previous_pin_level current) port.pddr) port.package_pin_mask in
    for_range 32 0
      (λ pin emitted.
        if flag changed (1 << pin)
        then emit emitted gpio_output (port.number * 32 + pin) (of_bool (flag current (1 << pin)))
            (bit_and (port.pcr ! pin >> 8) 7)
        else emitted)
      port

pub commit_pin_level : Port → ℕ → Bool → Bool → Port
commit_pin_level port pin previous high =
    let mask = 1 << pin in
    let filtered = if high then bit_or port.filtered mask else bit_and port.filtered (not32 mask) in
    update_pin_event (record port { filtered = filtered }) pin previous high
