-- ===== src/Cortex/Scs/Write.antt =====
-- system.c: `cortex_m4_system_write`. The writes of the debug unit (debug.c) are a parameter.
use kinetis_k22_sim.Base.{
  ℕ, ◌+◌, ◌-◌, ◌*◌, ◌/◌, bit_and, bit_or, Bool, true, false, not, ◌&&◌, ◌||◌, ltb, leb, ◌==◌, ◌!=◌,
  if◌then◌else◌, ◌<<◌, ◌>>◌, ◌!◌, flag, not32, u8, set, for_range, Option, some, none,
}
use kinetis_k22_sim.Cortex.State.{
  Cpu, Access, is_armv6_m, SystemAccess, outside, accepted, rejected,
}
use kinetis_k22_sim.Cortex.Registers.{access_is_unprivileged}
use kinetis_k22_sim.Cortex.Pending.{external_irq_word_count, has_wakeup_pending, set_pending}
use kinetis_k22_sim.Cortex.Scs.Access.{
  outside_space, aligned, within, valid_system_access, armv6_m_system_register,
  is_privileged_access, is_debugger, debug_access_permitted, debug_address, external_irq_word_mask,
  merge_partial, access_value,
}
use kinetis_k22_sim.Cortex.Scs.Read.{shcsr_value, configurable_system_exception, armv6_m_refuses}

-- `(uint8_t)(0xffu << (8u - priority_bits))`.
abbrev pub priority_mask : Cpu → ℕ
priority_mask cpu = u8 (0xff << (8 - cpu.priority_bits))

-- `write_priority_bytes`, for the priorities of the interrupts.
unfoldable pub write_priority_bytes : Cpu → ℕ → ℕ → ℕ → Cpu
write_priority_bytes cpu byte_offset byte_count value = record cpu {
  irq_priority =
      for_range byte_count 0
        (λ i priorities.
          set priorities (byte_offset + i) (bit_and (u8 (value >> (i * 8))) (priority_mask cpu)))
        cpu.irq_priority;
}

unfoldable pub write_system_priority : Cpu → ℕ → ℕ → ℕ → Cpu
write_system_priority cpu byte_offset byte_count value = record cpu {
  system_priority =
      for_range byte_count 0
        (λ i priorities.
          if configurable_system_exception cpu (byte_offset + i + 4)
          then set priorities (byte_offset + i)
              (bit_and (u8 (value >> (i * 8))) (priority_mask cpu))
          else priorities)
        cpu.system_priority;
}

unfoldable pub write_shcsr : Cpu → ℕ → ℕ → ℕ → Cpu
write_shcsr cpu address size write_value =
    let written = merge_partial (shcsr_value cpu) address size write_value in
    let enables = record cpu { shcsr = bit_and written 0x00070000 } in
    let usage = set_pending enables 6 (flag written (1 << 12)) in
    let memory = set_pending usage 4 (flag written (1 << 13)) in
    let bus = set_pending memory 5 (flag written (1 << 14)) in
    set_pending bus 11 (flag written (1 << 15))

-- Each group below gives `none` for the registers of the later ones.
unfoldable pub write_systick : Cpu → ℕ → ℕ → ℕ → Option Cpu
write_systick cpu address size value =
    let word = aligned address in
    if word == 0xe000e010
    then some (record cpu {
      systick_control = bit_and (merge_partial cpu.systick_control address size value) 0x00010007;
    })
    else if word == 0xe000e014
    then some (record cpu {
      systick_reload = bit_and (merge_partial cpu.systick_reload address size value) 0x00ffffff;
    })
    else if word == 0xe000e018
    then some (record cpu {
      systick_current = 0;
      systick_external_phase = 0;
      systick_control = bit_and cpu.systick_control (not32 (1 << 16));
    })
    else none

abbrev pub in_irq_words : Cpu → ℕ → ℕ → Bool
in_irq_words cpu first word = leb first word && ltb word (first + external_irq_word_count cpu * 4)

unfoldable pub enable_irqs : Cpu → ℕ → ℕ → Cpu
enable_irqs cpu index bits =
    let enabled = record cpu {
      irq_enabled =
          set cpu.irq_enabled index
            (bit_or (cpu.irq_enabled ! index) (bit_and bits (external_irq_word_mask cpu index)));
    } in
    if has_wakeup_pending enabled then record enabled { sleeping = false } else enabled

unfoldable pub disable_irqs : Cpu → ℕ → ℕ → Cpu
disable_irqs cpu index bits = record cpu {
  irq_enabled =
      set cpu.irq_enabled index (
        bit_and (cpu.irq_enabled ! index)
          (not32 (bit_and bits (external_irq_word_mask cpu index))));
}

-- The loops over the bits of ISPR and ICPR; the guard of the loop only gets false as the bit grows.
unfoldable pub pend_irqs : Cpu → ℕ → ℕ → Cpu
pend_irqs cpu first_irq bits =
    for_range 32 0
      (λ k c.
        if ltb (first_irq + k) cpu.external_irq_count && flag bits (1 << k)
        then set_pending c (first_irq + k + 16) true
        else c)
      cpu

unfoldable pub unpend_irqs : Cpu → ℕ → ℕ → Cpu
unpend_irqs cpu first_irq bits =
    for_range 32 0
      (λ k c.
        if ltb (first_irq + k) cpu.external_irq_count
          && flag bits (1 << k)
          && not (flag (c.irq_level ! ((first_irq + k) / 32)) (1 << k))
        then set_pending c (first_irq + k + 16) false
        else c)
      cpu

unfoldable pub write_nvic : Cpu → ℕ → ℕ → ℕ → Option Cpu
write_nvic cpu address size value =
    let word = aligned address in
    let bits = access_value address size value in
    if in_irq_words cpu 0xe000e100 word
    then some (enable_irqs cpu ((word - 0xe000e100) / 4) bits)
    else if in_irq_words cpu 0xe000e180 word
    then some (disable_irqs cpu ((word - 0xe000e180) / 4) bits)
    else if in_irq_words cpu 0xe000e200 word
    then some (pend_irqs cpu ((word - 0xe000e200) / 4 * 32) bits)
    else if in_irq_words cpu 0xe000e280 word
    then some (unpend_irqs cpu ((word - 0xe000e280) / 4 * 32) bits)
    else if within 0xe000e400 cpu.external_irq_count address size
    then some (write_priority_bytes cpu (address - 0xe000e400) size value)
    else none

-- One command bit of ICSR.
abbrev pub command : Bool → ℕ → Bool → Cpu → Cpu
command true exception pending cpu = set_pending cpu exception pending
command false exception pending cpu = cpu

unfoldable pub write_icsr : Cpu → ℕ → Cpu
write_icsr cpu written =
    let nmi = command (flag written (1 << 31)) 2 true cpu in
    let pendsv = command (flag written (1 << 28)) 14 true nmi in
    let no_pendsv = command (flag written (1 << 27)) 14 false pendsv in
    let systick = command (flag written (1 << 26)) 15 true no_pendsv in
    command (flag written (1 << 25)) 15 false systick

unfoldable pub write_aircr : Cpu → ℕ → ℕ → Cpu
write_aircr cpu size value =
    let keyed = record cpu {
      aircr = if is_armv6_m cpu.architecture then 0 else bit_and value 0x00000700;
    } in
    if size == 4 && value >> 16 == 0x05fa
    then if flag value (1 << 2) then record keyed { reset_requested = true } else keyed
    else cpu

unfoldable pub write_control : Cpu → ℕ → ℕ → ℕ → Option Cpu
write_control cpu address size value =
    let word = aligned address in
    if word == 0xe000ed04
    then some (write_icsr cpu (access_value address size value))
    else if word == 0xe000ed08
    then some (record cpu {
      vtor =
          bit_and (merge_partial cpu.vtor address size value)
            (if is_armv6_m cpu.architecture then 0xffffff00 else 0xffffff80);
    })
    else if word == 0xe000ed0c
    then some (write_aircr cpu size value)
    else if word == 0xe000ed10
    then some (record cpu { scr = bit_and (merge_partial cpu.scr address size value) 0x16 })
    else if word == 0xe000ed14
    then some (
        if is_armv6_m cpu.architecture
        then cpu
        else record cpu { ccr = bit_and (merge_partial cpu.ccr address size value) 0x0000031b })
    else if within 0xe000ed18 12 address size
    then some (write_system_priority cpu (address - 0xe000ed18) size value)
    else none

unfoldable pub write_faults : Cpu → ℕ → ℕ → ℕ → Option Cpu
write_faults cpu address size value =
    let word = aligned address in
    let written = access_value address size value in
    if word == 0xe000ed24
    then some (
        if is_armv6_m cpu.architecture
        then set_pending cpu 11 (flag written (1 << 15))
        else write_shcsr cpu address size value)
    else if word == 0xe000ed28
    then some (record cpu { cfsr = bit_and cpu.cfsr (not32 written) })
    else if word == 0xe000ed2c
    then some (record cpu { hfsr = bit_and cpu.hfsr (not32 (bit_and written 0xc0000002)) })
    else if word == 0xe000ed30
    then some (record cpu { dfsr = bit_and cpu.dfsr (not32 (bit_and written 0x1f)) })
    else if word == 0xe000ed34
    then some (record cpu { mmfar = merge_partial cpu.mmfar address size value })
    else if word == 0xe000ed38
    then some (record cpu { bfar = merge_partial cpu.bfar address size value })
    else if word == 0xe000ed3c
    then some (record cpu { afsr = merge_partial cpu.afsr address size value })
    else if word == 0xe000ed88
    then some
        (record cpu { cpacr = bit_and (merge_partial cpu.cpacr address size value) 0x00f00000 })
    else none

abbrev pub fpccr_enables : ℕ
fpccr_enables = 0xc0000000

unfoldable pub write_fpu : Cpu → ℕ → ℕ → ℕ → Option Cpu
write_fpu cpu address size value =
    let word = aligned address in
    if word == 0xe000ef34
    then some (record cpu {
      fpccr =
          bit_or (bit_and cpu.fpccr (not32 fpccr_enables))
            (bit_and (merge_partial cpu.fpccr address size value) fpccr_enables);
    })
    else if word == 0xe000ef38
    then some
        (record cpu { fpcar = bit_and (merge_partial cpu.fpcar address size value) 0xfffffff8 })
    else if word == 0xe000ef3c
    then some
        (record cpu { fpdscr = bit_and (merge_partial cpu.fpdscr address size value) 0x07c00000 })
    else none

abbrev pub stir : ℕ
stir = 0xe000ef00

unfoldable pub write_stir : Cpu → ℕ → ℕ → Option Cpu
write_stir cpu size value =
    let irq = bit_and value 0x1ff in
    if size != 4 || leb cpu.external_irq_count irq
    then none
    else some (set_pending cpu (irq + 16) true)

-- Registers whose write is accepted without effect.
abbrev pub read_only : Cpu → ℕ → Bool
read_only cpu word =
    word == 0xe000e004
    || word == 0xe000e01c
    || in_irq_words cpu 0xe000e300 word
    || word == 0xe000ed00
    || (leb 0xe000ed40 word && leb word 0xe000ed74)
    || word == 0xe000ef40
    || word == 0xe000ef44
    || word == 0xe000ef48

-- The written state, or the next group.
abbrev pub or_next : Option Cpu → Option Cpu → Option Cpu
or_next (some written) next = some written
or_next none next = next

-- Past the guards; `none` where the write is rejected.
unfoldable pub write_scs : Cpu → ℕ → ℕ → ℕ → Option Cpu
write_scs cpu address size value = or_next (write_systick cpu address size value) (
    or_next (write_nvic cpu address size value) (
      or_next (write_control cpu address size value) (
        or_next (write_faults cpu address size value) (
          if address == stir
          then write_stir cpu size value
          else or_next (write_fpu cpu address size value)
              (if read_only cpu (aligned address) then some cpu else none)))))

-- `user_stir`: software may pend an interrupt without privilege when USERSETMPEND is set.
unfoldable pub user_stir : Cpu → ℕ → ℕ → Access → Bool
user_stir cpu address size access =
    address == stir && size == 4 && access_is_unprivileged cpu access && flag cpu.ccr (1 << 1)

unfoldable pub writable : Cpu → ℕ → ℕ → Access → Bool
writable cpu address size access =
    let word = aligned address in
    if not (armv6_m_system_register cpu address size)
    then false
    else if is_armv6_m cpu.architecture
        && (word == 0xe000ed24 || word == 0xe000ed30)
        && not (is_debugger access)
    then false
    else if not (valid_system_access address size) && not (user_stir cpu address size access)
    then false
    else is_privileged_access cpu access || user_stir cpu address size access

-- What a write leaves; a rejected one has changed nothing.
abbrev pub writing : Cpu → Option Cpu → Cpu × SystemAccess
writing cpu (some written) = (written, accepted)
writing cpu none = (cpu, rejected)

module _ (debug_write : Cpu → ℕ → ℕ → ℕ → Cpu × SystemAccess) where
  unfoldable pub system_write : Cpu → ℕ → ℕ → Access → ℕ → Cpu × SystemAccess
  system_write cpu address size access value =
      if outside_space address
      then (cpu, outside)
      else if armv6_m_refuses cpu address size
      then (cpu, rejected)
      else if debug_address address
      then if is_armv6_m cpu.architecture && not (is_debugger access)
        then (cpu, rejected)
        else if not (debug_access_permitted cpu address access)
        then (cpu, rejected)
        else debug_write cpu address size value
      else if not (writable cpu address size access)
      then (cpu, rejected)
      else writing cpu (write_scs cpu address size value)
