-- ===== src/Cortex/Scs/Read.antt =====
-- system.c: `cortex_m4_system_read`. The reads of the debug unit (debug.c) are a parameter.
use kinetis_k22_sim.Base.{
  ℕ, ◌+◌, ◌-◌, ◌*◌, ◌/◌, bit_and, bit_or, Bool, true, false, not, ◌&&◌, ◌||◌, ltb, leb, ◌==◌, ◌!=◌,
  if◌then◌else◌, ◌<<◌, ◌!◌, flag, not32, for_range, List, [], ◌∷◌, Option, some, none, sub32,
}
use kinetis_k22_sim.Cortex.State.{
  Cpu, Access, is_armv6_m, SystemAccess, outside, accepted, rejected,
}
use kinetis_k22_sim.Cortex.Priority.{exception_can_preempt}
use kinetis_k22_sim.Cortex.Pending.{external_irq_word_count}
use kinetis_k22_sim.Cortex.Selection.{exception_active, pending_vector}
use kinetis_k22_sim.Cortex.Scs.Access.{
  outside_space, aligned, within, valid_system_access, armv6_m_system_register,
  is_privileged_access, is_debugger, debug_access_permitted, debug_address, external_irq_word_mask,
  read_partial,
}

-- One bit of a status register.
abbrev pub when : Bool → ℕ → ℕ
when true mask = mask
when false mask = 0

-- `has_external_pending`.
pub has_external_pending : Cpu → Bool
has_external_pending cpu =
    for_range (external_irq_word_count cpu) 0 (λ word found. found || cpu.irq_pending ! word != 0)
      false

pub shcsr_value : Cpu → ℕ
shcsr_value cpu =
    let v0 = bit_and cpu.shcsr 0x00070000 in
    let v1 = bit_or v0 (when (exception_active cpu 4) (1 << 0)) in
    let v2 = bit_or v1 (when (exception_active cpu 5) (1 << 1)) in
    let v3 = bit_or v2 (when (exception_active cpu 6) (1 << 3)) in
    let v4 = bit_or v3 (when (exception_active cpu 11) (1 << 7)) in
    let v5 = bit_or v4 (when (exception_active cpu 12) (1 << 8)) in
    let v6 = bit_or v5 (when (exception_active cpu 14) (1 << 10)) in
    let v7 = bit_or v6 (when (exception_active cpu 15) (1 << 11)) in
    let v8 = bit_or v7 (when (flag cpu.system_pending (1 << 6)) (1 << 12)) in
    let v9 = bit_or v8 (when (flag cpu.system_pending (1 << 4)) (1 << 13)) in
    let v10 = bit_or v9 (when (flag cpu.system_pending (1 << 5)) (1 << 14)) in
    bit_or v10 (when (flag cpu.system_pending (1 << 11)) (1 << 15))

pub read_priority_bytes : List ℕ → ℕ → ℕ → ℕ
read_priority_bytes priorities byte_offset byte_count =
    for_range byte_count 0 (λ i value. bit_or value (priorities ! (byte_offset + i) << (i * 8))) 0

pub configurable_system_exception : Cpu → ℕ → Bool
configurable_system_exception cpu exception =
    if is_armv6_m cpu.architecture
    then exception == 11 || exception == 14 || exception == 15
    else exception == 4
      || exception == 5
      || exception == 6
      || exception == 11
      || exception == 12
      || exception == 14
      || exception == 15

pub read_system_priority : Cpu → ℕ → ℕ → ℕ
read_system_priority cpu byte_offset byte_count =
    for_range byte_count 0
      (λ i value.
        if configurable_system_exception cpu (byte_offset + i + 4)
        then bit_or value (cpu.system_priority ! (byte_offset + i) << (i * 8))
        else value)
      0

-- `armv6_m_component_id`.
pub component_id : ℕ → List ℕ → List ℕ → Option ℕ
component_id offset peripheral component =
    if offset == 0xfd0
    then some (peripheral ! 4)
    else if leb 0xfd4 offset && leb offset 0xfdc && bit_and offset 3 == 0
    then some 0
    else if leb 0xfe0 offset && leb offset 0xfec && bit_and offset 3 == 0
    then some (peripheral ! ((offset - 0xfe0) / 4))
    else if leb 0xff0 offset && leb offset 0xffc && bit_and offset 3 == 0
    then some (component ! ((offset - 0xff0) / 4))
    else none

-- `armv6_m_discovery_read`.
pub discovery_read : ℕ → Option ℕ
discovery_read address =
    let offset = address - 0xe00ff000 in
    if leb 0xe000efd0 address && ltb address 0xe000f000
    then component_id (address - 0xe000e000) (0x08 ∷ 0xb0 ∷ 0x0b ∷ 0x00 ∷ 0x04 ∷ [])
        (0x0d ∷ 0xe0 ∷ 0x05 ∷ 0xb1 ∷ [])
    else if ltb address 0xe00ff000 || leb 0xe0100000 address
    then none
    else if ltb offset 16
    then some ((0xfff0f003 ∷ 0xfff02003 ∷ 0xfff03003 ∷ 0 ∷ []) ! (offset / 4))
    else if offset == 0xfcc
    then some 1
    else component_id offset (0xc0 ∷ 0xb4 ∷ 0x0b ∷ 0x00 ∷ 0x04 ∷ [])
        (0x0d ∷ 0x10 ∷ 0x05 ∷ 0xb1 ∷ [])

-- The first of several readings.
abbrev pub or_else {ℓ} : {A : Type ℓ} → Option A → Option A → Option A
or_else (some a) other = some a
or_else none other = other

-- A word of the interrupt controller's set and clear registers.
unfoldable pub irq_word : Cpu → ℕ → List ℕ → ℕ → Option ℕ
irq_word cpu first words word =
    let index = (word - first) / 4 in
    if leb first word && ltb word (first + external_irq_word_count cpu * 4)
    then some (bit_and (words ! index) (external_irq_word_mask cpu index))
    else none

-- The registers in the order of the source, from ACTLR to the interrupt priorities.
unfoldable pub systick_value : Cpu → ℕ → Option ℕ
systick_value cpu word =
    if word == 0xe000e008
    then some 0
    else if word == 0xe000e004
    then some (sub32 cpu.external_irq_count 1 / 32)
    else if word == 0xe000e010
    then some cpu.systick_control
    else if word == 0xe000e014
    then some cpu.systick_reload
    else if word == 0xe000e018
    then some cpu.systick_current
    else if word == 0xe000e01c
    then some cpu.systick_calibration
    else none

unfoldable pub nvic_value : Cpu → ℕ → Option ℕ
nvic_value cpu word = or_else (irq_word cpu 0xe000e100 cpu.irq_enabled word) (
    or_else (irq_word cpu 0xe000e180 cpu.irq_enabled word) (
      or_else (irq_word cpu 0xe000e200 cpu.irq_pending word) (
        or_else (irq_word cpu 0xe000e280 cpu.irq_pending word)
          (irq_word cpu 0xe000e300 cpu.irq_active word))))

pub icsr_value : Cpu → ℕ
icsr_value cpu =
    let pending = pending_vector cpu in
    let v0 = bit_or (bit_and cpu.xpsr 0x1ff) (pending << 12) in
    let v1 =
      bit_or v0 (when (not (is_armv6_m cpu.architecture) && leb cpu.exception_depth 1) (1 << 11)) in
    let v2 = bit_or v1 (when (has_external_pending cpu) (1 << 22)) in
    let v3 = bit_or v2 (
      when
        (cpu.debug.halted
          && pending != 0
          && exception_can_preempt cpu pending (bit_and cpu.xpsr 0x1ff))
        (1 << 23)) in
    let v4 = bit_or v3 (when (flag cpu.system_pending (1 << 2)) (1 << 31)) in
    let v5 = bit_or v4 (when (flag cpu.system_pending (1 << 14)) (1 << 28)) in
    bit_or v5 (when (flag cpu.system_pending (1 << 15)) (1 << 26))

pub control_value : Cpu → ℕ → Option ℕ
control_value cpu word =
    if word == 0xe000ed00
    then some cpu.cpuid
    else if word == 0xe000ed04
    then some (icsr_value cpu)
    else if word == 0xe000ed08
    then some cpu.vtor
    else if word == 0xe000ed0c
    then some (
        bit_or 0xfa050000 (if is_armv6_m cpu.architecture then 0 else bit_and cpu.aircr 0x00008700))
    else if word == 0xe000ed10
    then some cpu.scr
    else if word == 0xe000ed14
    then some (if is_armv6_m cpu.architecture then 0x208 else cpu.ccr)
    else none

abbrev pub identification : List ℕ
identification =
    0x00000030 ∷ 0x00000200 ∷ 0x00100000 ∷ 0x00000000 ∷ 0x00000030 ∷ 0x00000000 ∷ 0x01000000
    ∷ 0x00000000 ∷ 0x01141110 ∷ 0x02111000 ∷ 0x21112231 ∷ 0x01111110 ∷ 0x01310102 ∷ 0x00000000 ∷ []

pub fault_value : Cpu → ℕ → Option ℕ
fault_value cpu word =
    if word == 0xe000ed24
    then some (
        if is_armv6_m cpu.architecture
        then (if flag cpu.system_pending (1 << 11) then 1 << 15 else 0)
        else shcsr_value cpu)
    else if word == 0xe000ed28
    then some cpu.cfsr
    else if word == 0xe000ed2c
    then some cpu.hfsr
    else if word == 0xe000ed30
    then some cpu.dfsr
    else if word == 0xe000ed34
    then some cpu.mmfar
    else if word == 0xe000ed38
    then some cpu.bfar
    else if word == 0xe000ed3c
    then some cpu.afsr
    else if leb 0xe000ed40 word && leb word 0xe000ed74
    then some (identification ! ((word - 0xe000ed40) / 4))
    else none

pub fpu_value : Cpu → ℕ → Option ℕ
fpu_value cpu word =
    if word == 0xe000ed88
    then some cpu.cpacr
    else if word == 0xe000ef34
    then some cpu.fpccr
    else if word == 0xe000ef38
    then some cpu.fpcar
    else if word == 0xe000ef3c
    then some cpu.fpdscr
    else if word == 0xe000ef40
    then some 0x10110021
    else if word == 0xe000ef44
    then some 0x11000011
    else if word == 0xe000ef48
    then some 0
    else none

-- `accepted_read`: the part of the register that the access reads.
abbrev pub part : ℕ → ℕ → Option ℕ → Option ℕ
part address size none = none
part address size (some value) = some (read_partial value address size)

abbrev pub priority_part : Bool → ℕ → Option ℕ
priority_part true value = some value
priority_part false value = none

-- Past the guards: the value, or `none` where no register is.
unfoldable pub scs_value : Cpu → ℕ → ℕ → Option ℕ
scs_value cpu address size =
    let word = aligned address in
    or_else (part address size (systick_value cpu word)) (
      or_else (part address size (nvic_value cpu word)) (
        or_else
          (priority_part (within 0xe000e400 cpu.external_irq_count address size)
            (read_priority_bytes cpu.irq_priority (address - 0xe000e400) size))
          (or_else (part address size (control_value cpu word)) (
            or_else
              (priority_part (within 0xe000ed18 12 address size)
                (read_system_priority cpu (address - 0xe000ed18) size))
              (or_else (part address size (fault_value cpu word))
                (part address size (fpu_value cpu word)))))))

-- A read of SYST_CSR clears COUNTFLAG.
unfoldable pub after_read : Cpu → ℕ → Cpu
after_read cpu address =
    if aligned address == 0xe000e010
    then record cpu { systick_control = bit_and cpu.systick_control (not32 (1 << 16)) }
    else cpu

-- What a read leaves: the core, whether it is accepted, and the value if so.
abbrev pub reading : Cpu → Option ℕ → Cpu × SystemAccess × ℕ
reading cpu (some value) = (cpu, accepted, value)
reading cpu none = (cpu, rejected, 0)

abbrev pub is_some : Option ℕ → Bool
is_some (some value) = true
is_some none = false

-- The guards of the registers themselves.
unfoldable pub readable : Cpu → ℕ → ℕ → Access → Bool
readable cpu address size access =
    let word = aligned address in
    if not (valid_system_access address size) || not (is_privileged_access cpu access)
    then false
    else if is_armv6_m cpu.architecture
        && (word == 0xe000ed24 || word == 0xe000ed30)
        && not (is_debugger access)
    then false
    else armv6_m_system_register cpu address size

-- Armv6-M takes aligned words only.
abbrev pub armv6_m_refuses : Cpu → ℕ → ℕ → Bool
armv6_m_refuses cpu address size =
    is_armv6_m cpu.architecture && (size != 4 || bit_and address 3 != 0)

module _ (debug_read : Cpu → ℕ → ℕ → Cpu × SystemAccess × ℕ) where
  unfoldable pub system_read : Cpu → ℕ → ℕ → Access → Cpu × SystemAccess × ℕ
  system_read cpu address size access =
      if outside_space address
      then (cpu, outside, 0)
      else if armv6_m_refuses cpu address size
      then (cpu, rejected, 0)
      else if is_armv6_m cpu.architecture && is_debugger access && is_some (discovery_read address)
      then reading cpu (part address size (discovery_read address))
      else if debug_address address
      then if is_armv6_m cpu.architecture && not (is_debugger access)
        then (cpu, rejected, 0)
        else if not (debug_access_permitted cpu address access)
        then (cpu, rejected, 0)
        else debug_read cpu address size
      else if not (readable cpu address size access)
      then (cpu, rejected, 0)
      else reading (after_read cpu address) (scs_value cpu address size)
