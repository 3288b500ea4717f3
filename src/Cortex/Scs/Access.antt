-- ===== src/Cortex/Scs/Access.antt =====
-- system.c: the addresses of the system control space, which accesses it takes, and the parts of a
-- register that an access of one or two bytes reads or writes.
use kinetis_k22_sim.Base.{
  ℕ, ◌+◌, ◌-◌, ◌*◌, ◌^◌, bit_and, bit_or, Bool, true, false, not, ◌&&◌, ◌||◌, ltb, leb, ◌==◌, ◌!=◌,
  if◌then◌else◌, ◌<<◌, ◌>>◌, flag, not32, u16,
}
use kinetis_k22_sim.Cortex.State.{Cpu, Access, regular, debugger, is_armv6_m}
use kinetis_k22_sim.Cortex.Registers.{control_npriv, access_is_unprivileged}

abbrev pub ppb_start : ℕ
ppb_start = 0xe0000000

abbrev pub ppb_end : ℕ
ppb_end = 0xe0100000

-- Addresses that `cortex_m4_system_read` and `cortex_m4_system_write` leave to the device.
abbrev pub outside_space : ℕ → Bool
outside_space address =
    (leb 0xe0080000 address && ltb address 0xe00a0000)
    || ltb address ppb_start
    || leb ppb_end address

-- `address & ~3u`.
abbrev pub aligned : ℕ → ℕ
aligned address = bit_and address (not32 3)

abbrev pub byte_counts : ℕ → Bool
byte_counts size = size == 1 || size == 2 || size == 4

-- An access inside the `count` bytes at `first`.
abbrev pub within : ℕ → ℕ → ℕ → ℕ → Bool
within first count address size = leb first address && leb (address + size) (first + count)

unfoldable pub valid_system_access : ℕ → ℕ → Bool
valid_system_access address size =
    if not (byte_counts size) || bit_and address (size - 1) != 0 || ltb 4 (bit_and address 3 + size)
    then false
    else if size == 4
    then bit_and address 3 == 0
    else within 0xe000ed18 12 address size
      || within 0xe000ed28 4 address size
      || within 0xe000e400 240 address size

unfoldable pub armv6_m_system_register : Cpu → ℕ → ℕ → Bool
armv6_m_system_register cpu address size =
    let word = aligned address in
    if not (is_armv6_m cpu.architecture)
    then true
    else if word == 0xe000e008
        || (leb 0xe000e010 word && leb word 0xe000e01c)
        || word == 0xe000ed00
        || word == 0xe000ed04
        || word == 0xe000ed08
        || word == 0xe000ed0c
        || word == 0xe000ed10
        || word == 0xe000ed14
        || word == 0xe000ed24
        || word == 0xe000ed30
    then true
    else if (word == 0xe000e100 || word == 0xe000e180 || word == 0xe000e200 || word == 0xe000e280)
        && leb size 4
    then true
    else if within 0xe000e400 cpu.external_irq_count address size
    then true
    else leb 0xe000ed1c address && leb (address + size) 0xe000ed24

unfoldable pub is_privileged_access : Cpu → Access → Bool
is_privileged_access cpu debugger = true
is_privileged_access cpu regular =
    bit_and cpu.xpsr 0x1ff != 0 || bit_and cpu.control control_npriv == 0
is_privileged_access cpu _ = false

abbrev pub is_debugger : Access → Bool
is_debugger debugger = true
is_debugger _ = false

pub debug_access_permitted : Cpu → ℕ → Access → Bool
debug_access_permitted cpu address access =
    let port_group = bit_and (address >> 5) 3 in
    if is_privileged_access cpu access
    then true
    else if not (access_is_unprivileged cpu access) || leb 0xe0000080 address
    then false
    else flag cpu.debug.itm_trace_privilege (1 << port_group)

-- debug.c, `cortex_m4_debug_address`: the registers of ITM, DWT, FPB, TPIU and of halting debug.
unfoldable pub debug_address : ℕ → Bool
debug_address address =
    (leb 0xe0000000 address && ltb address 0xe0001000)
    || (leb 0xe0001000 address && ltb address 0xe0002000)
    || (leb 0xe0002000 address && ltb address 0xe0003000)
    || (leb 0xe0040000 address && ltb address 0xe0041000)
    || (leb 0xe000edf0 address && leb address 0xe000edff)

unfoldable pub external_irq_word_mask : Cpu → ℕ → ℕ
external_irq_word_mask cpu word_index =
    let remaining = u16 (cpu.external_irq_count + 2 ^ 16 - word_index * 32) in
    if leb 32 remaining then 2 ^ 32 - 1 else (1 << remaining) - 1

unfoldable pub read_partial : ℕ → ℕ → ℕ → ℕ
read_partial register_value address size =
    let shift = bit_and address 3 * 8 in
    if size == 1
    then bit_and (register_value >> shift) 0xff
    else if size == 2
    then bit_and (register_value >> shift) 0xffff
    else register_value

-- `merge_partial_register_write`.
unfoldable pub merge_partial : ℕ → ℕ → ℕ → ℕ → ℕ
merge_partial previous_value address size write_value =
    let shift = bit_and address 3 * 8 in
    if size == 1
    then bit_or (bit_and previous_value (not32 (0xff << shift))) (bit_and write_value 0xff << shift)
    else if size == 2
    then bit_or (bit_and previous_value (not32 (0xffff << shift)))
        (bit_and write_value 0xffff << shift)
    else write_value

abbrev pub access_value : ℕ → ℕ → ℕ → ℕ
access_value address size write_value = merge_partial 0 address size write_value
