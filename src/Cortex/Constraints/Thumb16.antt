-- ===== src/Cortex/Constraints/Thumb16.antt =====
-- constraints.c: the constraints on 16-bit instructions.
use kinetis_k22_sim.Base.{
  ℕ, Bool, true, not, ◌&&◌, ◌||◌, leb, ◌==◌, ◌!=◌, if◌then◌else◌, bit_and, bit_or, flag, u8, ◌<<◌,
  ◌>>◌,
}
use kinetis_k22_sim.Cortex.State.{Cpu}
use kinetis_k22_sim.Cortex.Constraints.Selected.{
  register_field, is_nonfinal_it_instruction, has_lower_selected_register,
}

-- `CortexM4InstructionDisposition`.
pub data Disposition : Type 0 where
  execute : Disposition
  undefined : Disposition
  breakpoint : Disposition

abbrev pub has_invalid_it_encoding : ℕ → Cpu → Bool
has_invalid_it_encoding opcode cpu =
    flag opcode 15 && (leb 14 (register_field opcode 4) || cpu.it_state != 0)

abbrev pub has_invalid_cps_encoding : ℕ → Bool
has_invalid_cps_encoding opcode = flag opcode 8 || bit_and opcode 7 == 0 || flag opcode 4

pub writes_pc_in_thumb16 : ℕ → Bool
writes_pc_in_thumb16 opcode =
    let operation = bit_and (opcode >> 8) 3 in
    let destination = bit_or (bit_and opcode 7) (bit_and (opcode >> 4) 8) in
    if bit_and opcode 0xfc00 == 0x4400
    then operation == 3 || ((operation == 0 || operation == 2) && destination == 15)
    else if bit_and opcode 0xfe00 == 0xbc00 && flag opcode 0x0100
    then true
    else bit_and opcode 0xf000 == 0xd000 || bit_and opcode 0xf800 == 0xe000

-- A store multiple whose base is in the list, and is not the first of the list.
abbrev pub has_invalid_store_base : ℕ → Bool
has_invalid_store_base opcode =
    let base = bit_and (opcode >> 8) 7 in
    let registers = u8 opcode in
    not (flag opcode 0x0800)
    && flag registers (1 << base)
    && has_lower_selected_register registers base

unfoldable pub has_invalid_thumb16_registers : ℕ → Bool
has_invalid_thumb16_registers opcode =
    if (bit_and opcode 0xfe00 == 0xb400 || bit_and opcode 0xfe00 == 0xbc00)
      && bit_and opcode 0x01ff == 0
    then true
    else if bit_and opcode 0xf000 == 0xc000 && (u8 opcode == 0 || has_invalid_store_base opcode)
    then true
    else bit_and opcode 0xff00 == 0x4700 && register_field opcode 3 == 15

-- Instructions that no IT block may hold.
abbrev pub is_outside_it : ℕ → Bool
is_outside_it opcode =
    (bit_and opcode 0xff00 == 0xbf00 && flag opcode 15)
    || bit_and opcode 0xf500 == 0xb100
    || bit_and opcode 0xffe0 == 0xb660
    || bit_and opcode 0xff00 == 0xdf00

unfoldable pub check_thumb16 : Cpu → ℕ → Disposition
check_thumb16 cpu opcode =
    if bit_and opcode 0xff00 == 0xbe00
    then breakpoint
    else if bit_and opcode 0xff00 == 0xbf00 && has_invalid_it_encoding opcode cpu
    then undefined
    else if bit_and opcode 0xffe0 == 0xb660 && has_invalid_cps_encoding opcode
    then undefined
    else if has_invalid_thumb16_registers opcode
    then undefined
    else if cpu.it_state == 0
    then execute
    else if is_outside_it opcode
    then undefined
    else if is_nonfinal_it_instruction cpu && writes_pc_in_thumb16 opcode
    then undefined
    else execute
