-- ===== src/Cortex/Mpu.antt =====
-- src/architecture/cortex_m4/mpu.c: the memory protection unit. The functions are stated for a core
-- that exists.
pub mod Regions
pub mod Blocks
pub mod Permission
pub mod Registers
pub mod Examples
use kinetis_k22_sim.Base.{
  ℕ, ◌+◌, ◌-◌, ◌*◌, ◌/◌, ◌%◌, ◌^◌, bit_and, bit_or, Bool, true, false, not, ◌&&◌, ◌||◌, ltb, leb,
  ◌==◌, ◌!=◌, if◌then◌else◌, ◌!◌, ◌<<◌, ◌>>◌, flag, u8, set, replicate, zero, suc, not32, Option,
  some, none,
}
use kinetis_k22_sim.Cortex.State.{
  Cpu, Access, instruction, regular, unprivileged, debugger, SystemAccess, outside, accepted,
  rejected,
}
use kinetis_k22_sim.Cortex.Registers.{control_npriv}
use kinetis_k22_sim.Cortex.Faults.{raise_fault}

abbrev pub is_instruction : Access → Bool
is_instruction instruction = true
is_instruction _ = false

abbrev pub is_debug : Access → Bool
is_debug debugger = true
is_debug _ = false

pub privileged_access : Cpu → Access → Bool
privileged_access cpu debugger = true
privileged_access cpu unprivileged = false
privileged_access cpu _ = bit_and cpu.xpsr 0x1ff != 0 || not (flag cpu.control control_npriv)

-- `cortex_m4_mpu_reset`; there are 8 regions.
unfoldable pub mpu_reset : Cpu → Cpu
mpu_reset cpu = record cpu {
  mpu_control = 0;
  mpu_region_number = 0;
  mpu_region_base = replicate 8 0;
  mpu_region_attributes = replicate 8 0;
}

unfoldable pub mpu_active : Cpu → Bool
mpu_active cpu =
    let exception = bit_and cpu.xpsr 0x1ff in
    if cpu.mpu_region_count == 0 || not (flag cpu.mpu_control 1)
    then false
    else (exception != 2 && exception != 3) || flag cpu.mpu_control 2

-- `~region_mask` of a `uint64_t`.
abbrev pub not64 : ℕ → ℕ
not64 x = 2 ^ 64 - 1 - x

pub region_contains : Cpu → ℕ → ℕ → Bool
region_contains cpu region address =
    let attributes = cpu.mpu_region_attributes ! region in
    let size_encoding = bit_and attributes 0x3e >> 1 in
    let region_size = 1 << (size_encoding + 1) in
    let region_base = bit_and (cpu.mpu_region_base ! region) (not64 (region_size - 1)) in
    let subregion_index = u8 ((address - region_base) * 8 / region_size) in
    if not (flag attributes 1)
    then false
    else if ltb size_encoding 4
    then false
    else if ltb address region_base || leb (region_base + region_size) address
    then false
    else if ltb size_encoding 7
    then true
    else bit_and attributes (1 << (subregion_index + 8)) == 0

-- The loop of `matching_region`, from region `count - 1` down; `none` stands for -1.
pub matching_below : Cpu → ℕ → ℕ → Option ℕ
matching_below cpu zero address = none
matching_below cpu (suc region) address =
    if region_contains cpu region address then some region else matching_below cpu region address

pub matching_region : Cpu → ℕ → Option ℕ
matching_region cpu address = matching_below cpu cpu.mpu_region_count address

-- The switch of `region_permission`.
abbrev pub permission_holds : ℕ → Bool → Bool → Bool
permission_holds permission privileged is_write_access =
    if permission == 1
    then privileged
    else if permission == 2
    then privileged || not is_write_access
    else if permission == 3
    then true
    else if permission == 5
    then privileged && not is_write_access
    else if permission == 6 || permission == 7
    then not is_write_access
    else false

pub region_permission : ℕ → Bool → Bool → Bool → Bool
region_permission attributes privileged is_write_access instruction_access =
    if instruction_access && flag attributes 0x10000000
    then false
    else permission_holds (bit_and attributes 0x07000000 >> 24) privileged is_write_access

pub background_permission : ℕ → Bool → Bool
background_permission address instruction_access =
    if not instruction_access
    then true
    else ltb address 0x40000000 || (leb 0x60000000 address && ltb address 0xa0000000)

-- `byte_access_permitted`, once the region is known.
abbrev pub permitted_in : Cpu → ℕ → Access → Bool → Option ℕ → Bool
permitted_in cpu address access is_write_access (some region) =
    region_permission (cpu.mpu_region_attributes ! region) (privileged_access cpu access)
      is_write_access (is_instruction access)
permitted_in cpu address access is_write_access none =
    privileged_access cpu access
    && flag cpu.mpu_control 4
    && background_permission address (is_instruction access)

pub byte_access_permitted : Cpu → ℕ → Access → Bool → Bool
byte_access_permitted cpu address access is_write_access =
    permitted_in cpu address access is_write_access (matching_region cpu address)

-- The loop over the bytes of `cortex_m4_mpu_access_permitted`.
pub bytes_permitted : Cpu → ℕ → ℕ → Access → Bool → Bool
bytes_permitted cpu zero address access is_write_access = true
bytes_permitted cpu (suc bytes) address access is_write_access =
    byte_access_permitted cpu address access is_write_access
    && bytes_permitted cpu bytes (address + 1) access is_write_access

-- `cortex_m4_mpu_access_permitted`.
unfoldable pub mpu_access_permitted : Cpu → ℕ → ℕ → Access → Bool → Bool
mpu_access_permitted cpu address byte_count access is_write_access =
    if (byte_count != 1 && byte_count != 2 && byte_count != 4)
      || ltb (2 ^ 32 - 1 - (byte_count - 1)) address
    then false
    else if is_debug access || not (mpu_active cpu)
    then true
    else bytes_permitted cpu byte_count address access is_write_access

-- The fault of `cortex_m4_mpu_check`.
pub mpu_fault : Cpu → ℕ → Access → Cpu
mpu_fault cpu address access =
    let recorded =
      if is_instruction access
      then record cpu { cfsr = bit_or cpu.cfsr 1 }
      else record cpu { mmfar = address; cfsr = bit_or cpu.cfsr (bit_or 0x80 2) } in
    raise_fault recorded 4

-- `cortex_m4_mpu_check`.
unfoldable pub mpu_check : Cpu → ℕ → ℕ → Access → Bool → Cpu × Bool
mpu_check cpu address byte_count access is_write_access =
    if mpu_access_permitted cpu address byte_count access is_write_access
    then (cpu, true)
    else (mpu_fault cpu address access, false)

-- The registers, from MPU_TYPE to MPU_RASR_A3.
abbrev pub mpu_type : ℕ
mpu_type = 0xe000ed90

pub alias_index : ℕ → ℕ
alias_index address =
    if address == 0xe000eda4 || address == 0xe000eda8
    then 1
    else if address == 0xe000edac || address == 0xe000edb0
    then 2
    else if address == 0xe000edb4 || address == 0xe000edb8
    then 3
    else 0

pub selected_region : Cpu → ℕ → ℕ
selected_region cpu address =
    let alias = alias_index address in
    if alias == 0
    then bit_and cpu.mpu_region_number 7
    else bit_and (bit_or (bit_and cpu.mpu_region_number (not32 3)) alias) 7

pub is_rbar : ℕ → Bool
is_rbar address =
    address == 0xe000ed9c || address == 0xe000eda4 || address == 0xe000edac || address == 0xe000edb4

abbrev pub valid_register_access : ℕ → ℕ → Bool
valid_register_access address byte_count = byte_count == 4 && bit_and address 3 == 0

-- The value of a register in `cortex_m4_mpu_read`, past its guards.
pub register_value : Cpu → ℕ → ℕ
register_value cpu address =
    let region = selected_region cpu address in
    if address == 0xe000ed94
    then cpu.mpu_control
    else if address == 0xe000ed98
    then cpu.mpu_region_number
    else if is_rbar address
    then bit_or (cpu.mpu_region_base ! region) region
    else cpu.mpu_region_attributes ! region

-- `cortex_m4_mpu_read`: the value counts only with `accepted`.
unfoldable pub mpu_read : Cpu → ℕ → ℕ → Access → SystemAccess × ℕ
mpu_read cpu address byte_count access =
    if ltb address mpu_type || ltb 0xe000edb8 address
    then (outside, 0)
    else if not (valid_register_access address byte_count) || not (privileged_access cpu access)
    then (rejected, 0)
    else if address == mpu_type
    then (accepted, cpu.mpu_region_count << 8)
    else if cpu.mpu_region_count == 0
    then (rejected, 0)
    else (accepted, register_value cpu address)

-- RBAR: VALID takes the region from the value.
pub write_base : Cpu → ℕ → ℕ → Cpu
write_base cpu address write_value =
    let named = bit_and write_value 7 in
    let base = bit_and write_value 0xffffffe0 in
    if flag write_value 0x10
    then record cpu {
      mpu_region_number = named;
      mpu_region_base = set cpu.mpu_region_base named base;
    }
    else record cpu { mpu_region_base = set cpu.mpu_region_base (selected_region cpu address) base }

-- The write of a register in `cortex_m4_mpu_write`, past its guards.
pub write_mpu_register : Cpu → ℕ → ℕ → Cpu
write_mpu_register cpu address write_value =
    if address == 0xe000ed94
    then record cpu { mpu_control = bit_and write_value 7 }
    else if address == 0xe000ed98
    then record cpu { mpu_region_number = bit_and write_value 7 }
    else if is_rbar address
    then write_base cpu address write_value
    else record cpu {
      mpu_region_attributes =
          set cpu.mpu_region_attributes (selected_region cpu address)
            (bit_and write_value 0x173fff3f);
    }

-- `cortex_m4_mpu_write`.
unfoldable pub mpu_write : Cpu → ℕ → ℕ → Access → ℕ → SystemAccess × Cpu
mpu_write cpu address byte_count access write_value =
    if ltb address mpu_type || ltb 0xe000edb8 address
    then (outside, cpu)
    else if not (valid_register_access address byte_count) || not (privileged_access cpu access)
    then (rejected, cpu)
    else if address == mpu_type
    then (accepted, cpu)
    else if cpu.mpu_region_count == 0
    then (rejected, cpu)
    else (accepted, write_mpu_register cpu address write_value)
