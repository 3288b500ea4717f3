-- ===== src/Cortex/Bus.antt =====
-- src/architecture/cortex_m4/bus.c: reads and writes of the core, and its data accesses. The device
-- behind the core is the pair of callbacks that the caller gives, and the debug unit (debug.c) is an
-- interface. The calls of cortex_m4_timing_access change no field of the model.
use kinetis_k22_sim.Base.{
  ℕ, ◌-◌, bit_and, bit_or, Bool, true, false, not, ◌&&◌, ◌||◌, ltb, leb, ◌==◌, ◌!=◌, if◌then◌else◌,
  Option, some, none, ◌<<◌, flag,
}
use kinetis_k22_sim.Cortex.State.{
  Cpu, Access, SystemAccess, outside, accepted, rejected, is_armv6_m,
}
use kinetis_k22_sim.Cortex.Faults.{raise_fault}
use kinetis_k22_sim.Cortex.Mpu.{is_instruction, mpu_read, mpu_write, mpu_check}
use kinetis_k22_sim.Cortex.Scs.Access.{byte_counts}
use kinetis_k22_sim.Cortex.Scs.Read.{system_read}
use kinetis_k22_sim.Cortex.Scs.Write.{system_write}
use kinetis_k22_sim.Cortex.Exclusive.{observe_write}

-- `CortexM4Bus`: the callbacks of the device, which keep their own state.
pub record DeviceBus {ℓ} (Device : Type ℓ) : Type ℓ where
  pub read : Device → ℕ → ℕ → Access → Device × Option ℕ
  pub write : Device → ℕ → ℕ → Access → ℕ → Device × Bool

-- The operations of the debug unit that the bus uses: its registers and its watchpoints.
pub record DebugUnit : Type 0 where
  pub read_register : Cpu → ℕ → ℕ → Cpu × SystemAccess × ℕ
  pub write_register : Cpu → ℕ → ℕ → ℕ → Cpu × SystemAccess
  pub memory_access : Cpu → ℕ → ℕ → Bool → ℕ → Cpu

-- The core and the device behind it.
pub record Machine {ℓ} (Device : Type ℓ) : Type ℓ where
  pub cpu : Cpu
  pub device : Device

module _ {Device : Type 0} (bus : DeviceBus Device) (debug : DebugUnit) where
  abbrev pub with_cpu : Machine Device → Cpu → Machine Device
  with_cpu machine cpu = record machine { cpu = cpu }

  -- Armv6-M fetches no instruction from the peripherals and the system regions.
  abbrev pub never_executes : Cpu → ℕ → Access → Bool
  never_executes cpu address access =
      is_armv6_m cpu.architecture
      && is_instruction access
      && ((leb 0x40000000 address && ltb address 0x60000000) || leb 0xa0000000 address)

  unfoldable pub device_read : Machine Device → ℕ → ℕ → Access → Machine Device × Option ℕ
  device_read machine address byte_count access =
      let answer = bus.read machine.device address byte_count access in
      (record machine { device = answer.0 }, answer.1)

  -- The part of `cortex_m4_bus_read` after the answer of the system control space.
  abbrev pub after_system_read :
      Machine Device → ℕ → ℕ → Access → SystemAccess → ℕ → Machine Device × Option ℕ
  after_system_read machine address byte_count access accepted value = (machine, some value)
  after_system_read machine address byte_count access rejected value = (machine, none)
  after_system_read machine address byte_count access outside value =
      device_read machine address byte_count access

  unfoldable pub checked_read : Machine Device → ℕ → ℕ → Access → Machine Device × Option ℕ
  checked_read machine address byte_count access =
      let checked = mpu_check machine.cpu address byte_count access false in
      let answer = system_read debug.read_register checked.0 address byte_count access in
      if not checked.1
      then (with_cpu machine checked.0, none)
      else after_system_read (with_cpu machine answer.0) address byte_count access answer.1 answer.2

  abbrev pub after_mpu_read :
      Machine Device → ℕ → ℕ → Access → SystemAccess → ℕ → Machine Device × Option ℕ
  after_mpu_read machine address byte_count access accepted value = (machine, some value)
  after_mpu_read machine address byte_count access rejected value = (machine, none)
  after_mpu_read machine address byte_count access outside value =
      checked_read machine address byte_count access

  unfoldable pub bus_read : Machine Device → ℕ → ℕ → Access → Machine Device × Option ℕ
  bus_read machine address byte_count access =
      let answer = mpu_read machine.cpu address byte_count access in
      if not (byte_counts byte_count) || never_executes machine.cpu address access
      then (machine, none)
      else after_mpu_read machine address byte_count access answer.0 answer.1

  -- `cortex_m4_timing_observe_write` after a write that was made.
  abbrev pub observed : Machine Device → ℕ → ℕ → Machine Device
  observed machine address byte_count =
      with_cpu machine (observe_write machine.cpu address byte_count)

  unfoldable pub device_write : Machine Device → ℕ → ℕ → Access → ℕ → Machine Device × Bool
  device_write machine address byte_count access value =
      let answer = bus.write machine.device address byte_count access value in
      let written = record machine { device = answer.0 } in
      if answer.1 then (observed written address byte_count, true) else (written, false)

  abbrev pub after_system_write :
      Machine Device → ℕ → ℕ → Access → ℕ → SystemAccess → Machine Device × Bool
  after_system_write machine address byte_count access value accepted =
      (observed machine address byte_count, true)
  after_system_write machine address byte_count access value rejected = (machine, false)
  after_system_write machine address byte_count access value outside =
      device_write machine address byte_count access value

  unfoldable pub checked_write : Machine Device → ℕ → ℕ → Access → ℕ → Machine Device × Bool
  checked_write machine address byte_count access value =
      let checked = mpu_check machine.cpu address byte_count access true in
      let answer = system_write debug.write_register checked.0 address byte_count access value in
      if not checked.1
      then (with_cpu machine checked.0, false)
      else after_system_write (with_cpu machine answer.0) address byte_count access value answer.1

  abbrev pub after_mpu_write :
      Machine Device → ℕ → ℕ → Access → ℕ → SystemAccess → Cpu → Machine Device × Bool
  after_mpu_write machine address byte_count access value accepted cpu = (
    observed (with_cpu machine (record cpu { exclusive_valid = false })) address byte_count,
    true,
  )
  after_mpu_write machine address byte_count access value rejected cpu = (machine, false)
  after_mpu_write machine address byte_count access value outside cpu =
      checked_write machine address byte_count access value

  unfoldable pub bus_write : Machine Device → ℕ → ℕ → Access → ℕ → Machine Device × Bool
  bus_write machine address byte_count access value =
      let answer = mpu_write machine.cpu address byte_count access value in
      if not (byte_counts byte_count)
      then (machine, false)
      else after_mpu_write machine address byte_count access value answer.0 answer.1

  -- An access of more than one byte that must be aligned and is not.
  abbrev pub misaligned : Cpu → ℕ → ℕ → Bool
  misaligned cpu address byte_count =
      ltb 1 byte_count
      && bit_and address (byte_count - 1) != 0
      && (is_armv6_m cpu.architecture || flag cpu.ccr (1 << 3))

  -- UNALIGNED, and the bus fault with its address.
  pub alignment_fault : Cpu → Cpu
  alignment_fault cpu = raise_fault (record cpu { cfsr = bit_or cpu.cfsr (1 << 24) }) 6

  pub data_bus_fault : Cpu → ℕ → Cpu
  data_bus_fault cpu address =
      raise_fault
        (record cpu { bfar = address; cfsr = bit_or cpu.cfsr (bit_or (1 << 15) (1 << 9)) }) 5

  abbrev pub read_outcome : ℕ → ℕ → Machine Device × Option ℕ → Machine Device × Option ℕ
  read_outcome address byte_count (machine, some value) = (
    with_cpu machine (debug.memory_access machine.cpu address byte_count false value),
    some value,
  )
  read_outcome address byte_count (machine, none) =
      (with_cpu machine (data_bus_fault machine.cpu address), none)

  -- `cortex_m4_data_read`.
  pub data_read : Machine Device → ℕ → ℕ → Access → Machine Device × Option ℕ
  data_read machine address byte_count access =
      let checked = mpu_check machine.cpu address byte_count access false in
      if misaligned machine.cpu address byte_count
      then (with_cpu machine (alignment_fault machine.cpu), none)
      else if not checked.1
      then (with_cpu machine checked.0, none)
      else read_outcome address byte_count
          (bus_read (with_cpu machine checked.0) address byte_count access)

  abbrev pub write_outcome : ℕ → ℕ → ℕ → Machine Device × Bool → Machine Device × Bool
  write_outcome address byte_count value (machine, true) =
      (with_cpu machine (debug.memory_access machine.cpu address byte_count true value), true)
  write_outcome address byte_count value (machine, false) =
      (with_cpu machine (data_bus_fault machine.cpu address), false)

  -- `cortex_m4_data_write`.
  pub data_write : Machine Device → ℕ → ℕ → Access → ℕ → Machine Device × Bool
  data_write machine address byte_count access value =
      let checked = mpu_check machine.cpu address byte_count access true in
      if misaligned machine.cpu address byte_count
      then (with_cpu machine (alignment_fault machine.cpu), false)
      else if not checked.1
      then (with_cpu machine checked.0, false)
      else write_outcome address byte_count value
          (bus_write (with_cpu machine checked.0) address byte_count access value)

  -- `cortex_m4_require_alignment`.
  pub require_alignment : Machine Device → ℕ → ℕ → Machine Device × Bool
  require_alignment machine address alignment =
      if bit_and address (alignment - 1) == 0
      then (machine, true)
      else (with_cpu machine (alignment_fault machine.cpu), false)
