-- ===== src/Cortex/Entry/Vector.antt =====
-- exceptions/base.c and advanced.c: what surrounds a transition, and the fetch of its vector.
use kinetis_k22_sim.Base.{
  ℕ, ◌+◌, ◌*◌, bit_and, Bool, true, false, ◌==◌, if◌then◌else◌, u32, Option, some, none,
}
use kinetis_k22_sim.Cortex.State.{Cpu, regular, lockup, Stop}
use kinetis_k22_sim.Cortex.Faults.{vector_fault}
use kinetis_k22_sim.Cortex.Bus.{DeviceBus, DebugUnit, Machine, with_cpu, bus_read}

-- `CortexM4ExceptionTiming`.
pub data Transition : Type 0 where
  entry late_arriving fp_entry return fp_return tail_chained : Transition

-- `CortexM4ExceptionChain`.
pub data Chain : Type 0 where
  no_chain chain_taken chain_fault : Chain

-- What happens around a transition: the caller's callback for a vector fetch, the vector catch of
-- the debug unit, and the time that the transition takes (`cortex_m4_timing_exception`).
pub record Surroundings (Device : Type 0) : Type 0 where
  pub vector_fetch : Device → Device
  pub debug_exception : Cpu → ℕ → Cpu
  pub elapse : Machine Device → Transition → Machine Device

abbrev pub is_locked : Stop → Bool
is_locked lockup = true
is_locked _ = false

module _ {Device : Type 0} (bus : DeviceBus Device) (debug : DebugUnit)
    (around : Surroundings Device) where
  abbrev pub fetch_vector : Machine Device → Machine Device
  fetch_vector machine = record machine { device = around.vector_fetch machine.device }

  -- A vector must have its lowest bit set.
  abbrev pub valid_vector : Machine Device × Option ℕ → Machine Device × Option ℕ
  valid_vector (machine, some vector) =
      if bit_and vector 1 == 0 then (machine, none) else (machine, some vector)
  valid_vector (machine, none) = (machine, none)

  pub read_vector : Machine Device → ℕ → Machine Device × Option ℕ
  read_vector machine exception =
      let fetched = fetch_vector machine in
      valid_vector (bus_read bus debug fetched (u32 (machine.cpu.vtor + exception * 4)) 4 regular)

  -- `cortex_m4_exception_advanced_hardfault_vector`.
  abbrev pub lock_without_vector : Machine Device × Option ℕ → Machine Device × Option ℕ
  lock_without_vector (machine, some vector) = (machine, some vector)
  lock_without_vector (machine, none) =
      let cpu = machine.cpu in (with_cpu bus debug machine (record cpu { stop = lockup }), none)

  pub hardfault_vector : Machine Device → Machine Device × Option ℕ
  hardfault_vector machine =
      if is_locked machine.cpu.stop
      then (machine, none)
      else lock_without_vector (read_vector machine 3)

  -- The vector of an exception, or the one of HardFault after a vector fault: the machine, and the
  -- exception with its vector.
  abbrev pub as_hardfault : Machine Device × Option ℕ → Machine Device × Option (ℕ × ℕ)
  as_hardfault (machine, some vector) = (machine, some (3, vector))
  as_hardfault (machine, none) = (machine, none)

  abbrev pub or_hardfault : ℕ → Machine Device × Option ℕ → Machine Device × Option (ℕ × ℕ)
  or_hardfault exception (machine, some vector) = (machine, some (exception, vector))
  or_hardfault exception (machine, none) =
      as_hardfault (hardfault_vector (with_cpu bus debug machine (vector_fault machine.cpu)))

  pub find_vector : Machine Device → ℕ → Machine Device × Option (ℕ × ℕ)
  find_vector machine exception = or_hardfault exception (read_vector machine exception)

  -- `cortex_m4_timing_exception`, which also drops the reservation.
  abbrev pub complete : Machine Device → Transition → Machine Device
  complete machine transition =
      let cpu = machine.cpu in
      around.elapse (with_cpu bus debug machine (record cpu { exclusive_valid = false })) transition
