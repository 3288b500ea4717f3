-- ===== src/Cortex/Faults.antt =====
-- src/architecture/cortex_m4/exceptions/base.c and advanced.c: raising a fault, and its escalation
-- to HardFault or lockup.
pub mod Escalation
pub mod Status
pub mod Examples
use kinetis_k22_sim.Base.{
  ℕ, ◌+◌, ◌*◌, ◌^◌, bit_and, bit_or, Bool, true, false, ◌&&◌, ◌||◌, ltb, ◌==◌, if◌then◌else◌, ◌<<◌,
  flag,
}
use kinetis_k22_sim.Cortex.State.{
  Cpu, FaultStage, stacking, unstacking, lazy_fp, lockup, is_armv6_m,
}
use kinetis_k22_sim.Cortex.Priority.{exception_can_preempt}
use kinetis_k22_sim.Cortex.Pending.{set_pending}
use kinetis_k22_sim.Cortex.Exceptions.{current_exception}

-- The end of `cortex_m4_raise_fault` that both architectures share.
pub notice_fault : Cpu → Cpu
notice_fault cpu = record cpu { event_register = true; sleeping = false }

-- The Armv7-M part: the fault itself, if it is enabled and can preempt, else a forced HardFault.
pub pend_fault : Cpu → ℕ → Cpu
pend_fault cpu exception =
    let fault_enable_mask = 1 << (exception + 12) in
    if flag cpu.shcsr fault_enable_mask
      && exception_can_preempt cpu exception (current_exception cpu)
    then set_pending cpu exception true
    else set_pending (record cpu { hfsr = bit_or cpu.hfsr (1 << 30) }) 3 true

-- `cortex_m4_raise_fault`.
pub raise_fault : Cpu → ℕ → Cpu
raise_fault cpu exception =
    let faulted = record cpu { instruction_faulted = true } in
    let current = current_exception cpu in
    if ltb exception 4 || ltb 6 exception
    then cpu
    else if current == 2 || current == 3
    then record faulted { stop = lockup }
    else if is_armv6_m cpu.architecture
    then notice_fault (set_pending faulted 3 true)
    else notice_fault (pend_fault faulted exception)

pub memory_bits : FaultStage → ℕ
memory_bits stacking = 1 << 4
memory_bits unstacking = 1 << 3
memory_bits lazy_fp = 1 << 5

pub bus_bits : FaultStage → ℕ
bus_bits stacking = 1 << 12
bus_bits unstacking = 1 << 11
bus_bits lazy_fp = 1 << 13

pub record_fault_status : Cpu → FaultStage → Bool → Cpu
record_fault_status cpu stage memory_management_fault = record cpu {
  cfsr = bit_or cpu.cfsr (if memory_management_fault then memory_bits stage else bus_bits stage);
}

-- `cortex_m4_exception_advanced_fault`.
pub exception_fault : Cpu → FaultStage → Bool → Cpu
exception_fault cpu stage memory_management_fault =
    raise_fault (record_fault_status cpu stage memory_management_fault)
      (if memory_management_fault then 4 else 5)

-- `cortex_m4_exception_advanced_entry_fault`.
pub entry_fault : Cpu → ℕ → FaultStage → Bool → Cpu
entry_fault cpu entering_exception stage memory_management_fault =
    let recorded = record_fault_status cpu stage memory_management_fault in
    let fault_exception = if memory_management_fault then 4 else 5 in
    if entering_exception == 2 || entering_exception == 3
    then record recorded { stop = lockup }
    else if entering_exception == fault_exception
    then set_pending (record recorded { hfsr = bit_or recorded.hfsr (1 << 30) }) 3 true
    else raise_fault recorded fault_exception

-- `cortex_m4_exception_advanced_vector_fault`.
pub vector_fault : Cpu → Cpu
vector_fault cpu =
    let current = current_exception cpu in
    let recorded = record cpu { hfsr = bit_or cpu.hfsr (1 << 1) } in
    if current == 2 || current == 3
    then record recorded { stop = lockup }
    else set_pending recorded 3 true

-- `cortex_m4_exception_advanced_imprecise_fault`.
pub imprecise_fault : Cpu → Cpu
imprecise_fault cpu = raise_fault (record cpu { cfsr = bit_or cpu.cfsr (1 << 10) }) 5
