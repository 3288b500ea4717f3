-- ===== src/Cortex/Faults/Status.antt =====
-- The fault status register CFSR through the fault routines.
use kinetis_k22_sim.Base.{
  ℕ, bit_or, Bool, true, ◌||◌, ◌<<◌, if◌then◌else◌, bit, bit-or, ◌≡◌, ap, ◌∙◌, arith,
}
use kinetis_k22_sim.Cortex.State.{Cpu, FaultStage}
use kinetis_k22_sim.Cortex.Pending.{set_pending}
use kinetis_k22_sim.Cortex.Pending.Frame.{set_pending_only}
use kinetis_k22_sim.Cortex.Faults.{
  notice_fault, pend_fault, raise_fault, memory_bits, bus_bits, record_fault_status,
  exception_fault, entry_fault, vector_fault, imprecise_fault,
}

set_pending-cfsr :
    (cpu : Cpu) (e : ℕ) (pending : Bool) → (set_pending cpu e pending).cfsr ≡ cpu.cfsr
set_pending-cfsr cpu e pending = ap (λ (c : Cpu). c.cfsr) (set_pending_only cpu e pending)

pub raise_fault-cfsr : (cpu : Cpu) (e : ℕ) → (raise_fault cpu e).cfsr ≡ cpu.cfsr
unfolding raise_fault notice_fault pend_fault
raise_fault-cfsr cpu e =
    let faulted = record cpu { instruction_faulted = true } in
    let hard = set_pending-cfsr faulted 3 true in
    let own = set_pending-cfsr faulted e true in
    let forced =
      set_pending-cfsr (record faulted { hfsr = bit_or faulted.hfsr (1 << 30) }) 3 true in
    ground arith

-- The bits that a fault at a stage reports.
abbrev pub stage_bits : FaultStage → Bool → ℕ
stage_bits stage memory_management_fault =
    if memory_management_fault then memory_bits stage else bus_bits stage

-- A fault while an exception is entered or left adds the bits of its stage and kind to CFSR,
-- whatever becomes of it afterwards; an imprecise bus fault adds bit 10, and a vector fault adds
-- none. No other bit of CFSR changes.
pub fault_status_lem :
    (cpu : Cpu) (entering : ℕ) (stage : FaultStage) (memory_management_fault : Bool) (k : ℕ)
    → (bit (exception_fault cpu stage memory_management_fault).cfsr k
        ≡ bit cpu.cfsr k || bit (stage_bits stage memory_management_fault) k)
      × (bit (entry_fault cpu entering stage memory_management_fault).cfsr k
          ≡ bit cpu.cfsr k || bit (stage_bits stage memory_management_fault) k)
      × (bit (imprecise_fault cpu).cfsr k ≡ bit cpu.cfsr k || bit (1 << 10) k)
      × (bit (vector_fault cpu).cfsr k ≡ bit cpu.cfsr k)
unfolding exception_fault entry_fault imprecise_fault vector_fault record_fault_status
fault_status_lem cpu entering stage mm k = (left, entered, imprecise, vector)
  where
    recorded : Cpu
    recorded = record cpu { cfsr = bit_or cpu.cfsr (stage_bits stage mm) }

    or : bit recorded.cfsr k ≡ bit cpu.cfsr k || bit (stage_bits stage mm) k
    or = bit-or cpu.cfsr (stage_bits stage mm) k

    left : bit (exception_fault cpu stage mm).cfsr k ≡ bit cpu.cfsr k || bit (stage_bits stage mm) k
    left = ap (λ x. bit x k) (raise_fault-cfsr recorded (if mm then 4 else 5)) ∙ or

    entered_cfsr : (entry_fault cpu entering stage mm).cfsr ≡ recorded.cfsr
    entered_cfsr =
        let hard =
          set_pending-cfsr (record recorded { hfsr = bit_or recorded.hfsr (1 << 30) }) 3 true in
        let raised = raise_fault-cfsr recorded (if mm then 4 else 5) in ground arith

    entered :
        bit (entry_fault cpu entering stage mm).cfsr k
        ≡ bit cpu.cfsr k || bit (stage_bits stage mm) k
    entered = ap (λ x. bit x k) entered_cfsr ∙ or

    imprecise : bit (imprecise_fault cpu).cfsr k ≡ bit cpu.cfsr k || bit (1 << 10) k
    imprecise =
        ap (λ x. bit x k) (raise_fault-cfsr (record cpu { cfsr = bit_or cpu.cfsr (1 << 10) }) 5)
        ∙ bit-or cpu.cfsr (1 << 10) k

    vector_cfsr : (vector_fault cpu).cfsr ≡ cpu.cfsr
    vector_cfsr =
        let hard = set_pending-cfsr (record cpu { hfsr = bit_or cpu.hfsr (1 << 1) }) 3 true in
        ground arith

    vector : bit (vector_fault cpu).cfsr k ≡ bit cpu.cfsr k
    vector = ap (λ x. bit x k) vector_cfsr

set_pending-mmfar : (cpu : Cpu) (e : ℕ) → (set_pending cpu e true).mmfar ≡ cpu.mmfar
set_pending-mmfar cpu e = ap (λ (c : Cpu). c.mmfar) (set_pending_only cpu e true)

-- The fault address is not touched either.
pub raise_fault-mmfar : (cpu : Cpu) (e : ℕ) → (raise_fault cpu e).mmfar ≡ cpu.mmfar
unfolding raise_fault notice_fault pend_fault
raise_fault-mmfar cpu e =
    let faulted = record cpu { instruction_faulted = true } in
    let hard = set_pending-mmfar faulted 3 in
    let own = set_pending-mmfar faulted e in
    let forced = set_pending-mmfar (record faulted { hfsr = bit_or faulted.hfsr (1 << 30) }) 3 in
    ground arith
