-- ===== src/Cortex/Priority.antt =====
-- src/architecture/cortex_m4/system.c: the priority of an exception, the masks, and the order in
-- which pending exceptions are taken.
pub mod Order
pub mod Masks
pub mod Frame
pub mod Examples
use kinetis_k22_sim.Base.{
  ℕ, ◌+◌, ◌-◌, ◌/◌, ◌^◌, bit_and, Bool, true, false, not, ◌&&◌, ◌||◌, ltb, leb, ◌==◌, ◌!=◌,
  if◌then◌else◌, ◌!◌, ◌<<◌, ◌>>◌, u8,
}
use kinetis_k22_sim.Base.Int.{ℤ, pos, negsuc, ltb_ℤ, eqb_ℤ}
use kinetis_k22_sim.Cortex.State.{Cpu, Priority}

pub exception_priority : Cpu → ℕ → ℕ
exception_priority cpu exception =
    if leb 16 exception && ltb exception (cpu.external_irq_count + 16)
    then cpu.irq_priority ! (exception - 16)
    else if leb 4 exception && leb exception 15
    then cpu.system_priority ! (exception - 4)
    else 0

-- `cortex_m4_system_priority`.
pub system_priority : Cpu → ℕ → Priority
system_priority cpu priority =
    let priority_group = bit_and (cpu.aircr >> 8) 7 in
    let available_preemption = 7 - priority_group in
    let preemption_bits =
      if ltb cpu.priority_bits available_preemption
      then cpu.priority_bits
      else available_preemption in
    let subpriority_bits = cpu.priority_bits - preemption_bits in
    let logical_priority = priority >> (8 - cpu.priority_bits) in
    record {
      preemption = logical_priority >> subpriority_bits;
      subpriority = bit_and logical_priority (1 << subpriority_bits - 1);
    }

pub exception_preemption : Cpu → ℕ → ℤ
exception_preemption cpu exception =
    if exception == 2
    then negsuc 1
    else if exception == 3
    then negsuc 0
    else pos (system_priority cpu (exception_priority cpu exception)).preemption

-- `cortex_m4_system_exception_masked`.
pub exception_masked : Cpu → ℕ → Bool
exception_masked cpu exception =
    if exception == 0 || exception == 2
    then false
    else if cpu.faultmask != 0
    then true
    else if exception == 3
    then false
    else if cpu.primask != 0
    then true
    else if cpu.basepri == 0
    then false
    else leb (system_priority cpu (u8 cpu.basepri)).preemption
        (system_priority cpu (exception_priority cpu exception)).preemption

-- `cortex_m4_system_exception_can_preempt`.
pub exception_can_preempt : Cpu → ℕ → ℕ → Bool
exception_can_preempt cpu candidate current =
    if candidate == 0 || exception_masked cpu candidate
    then false
    else if current == 0
    then true
    else ltb_ℤ (exception_preemption cpu candidate) (exception_preemption cpu current)

-- `cortex_m4_system_exception_before`.
pub exception_before : Cpu → ℕ → ℕ → Bool
exception_before cpu left right =
    if left == 0
    then false
    else if right == 0
    then true
    else let left_preemption = exception_preemption cpu left in
      let right_preemption = exception_preemption cpu right in
      let left_priority = system_priority cpu (exception_priority cpu left) in
      let right_priority = system_priority cpu (exception_priority cpu right) in
      if not (eqb_ℤ left_preemption right_preemption)
      then ltb_ℤ left_preemption right_preemption
      else if left_priority.subpriority != right_priority.subpriority
      then ltb left_priority.subpriority right_priority.subpriority
      else ltb left right
