-- ===== src/Cortex/Scs/Reserved.antt =====
-- Unimplemented bits of the system control registers: no write sets them.
use kinetis_k22_sim.Base.{
  ℕ, mask_merge, Bool, true, false, not, ◌&&◌, ◌≡◌, ◌+◌, ◌-◌, ◌*◌, ◌/◌, refl, arith, if◌then◌else◌,
  bit_and, Option, some, none, mask_twice, mask_sub, not32, ◌<<◌, for_range, for_range_inv, flag,
  ltb, ◌!◌,
}
use kinetis_k22_sim.Cortex.State.{Cpu, Access, SystemAccess, is_armv6_m}
use kinetis_k22_sim.Cortex.Pending.{set_pending}
use kinetis_k22_sim.Cortex.Pending.Frame.{set_pending_only}
use kinetis_k22_sim.Cortex.Scs.Access.{aligned, merge_partial, access_value}
use kinetis_k22_sim.Cortex.Scs.Read.{shcsr_value, configurable_system_exception}
use kinetis_k22_sim.Cortex.Scs.Priorities.{are_priorities, priority_bytes_ok}
use kinetis_k22_sim.Cortex.Scs.Write.{
  fpccr_enables, write_systick, enable_irqs, disable_irqs, pend_irqs, unpend_irqs,
  write_priority_bytes, write_system_priority, write_nvic, command, write_icsr, write_aircr,
  write_control, write_shcsr, write_faults, write_fpu, write_stir, write_scs, system_write,
}

abbrev pub vtor_mask : Cpu → ℕ
vtor_mask cpu = if is_armv6_m cpu.architecture then 0xffffff00 else 0xffffff80

-- MMFSR, BFSR and UFSR: the fault bits with the two address-valid bits.
abbrev pub cfsr_mask : ℕ
cfsr_mask = 0x030fbfbb

-- The registers hold only the bits that they implement; a priority byte implements the highest
-- `priority_bits` of its bits.
abbrev pub IsImplemented : Cpu → Type 0
IsImplemented cpu =
    (bit_and cpu.systick_control 0x00010007 ≡ cpu.systick_control)
    × (bit_and cpu.systick_reload 0x00ffffff ≡ cpu.systick_reload)
    × (bit_and cpu.vtor (vtor_mask cpu) ≡ cpu.vtor)
    × (bit_and cpu.aircr 0x00000700 ≡ cpu.aircr)
    × (bit_and cpu.scr 0x16 ≡ cpu.scr)
    × (bit_and cpu.shcsr 0x00070000 ≡ cpu.shcsr)
    × (bit_and cpu.cpacr 0x00f00000 ≡ cpu.cpacr)
    × (bit_and cpu.fpcar 0xfffffff8 ≡ cpu.fpcar)
    × (bit_and cpu.fpdscr 0x07c00000 ≡ cpu.fpdscr)
    × (bit_and cpu.ccr 0x0000031b ≡ cpu.ccr)
    × (bit_and cpu.cfsr cfsr_mask ≡ cpu.cfsr)
    × (bit_and cpu.hfsr 0xc0000002 ≡ cpu.hfsr)
    × (bit_and cpu.dfsr 0x1f ≡ cpu.dfsr)
    × (bit_and cpu.fpccr 0xc0000009 ≡ cpu.fpccr)
    × (are_priorities (8 - cpu.priority_bits) cpu.irq_priority ≡ true)
    × (are_priorities (8 - cpu.priority_bits) cpu.system_priority ≡ true)

-- The state after a write; a rejected one changes nothing.
abbrev pub after : Cpu → Option Cpu → Cpu
after cpu none = cpu
after cpu (some written) = written

set_pending_ok :
    (cpu : Cpu) (e : ℕ) (p : Bool) → IsImplemented cpu → IsImplemented (set_pending cpu e p)
set_pending_ok cpu e p ok = rw (set_pending_only cpu e p) ok

systick_ok :
    (cpu : Cpu) (address size value : ℕ)
    → IsImplemented cpu
    → IsImplemented (after cpu (write_systick cpu address size value))
unfolding write_systick
systick_ok cpu address size value ok =
    let clear = not32 (1 << 16) in
    let cleared = mask_sub cpu.systick_control clear 0x00010007 (omega arith) (omega arith) ok.0 in
    ground (
      arith,
      mask_twice (merge_partial cpu.systick_control address size value) 0x00010007,
      mask_twice (merge_partial cpu.systick_reload address size value) 0x00ffffff,
    )

loop_ok :
    (cpu : Cpu) (test : ℕ → Cpu → Bool) (irq : ℕ → ℕ) (p : Bool)
    → IsImplemented cpu
    → IsImplemented (for_range 32 0 (λ k c. if test k c then set_pending c (irq k) p else c) cpu)
loop_ok cpu test irq p ok =
    for_range_inv (λ k c. IsImplemented c) _ 32
      (λ k c lt c_ok. let done = set_pending_ok c (irq k) p c_ok in ground arith) 32 0 cpu refl ok

enable_ok :
    (cpu : Cpu) (index bits : ℕ) → IsImplemented cpu → IsImplemented (enable_irqs cpu index bits)
unfolding enable_irqs
enable_ok cpu index bits ok = ground arith

nvic_ok :
    (cpu : Cpu) (address size value : ℕ)
    → IsImplemented cpu
    → IsImplemented (after cpu (write_nvic cpu address size value))
unfolding write_nvic disable_irqs pend_irqs unpend_irqs write_priority_bytes
nvic_ok cpu address size value ok =
    let bits = access_value address size value in
    let set_first = (aligned address - 0xe000e200) / 4 * 32 in
    let clear_first = (aligned address - 0xe000e280) / 4 * 32 in
    let prioritised =
      priority_bytes_ok cpu (λ i. true) (address - 0xe000e400) size value cpu.irq_priority ok.14 in
    let enabled = enable_ok cpu ((aligned address - 0xe000e100) / 4) bits ok in
    let pended =
      loop_ok cpu (λ k c. ltb (set_first + k) cpu.external_irq_count && flag bits (1 << k))
        (λ k. set_first + k + 16) true ok in
    let unpended =
      loop_ok cpu
        (λ k c.
          ltb (clear_first + k) cpu.external_irq_count
          && flag bits (1 << k)
          && not (flag (c.irq_level ! ((clear_first + k) / 32)) (1 << k)))
        (λ k. clear_first + k + 16) false ok in
    ground arith

command_ok :
    (test : Bool) (e : ℕ) (p : Bool) (cpu : Cpu)
    → IsImplemented cpu
    → IsImplemented (command test e p cpu)
command_ok true e p cpu ok = set_pending_ok cpu e p ok
command_ok false e p cpu ok = ok

icsr_ok : (cpu : Cpu) (written : ℕ) → IsImplemented cpu → IsImplemented (write_icsr cpu written)
unfolding write_icsr
icsr_ok cpu written ok = command_ok (flag written (1 << 25)) 15 false _ (
    command_ok (flag written (1 << 26)) 15 true _ (
      command_ok (flag written (1 << 27)) 14 false _ (
        command_ok (flag written (1 << 28)) 14 true _
          (command_ok (flag written (1 << 31)) 2 true cpu ok))))

control_ok :
    (cpu : Cpu) (address size value : ℕ)
    → IsImplemented cpu
    → IsImplemented (after cpu (write_control cpu address size value))
unfolding write_control write_aircr write_system_priority
control_ok cpu address size value ok =
    let written = merge_partial cpu.vtor address size value in
    let prioritised =
      priority_bytes_ok cpu (λ i. configurable_system_exception cpu (address - 0xe000ed18 + i + 4))
        (address - 0xe000ed18) size value cpu.system_priority ok.15 in
    let commands = icsr_ok cpu (access_value address size value) ok in
    ground (
      arith,
      mask_twice written 0xffffff00,
      mask_twice written 0xffffff80,
      mask_twice value 0x00000700,
      mask_twice (merge_partial cpu.scr address size value) 0x16,
      mask_twice (merge_partial cpu.ccr address size value) 0x0000031b,
    )

shcsr_ok :
    (cpu : Cpu) (address size value : ℕ)
    → IsImplemented cpu
    → IsImplemented (write_shcsr cpu address size value)
unfolding write_shcsr
shcsr_ok cpu address size value ok =
    let written = merge_partial (shcsr_value cpu) address size value in
    let enables = record cpu { shcsr = bit_and written 0x00070000 } in
    let enabled : IsImplemented enables = ground (arith, mask_twice written 0x00070000) in
    set_pending_ok _ 11 (flag written (1 << 15)) (
      set_pending_ok _ 5 (flag written (1 << 14)) (
        set_pending_ok _ 4 (flag written (1 << 13))
          (set_pending_ok enables 6 (flag written (1 << 12)) enabled)))

faults_ok :
    (cpu : Cpu) (address size value : ℕ)
    → IsImplemented cpu
    → IsImplemented (after cpu (write_faults cpu address size value))
unfolding write_faults
faults_ok cpu address size value ok =
    let pended = set_pending_ok cpu 11 (flag (access_value address size value) (1 << 15)) ok in
    let handlers = shcsr_ok cpu address size value ok in
    let written = access_value address size value in
    let faults = mask_sub cpu.cfsr (not32 written) cfsr_mask (omega arith) (omega arith) ok.10 in
    let hard =
      mask_sub cpu.hfsr (not32 (bit_and written 0xc0000002)) 0xc0000002 (omega arith) (omega arith)
        ok.11 in
    let debug =
      mask_sub cpu.dfsr (not32 (bit_and written 0x1f)) 0x1f (omega arith) (omega arith) ok.12 in
    ground (arith, mask_twice (merge_partial cpu.cpacr address size value) 0x00f00000)

fpu_ok :
    (cpu : Cpu) (address size value : ℕ)
    → IsImplemented cpu
    → IsImplemented (after cpu (write_fpu cpu address size value))
unfolding write_fpu
fpu_ok cpu address size value ok =
    let control =
      mask_merge cpu.fpccr (not32 fpccr_enables) (merge_partial cpu.fpccr address size value)
        fpccr_enables 0xc0000009 (omega arith) (omega arith) (omega arith) ok.13 refl in
    ground (
      arith,
      mask_twice (merge_partial cpu.fpcar address size value) 0xfffffff8,
      mask_twice (merge_partial cpu.fpdscr address size value) 0x07c00000,
    )

stir_ok :
    (cpu : Cpu) (size value : ℕ)
    → IsImplemented cpu
    → IsImplemented (after cpu (write_stir cpu size value))
unfolding write_stir
stir_ok cpu size value ok =
    let pended = set_pending_ok cpu (bit_and value 0x1ff + 16) true ok in ground arith

scs_ok :
    (cpu : Cpu) (address size value : ℕ)
    → IsImplemented cpu
    → IsImplemented (after cpu (write_scs cpu address size value))
unfolding write_scs
scs_ok cpu address size value ok =
    let a = systick_ok cpu address size value ok in
    let b = nvic_ok cpu address size value ok in
    let c = control_ok cpu address size value ok in
    let d = faults_ok cpu address size value ok in
    let e = stir_ok cpu size value ok in let f = fpu_ok cpu address size value ok in ground arith

-- The registers with unimplemented bits are SysTick CTRL and LOAD, VTOR, AIRCR, SCR, CCR, SHCSR,
-- CFSR, HFSR, DFSR, CPACR, FPCCR, FPCAR, FPDSCR and the priority bytes of the interrupts and of the
-- system exceptions. If the writes of the debug unit keep the unimplemented bits of all of these
-- clear, so does every write to the system control space, accepted or not, from any kind of access,
-- at any address, of any size and value.
pub system_write-IsImplemented :
    (debug_write : Cpu → ℕ → ℕ → ℕ → Cpu × SystemAccess)
    → ((c : Cpu) (address size value : ℕ)
        → IsImplemented c
        → IsImplemented (debug_write c address size value).0)
    → (cpu : Cpu) (address size value : ℕ) (access : Access) → IsImplemented cpu
    → IsImplemented (system_write debug_write cpu address size access value).0
unfolding system_write
system_write-IsImplemented debug_write debug_ok cpu address size value access ok =
    let written = scs_ok cpu address size value ok in
    let debugged = debug_ok cpu address size value ok in ground arith
