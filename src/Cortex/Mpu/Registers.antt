-- ===== src/Cortex/Mpu/Registers.antt =====
-- Reading back the registers of the memory protection unit, and its fault.
use kinetis_k22_sim.Base.{
  ℕ, ◌^◌, ◌<◌, bit_and, bit_or, Bool, true, false, not, ◌&&◌, ◌||◌, ltb, ◌==◌, if◌then◌else◌, set,
  length, get_or-set_self, bit_and_seven, flag, bit, bit-or, bit-set, bit-pow, Bool-cases, ==→≡,
  inl, inr, ◌≡◌, ◌≢◌, ◌⊎◌, refl, arith, ap, ◌∙◌,
}
use kinetis_k22_sim.Cortex.State.{
  Cpu, IsConfigured, Access, instruction, regular, unprivileged, debugger, accepted, lockup,
}
use kinetis_k22_sim.Cortex.Priority.Frame.{can_preempt_recorded}
use kinetis_k22_sim.Cortex.Pending.{was_pending}
use kinetis_k22_sim.Cortex.Pending.Frame.{was_pending_ext}
use kinetis_k22_sim.Cortex.Exceptions.{current_exception}
use kinetis_k22_sim.Cortex.Faults.{raise_fault}
use kinetis_k22_sim.Cortex.Faults.Escalation.{fault_target, raise_fault_lem, raise_fault_rest}
use kinetis_k22_sim.Cortex.Faults.Status.{raise_fault-cfsr, raise_fault-mmfar}
use kinetis_k22_sim.Cortex.Mpu.{
  is_instruction, privileged_access, mpu_access_permitted, mpu_check, mpu_fault, alias_index,
  selected_region, is_rbar, register_value, mpu_read, write_base, write_mpu_register, mpu_write,
}

recorded_digits :
    (cfsr k : ℕ)
    → (bit (bit_or cfsr 1) k ≡ (bit cfsr k || 0 == k))
      × (bit (bit_or cfsr (bit_or 0x80 2)) k ≡ (bit cfsr k || (1 == k || 7 == k)))
recorded_digits cfsr k =
    let both : bit (bit_or 0x80 2) k ≡ (1 == k || 7 == k) =
      bit-or (2 ^ 7) (2 ^ 1) k ∙ (rw (bit-pow 7 k, bit-pow 1 k) (ground arith)) in
    (bit-set cfsr 0 k, bit-or cfsr (bit_or 0x80 2) k ∙ ap (λ b. bit cfsr k || b) both)

-- The status registers do not decide where a fault goes.
target_recorded :
    (cpu : Cpu) (cfsr mmfar : ℕ)
    → fault_target (record cpu { cfsr = cfsr; mmfar = mmfar }) 4 ≡ fault_target cpu 4
unfolding fault_target current_exception
target_recorded cpu cfsr mmfar = rw (can_preempt_recorded cpu cfsr mmfar) refl

abbrev is_fatal : ℕ → Bool
is_fatal exception = exception == 2 || exception == 3

handling : (exception : ℕ) → is_fatal exception ≡ true → (exception ≡ 2) ⊎ (exception ≡ 3)
handling exception fatal = elim (Bool-cases (exception == 2)) [
  | inl nmi ↦ inl (==→≡ exception 2 nmi)
  | inr other ↦ inr (==→≡ exception 3 (ground arith))
]

not_handling : (exception : ℕ) → is_fatal exception ≡ false → (exception < 2) ⊎ (3 < exception)
not_handling exception milder = elim (Bool-cases (ltb exception 2)) [
  | inl low ↦ inl (ground arith)
  | inr high ↦ inr (ground arith)
]

-- MemManage, raised with the status in CFSR and MMFAR.
raised_lem :
    (cpu : Cpu) (cfsr mmfar f : ℕ)
    → IsConfigured cpu
    → let out = raise_fault (record cpu { cfsr = cfsr; mmfar = mmfar }) 4 in
      let faulting = current_exception cpu == 2 || current_exception cpu == 3 in
      (out.cfsr ≡ cfsr)
      × (out.mmfar ≡ mmfar)
      × (out.stop ≡ (if faulting then lockup else cpu.stop))
      × (was_pending out f
          ≡ (if not faulting && fault_target cpu 4 == f then true else was_pending cpu f))
      × (out.sleeping ≡ (if not faulting then false else cpu.sleeping))
      × (out.event_register ≡ (if not faulting then true else cpu.event_register))
raised_lem cpu cfsr mmfar f ok =
    let recorded : Cpu = record cpu { cfsr = cfsr; mmfar = mmfar } in
    let recorded_ok : IsConfigured recorded = ground arith in
    let handled : current_exception recorded ≡ current_exception cpu =
      unfold current_exception in refl in
    let same : was_pending recorded f ≡ was_pending cpu f =
      was_pending_ext recorded cpu f refl refl in
    let target = target_recorded cpu cfsr mmfar in
    let facts = raise_fault_lem recorded 4 f recorded_ok (omega arith) (omega arith) in
    let rest = raise_fault_rest recorded 4 (omega arith) (omega arith) in
    let status = raise_fault-cfsr recorded 4 in
    let location = raise_fault-mmfar recorded 4 in
    elim (Bool-cases (current_exception cpu == 2 || current_exception cpu == 3)) [
      | inl inside ↦
          let mode = handling (current_exception recorded) (ap is_fatal handled ∙ inside) in
          let stuck = facts.0 mode in
          let still = rest.0 mode in
          rw inside (status, location, stuck.0, stuck.1 ∙ same, still.0, still.1)
      | inr outside ↦
          let mode = not_handling (current_exception recorded) (ap is_fatal handled ∙ outside) in
          let taken = facts.1 mode in
          rw outside
            (status, location, rest.1 mode, taken.2 ∙ (rw (target, same) refl), taken.0, taken.1)
    ]

-- On a configured core, the check gives false exactly for an access that is not permitted. A
-- permitted access changes nothing; a violation adds IACCVIOL to CFSR for an instruction, and
-- MMARVALID and DACCVIOL, with the address in MMFAR, for data, and no other bit of CFSR changes. A
-- violation in the NMI or HardFault handler locks the core up and changes no pending bit; in any
-- other mode it wakes the core, sets the event register and makes the MemManage fault (4) pending,
-- or HardFault (3) where the former is not enabled or cannot preempt; all other pending bits stay.
pub mpu_check_lem :
    (cpu : Cpu) (address byte_count : ℕ) (access : Access) (is_write_access : Bool) (k f : ℕ)
    → IsConfigured cpu
    → let out = mpu_check cpu address byte_count access is_write_access in
      let permitted = mpu_access_permitted cpu address byte_count access is_write_access in
      let added = if is_instruction access then 0 == k else 1 == k || 7 == k in
      let faulting = current_exception cpu == 2 || current_exception cpu == 3 in
      (out.1 ≡ permitted)
      × ((if permitted then out.0 else cpu) ≡ cpu)
      × (bit out.0.cfsr k ≡ (bit cpu.cfsr k || (not permitted && added)))
      × (out.0.mmfar ≡ (if permitted || is_instruction access then cpu.mmfar else address))
      × (out.0.stop ≡ (if not permitted && faulting then lockup else cpu.stop))
      × (was_pending out.0 f ≡ (
          if not permitted && not faulting && fault_target cpu 4 == f
          then true
          else was_pending cpu f))
      × (out.0.sleeping ≡ (if not permitted && not faulting then false else cpu.sleeping))
      × (out.0.event_register
          ≡ (if not permitted && not faulting then true else cpu.event_register))
unfolding mpu_check mpu_fault
mpu_check_lem cpu address byte_count access is_write_access k f ok =
    let digits = recorded_digits cpu.cfsr k in
    elim (Bool-cases (mpu_access_permitted cpu address byte_count access is_write_access)) [
      | inl granted ↦ rw granted (refl, refl, ground arith, refl, refl, refl, refl, refl)
      | inr denied ↦ elim (Bool-cases (is_instruction access)) [
        | inl fetch ↦
            let raised = raised_lem cpu (bit_or cpu.cfsr 1) cpu.mmfar f ok in
            rw (denied, fetch)
              (
                refl,
                refl,
                ap (λ x. bit x k) raised.0 ∙ digits.0,
                raised.1,
                raised.2,
                raised.3,
                raised.4,
                raised.5,
              )
        | inr loaded ↦
            let raised = raised_lem cpu (bit_or cpu.cfsr (bit_or 0x80 2)) address f ok in
            rw (denied, loaded)
              (
                refl,
                refl,
                ap (λ x. bit x k) raised.0 ∙ digits.1,
                raised.1,
                raised.2,
                raised.3,
                raised.4,
                raised.5,
              )
      ]
    ]

privileged_ext :
    (c d : Cpu) (access : Access)
    → c.xpsr ≡ d.xpsr
    → c.control ≡ d.control
    → privileged_access c access ≡ privileged_access d access
unfolding privileged_access
privileged_ext c d debugger p q = refl
privileged_ext c d unprivileged p q = refl
privileged_ext c d regular p q = rw p (rw q refl)
privileged_ext c d instruction p q = rw p (rw q refl)

-- With 8 cells for the regions, at least one implemented region and a privileged access, a word
-- write of CTRL, RNR, RBAR (with the VALID bit) or RASR is what a read of the same register gives,
-- as far as the register has the bits; RBAR reads with the number of the region that the write
-- named.
pub mpu_read-mpu_write :
    (cpu : Cpu) (access : Access) (value : ℕ)
    → length cpu.mpu_region_base ≡ 8
    → length cpu.mpu_region_attributes ≡ 8
    → cpu.mpu_region_count ≢ 0
    → privileged_access cpu access ≡ true
    → flag value 0x10 ≡ true
    → let control = (mpu_write cpu 0xe000ed94 4 access value).1 in
      let number = (mpu_write cpu 0xe000ed98 4 access value).1 in
      let base = (mpu_write cpu 0xe000ed9c 4 access value).1 in
      let attributes = (mpu_write cpu 0xe000eda0 4 access value).1 in
      (mpu_read control 0xe000ed94 4 access ≡ (accepted, bit_and value 7))
      × (mpu_read number 0xe000ed98 4 access ≡ (accepted, bit_and value 7))
      × (mpu_read base 0xe000ed9c 4 access
          ≡ (accepted, bit_or (bit_and value 0xffffffe0) (bit_and value 7)))
      × (mpu_read attributes 0xe000eda0 4 access ≡ (accepted, bit_and value 0x173fff3f))
unfolding mpu_read mpu_write register_value write_mpu_register write_base is_rbar selected_region
    alias_index
mpu_read-mpu_write cpu access value lb la some_regions privileged valid =
    let named = bit_and value 7 in
    let small : named < 8 = ground (arith, bit_and_seven value) in
    let again : bit_and named 7 ≡ named = ground (arith, bit_and_seven named) in
    let region = bit_and cpu.mpu_region_number 7 in
    let region_small : region < 8 = ground (arith, bit_and_seven cpu.mpu_region_number) in
    let base = bit_and value 0xffffffe0 in
    let attributes = bit_and value 0x173fff3f in
    let control = record cpu { mpu_control = named } in
    let number = record cpu { mpu_region_number = named } in
    let based = record cpu {
      mpu_region_number = named;
      mpu_region_base = set cpu.mpu_region_base named base;
    } in
    let attributed = record cpu {
      mpu_region_attributes = set cpu.mpu_region_attributes region attributes;
    } in
    let p = privileged_ext control cpu access refl refl in
    let q = privileged_ext number cpu access refl refl in
    let r = privileged_ext based cpu access refl refl in
    let s = privileged_ext attributed cpu access refl refl in
    let base_cell = get_or-set_self cpu.mpu_region_base named base 0 (ground arith) in
    let attribute_cell =
      get_or-set_self cpu.mpu_region_attributes region attributes 0 (ground arith) in
    (ground arith, ground arith, ground arith, ground arith)
