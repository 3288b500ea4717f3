-- ===== src/Cortex/Scs/Guards.antt =====
-- The accesses that the system control space refuses.
use kinetis_k22_sim.Base.{
  ℕ, ◌+◌, ◌%◌, ◌≤◌, Bool, true, false, ◌&&◌, ltb, ◌==◌, if◌then◌else◌, bit, flag, flag-pow,
  low_mask, Bool-cases, inl, inr, ==→≡, ◌≡◌, refl, arith,
}
use kinetis_k22_sim.Cortex.State.{
  Cpu, IsConfigured, Access, instruction, regular, unprivileged, debugger, SystemAccess, accepted,
  rejected, is_armv6_m,
}
use kinetis_k22_sim.Cortex.Registers.{access_is_unprivileged}
use kinetis_k22_sim.Cortex.Pending.{external_irq_word_count, set_pending}
use kinetis_k22_sim.Cortex.Scs.Access.{
  outside_space, is_privileged_access, debug_address, is_debugger, armv6_m_system_register,
}
use kinetis_k22_sim.Cortex.Scs.Read.{readable, system_read}
use kinetis_k22_sim.Cortex.Scs.Write.{
  write_systick, write_nvic, write_control, write_faults, write_stir, write_scs, user_stir,
  writable, system_write,
}

-- Data accesses without privilege: LDRT and STRT always, and the others in Thread mode (no active
-- exception in IPSR) with nPRIV set in CONTROL.
abbrev pub lacks_privilege : Cpu → Access → Bool
lacks_privilege cpu unprivileged = true
lacks_privilege cpu regular = cpu.xpsr % 512 == 0 && bit cpu.control 0
lacks_privilege cpu instruction = false
lacks_privilege cpu debugger = false

lacks_privilege_lem :
    (cpu : Cpu) (access : Access)
    → lacks_privilege cpu access ≡ true
    → (is_privileged_access cpu access ≡ false)
      × (access_is_unprivileged cpu access ≡ true)
      × (is_debugger access ≡ false)
unfolding is_privileged_access access_is_unprivileged
lacks_privilege_lem cpu unprivileged h = (refl, refl, refl)
lacks_privilege_lem cpu regular h =
    let thread = low_mask 9 cpu.xpsr in
    let npriv = flag-pow cpu.control 0 in (unfold flag in ground arith, ground arith, refl)
lacks_privilege_lem cpu instruction h = absurd (ground arith)
lacks_privilege_lem cpu debugger h = absurd (ground arith)

-- The write of STIR reaches `write_stir`.
stir_write :
    (cpu : Cpu) (value : ℕ)
    → cpu.external_irq_count ≤ 240
    → write_scs cpu 0xe000ef00 4 value ≡ write_stir cpu 4 value
unfolding write_scs write_systick write_nvic write_control write_faults external_irq_word_count
stir_write cpu value count = ground arith

module _ (debug_read : Cpu → ℕ → ℕ → Cpu × SystemAccess × ℕ)
    (debug_write : Cpu → ℕ → ℕ → ℕ → Cpu × SystemAccess) where
  -- On a configured Armv7E-M core, at an address of the space outside the debug unit: a data access
  -- by LDRT or STRT, or any in Thread mode with nPRIV set, reads nothing, and its write, of any size
  -- and value, is rejected and changes nothing, with one exception: with USERSETMPEND (bit 1 of CCR)
  -- a word written to STIR makes the interrupt pending that its nine lowest bits name, if the core
  -- has that interrupt.
  pub system_access_unprivileged :
      (cpu : Cpu) (address size value : ℕ) (access : Access)
      → IsConfigured cpu
      → is_armv6_m cpu.architecture ≡ false
      → outside_space address ≡ false
      → debug_address address ≡ false
      → lacks_privilege cpu access ≡ true
      → let irq = value % 512 in
        let allowed =
          address == 0xe000ef00 && size == 4 && bit cpu.ccr 1 && ltb irq cpu.external_irq_count in
        (system_read debug_read cpu address size access ≡ (cpu, rejected, 0))
        × (system_write debug_write cpu address size access value
            ≡ (if allowed then (set_pending cpu (irq + 16) true, accepted) else (cpu, rejected)))
  unfolding system_read system_write readable writable user_stir write_stir armv6_m_system_register
  system_access_unprivileged cpu address size value access ok v7 inside other lacks =
      let facts = lacks_privilege_lem cpu access lacks in
      let set_m_pend = flag-pow cpu.ccr 1 in
      let low = low_mask 9 value in
      let stir = stir_write cpu value ok.irq_count in
      elim (Bool-cases (address == 0xe000ef00 && size == 4)) [
        | inl there ↦
            let at_stir = ==→≡ address 0xe000ef00 (ground arith) in
            let word = ==→≡ size 4 (ground arith) in
            let reached : write_scs cpu address size value ≡ write_stir cpu 4 value =
              rw (at_stir, word) stir in
            (ground arith, ground arith)
        | inr elsewhere ↦ (ground arith, ground arith)
      ]
