-- ===== src/Cortex/Scs/Enable.antt =====
-- Enabling and disabling interrupts through the registers of the interrupt controller.
use kinetis_k22_sim.Base.{
  ℕ, Bool, true, false, not, ◌&&◌, ◌||◌, ◌≡◌, ◌<◌, ◌≤◌, ◌+◌, ◌-◌, ◌*◌, ◌%◌, ◌^◌, refl, arith,
  bit_and, bit_or, not32, ltb, ◌!◌, bit, high_mask, bit-ones, inl, inr, ap, some, bit_and_three,
  pow-lt_width, ◌⊎◌, bit-and, bit-or, bit-not32, bit_and-lt, get_or-set_self, u16, ◌∙◌,
}
use kinetis_k22_sim.Cortex.State.{
  Cpu, Access, instruction, regular, unprivileged, debugger, SystemAccess, is_armv6_m, accepted,
  IsConfigured,
}
use kinetis_k22_sim.Cortex.Pending.{external_irq_word_count}
use kinetis_k22_sim.Cortex.Scs.Access.{
  aligned, external_irq_word_mask, is_privileged_access, valid_system_access,
  armv6_m_system_register, debug_address, merge_partial, read_partial,
}
use kinetis_k22_sim.Cortex.Scs.Read.{
  system_read, after_read, readable, scs_value, systick_value, nvic_value, irq_word,
}
use kinetis_k22_sim.Cortex.Scs.Write.{
  system_write, writable, write_scs, write_systick, write_nvic, enable_irqs, disable_irqs,
}

-- The k-th digit of the mask of a word: whether there is such an interrupt.
pub bit-external_irq_word_mask :
    (cpu : Cpu) (index k : ℕ)
    → cpu.external_irq_count ≤ 240
    → index * 32 < cpu.external_irq_count
    → k < 32
    → bit (external_irq_word_mask cpu index) k ≡ ltb (index * 32 + k) cpu.external_irq_count
unfolding external_irq_word_mask
bit-external_irq_word_mask cpu index k count some_irq lt =
    let left = cpu.external_irq_count - index * 32 in
    let same : u16 (cpu.external_irq_count + 2 ^ 16 - index * 32) ≡ left = omega arith in
    let all = bit-ones 32 k in let some_bits = bit-ones left k in rw same (ground arith)

external_irq_word_mask-lt : (cpu : Cpu) (index : ℕ) → external_irq_word_mask cpu index < 2 ^ 32
unfolding external_irq_word_mask
external_irq_word_mask-lt cpu index =
    let left = u16 (cpu.external_irq_count + 2 ^ 16 - index * 32) in
    let small = pow-lt_width left 32 in ground arith

-- A word address is its own start.
aligned_word :
    (first index : ℕ)
    → first % 4 ≡ 0
    → first + index * 4 < 2 ^ 32
    → aligned (first + index * 4) ≡ first + index * 4
aligned_word first index h lt =
    let down = high_mask 32 2 (first + index * 4) (omega arith) lt in omega arith

enabled_digit :
    (old new implemented : Bool)
    → ((old || (new && implemented)) && implemented) ≡ ((old || new) && implemented)
enabled_digit old new implemented = ground arith

disabled_digit :
    (old new implemented : Bool)
    → ((old && not (new && implemented)) && implemented) ≡ ((old && not new) && implemented)
disabled_digit old new implemented = ground arith

iser_write :
    (cpu : Cpu) (i value : ℕ)
    → i < external_irq_word_count cpu
    → external_irq_word_count cpu ≤ 8
    → write_scs cpu (0xe000e100 + i * 4) 4 value ≡ some (enable_irqs cpu i value)
unfolding write_scs write_systick write_nvic merge_partial
iser_write cpu i value known words =
    ground (arith, aligned_word 0xe000e100 i (omega arith) (omega arith))

icer_write :
    (cpu : Cpu) (i value : ℕ)
    → i < external_irq_word_count cpu
    → external_irq_word_count cpu ≤ 8
    → write_scs cpu (0xe000e180 + i * 4) 4 value ≡ some (disable_irqs cpu i value)
unfolding write_scs write_systick write_nvic merge_partial
icer_write cpu i value known words =
    ground (arith, aligned_word 0xe000e180 i (omega arith) (omega arith))

iser_read :
    (cpu : Cpu) (i : ℕ)
    → i < external_irq_word_count cpu
    → external_irq_word_count cpu ≤ 8
    → scs_value cpu (0xe000e100 + i * 4) 4
      ≡ some (bit_and (cpu.irq_enabled ! i) (external_irq_word_mask cpu i))
unfolding scs_value systick_value nvic_value irq_word read_partial
iser_read cpu i known words = ground (arith, aligned_word 0xe000e100 i (omega arith) (omega arith))

module _ (cpu : Cpu) (i : ℕ) (access : Access) where
  iser_readable :
      is_armv6_m cpu.architecture ≡ false
      → is_privileged_access cpu access ≡ true
      → i < 8
      → readable cpu (0xe000e100 + i * 4) 4 access ≡ true
  unfolding readable valid_system_access armv6_m_system_register
  iser_readable v7 privileged small = ground (
    arith,
    bit_and_three (0xe000e100 + i * 4),
    aligned_word 0xe000e100 i (omega arith) (omega arith),
  )

  irq_writable :
      (first : ℕ)
      → (first ≡ 0xe000e100) ⊎ (first ≡ 0xe000e180)
      → is_armv6_m cpu.architecture ≡ false
      → is_privileged_access cpu access ≡ true
      → i < 8
      → writable cpu (first + i * 4) 4 access ≡ true
  unfolding writable valid_system_access armv6_m_system_register
  irq_writable first which v7 privileged small =
      ground
        (arith, bit_and_three (first + i * 4), aligned_word first i (omega arith) (omega arith))

set_digit :
    (old value mask k : ℕ) (implemented : Bool)
    → bit mask k ≡ implemented
    → bit (bit_and (bit_or old (bit_and value mask)) mask) k
      ≡ ((bit old k || bit value k) && implemented)
set_digit old value mask k implemented h =
    rw (bit-and, bit-or, bit-and, h) (enabled_digit (bit old k) (bit value k) implemented)

clear_digit :
    (old value mask k : ℕ) (implemented : Bool)
    → bit mask k ≡ implemented
    → mask < 2 ^ 32
    → k < 32
    → bit (bit_and (bit_and old (not32 (bit_and value mask))) mask) k
      ≡ ((bit old k && not (bit value k)) && implemented)
clear_digit old value mask k implemented h fits lt =
    let outer = bit-and (bit_and old (not32 (bit_and value mask))) mask k in
    let middle = bit-and old (not32 (bit_and value mask)) k in
    let inner = bit-and value mask k in
    let off = bit-not32 (bit_and value mask) k (bit_and-lt 32 value mask fits) lt in
    let final = disabled_digit (bit old k) (bit value k) implemented in
    rw outer (rw middle (rw off (rw inner (rw h final))))

privileged_same :
    (c d : Cpu) (access : Access)
    → c.xpsr ≡ d.xpsr
    → c.control ≡ d.control
    → is_privileged_access c access ≡ is_privileged_access d access
unfolding is_privileged_access
privileged_same c d debugger p q = refl
privileged_same c d unprivileged p q = refl
privileged_same c d regular p q = rw (p, q) refl
privileged_same c d instruction p q = refl

module _ (debug_read : Cpu → ℕ → ℕ → Cpu × SystemAccess × ℕ) where
  read_irq_word :
      (cpu : Cpu) (i : ℕ) (access : Access)
      → is_armv6_m cpu.architecture ≡ false
      → is_privileged_access cpu access ≡ true
      → i < external_irq_word_count cpu
      → external_irq_word_count cpu ≤ 8
      → system_read debug_read cpu (0xe000e100 + i * 4) 4 access
        ≡ (cpu, accepted, bit_and (cpu.irq_enabled ! i) (external_irq_word_mask cpu i))
  unfolding system_read debug_address after_read
  read_irq_word cpu i access v7 privileged known words =
      let value = iser_read cpu i known words in
      let guard = iser_readable cpu i access v7 privileged (omega arith) in
      let word = aligned_word 0xe000e100 i (omega arith) (omega arith) in ground arith

  -- The same, after a change of the enable bits only.
  read_changed_word :
      (cpu c : Cpu) (i word : ℕ) (access : Access)
      → c ≡ record cpu { irq_enabled = c.irq_enabled; sleeping = c.sleeping }
      → c.irq_enabled ! i ≡ word
      → is_armv6_m cpu.architecture ≡ false
      → is_privileged_access cpu access ≡ true
      → i < external_irq_word_count cpu
      → external_irq_word_count cpu ≤ 8
      → (system_read debug_read c (0xe000e100 + i * 4) 4 access).1 ≡ accepted
        × ((system_read debug_read c (0xe000e100 + i * 4) 4 access).2
            ≡ bit_and word (external_irq_word_mask cpu i))
  unfolding external_irq_word_count external_irq_word_mask
  read_changed_word cpu c i word access only cell v7 privileged known words =
      let architecture = ap (λ (d : Cpu). d.architecture) only in
      let count = ap (λ (d : Cpu). d.external_irq_count) only in
      let level =
        privileged_same c cpu access (ap (λ (d : Cpu). d.xpsr) only)
          (ap (λ (d : Cpu). d.control) only) in
      let value =
        read_irq_word c i access (rw architecture v7) (level ∙ privileged) (omega arith)
          (omega arith) in
      ground arith

module _ (debug_write : Cpu → ℕ → ℕ → ℕ → Cpu × SystemAccess) where
  write_irq_word :
      (cpu written : Cpu) (first i value : ℕ) (access : Access)
      → (first ≡ 0xe000e100) ⊎ (first ≡ 0xe000e180)
      → is_armv6_m cpu.architecture ≡ false
      → is_privileged_access cpu access ≡ true
      → i < 8
      → write_scs cpu (first + i * 4) 4 value ≡ some written
      → system_write debug_write cpu (first + i * 4) 4 access value ≡ (written, accepted)
  unfolding system_write debug_address
  write_irq_word cpu written first i value access which v7 privileged small done =
      let guard = irq_writable cpu i access first which v7 privileged small in ground arith

-- Digit k of a word of the registers as a read gives it: 0 for an interrupt that is not implemented.
abbrev pub IsIrqDigit : Cpu → ℕ → ℕ → Bool → Cpu × SystemAccess × ℕ → Type 0
IsIrqDigit cpu i k digit out =
    (out.1 ≡ accepted) × (bit out.2 k ≡ (digit && ltb (i * 32 + k) cpu.external_irq_count))

module _ (debug_read : Cpu → ℕ → ℕ → Cpu × SystemAccess × ℕ)
    (debug_write : Cpu → ℕ → ℕ → ℕ → Cpu × SystemAccess) where
  -- On a configured Armv7E-M core, a word of enable bits that privileged code writes to ISER sets
  -- exactly the written digits, and one that it writes to ICER clears exactly these, as a later read
  -- of ISER gives them: digits of interrupts that the device lacks read as 0.
  pub system_read-system_write_irqs :
      (cpu : Cpu) (i value k : ℕ) (access : Access)
      → IsConfigured cpu
      → is_armv6_m cpu.architecture ≡ false
      → is_privileged_access cpu access ≡ true
      → i < external_irq_word_count cpu
      → k < 32
      → let on = (system_write debug_write cpu (0xe000e100 + i * 4) 4 access value).0 in
        let off = (system_write debug_write cpu (0xe000e180 + i * 4) 4 access value).0 in
        IsIrqDigit cpu i k
          (bit (cpu.irq_enabled ! i) k || bit value k)
          (system_read debug_read on (0xe000e100 + i * 4) 4 access)
        × IsIrqDigit cpu i k
            (bit (cpu.irq_enabled ! i) k && not (bit value k))
            (system_read debug_read off (0xe000e100 + i * 4) 4 access)
  unfolding enable_irqs disable_irqs
  system_read-system_write_irqs cpu i value k access configured v7 privileged known lt =
      let count = configured.irq_count in
      let words : external_irq_word_count cpu ≤ 8 = unfold external_irq_word_count in omega arith in
      let some_irq : i * 32 < cpu.external_irq_count =
        unfold external_irq_word_count in omega arith in
      let on = enable_irqs cpu i value in
      let off = disable_irqs cpu i value in
      let set_word =
        write_irq_word debug_write cpu on 0xe000e100 i value access (inl refl) v7 privileged
          (omega arith) (iser_write cpu i value known words) in
      let clear_word =
        write_irq_word debug_write cpu off 0xe000e180 i value access (inr refl) v7 privileged
          (omega arith) (icer_write cpu i value known words) in
      let set_only : on ≡ record cpu { irq_enabled = on.irq_enabled; sleeping = on.sleeping } =
        ground arith in
      let mask = external_irq_word_mask cpu i in
      let old = cpu.irq_enabled ! i in
      let cells = configured.enabled_words in
      let set_cell : on.irq_enabled ! i ≡ bit_or old (bit_and value mask) = ground (
        arith,
        get_or-set_self cpu.irq_enabled i (bit_or old (bit_and value mask)) 0 (omega arith),
      ) in
      let clear_cell =
        get_or-set_self cpu.irq_enabled i (bit_and old (not32 (bit_and value mask))) 0
          (omega arith) in
      let set_read =
        read_changed_word debug_read cpu on i _ access set_only set_cell v7 privileged known
          words in
      let clear_read =
        read_changed_word debug_read cpu off i _ access refl clear_cell v7 privileged known words in
      let digit = bit-external_irq_word_mask cpu i k count some_irq lt in
      rw (set_word, clear_word)
        (
          (set_read.0, rw (set_read.1) (set_digit old value mask k _ digit)),
          (
            clear_read.0,
            rw (clear_read.1)
                (clear_digit old value mask k _ digit (external_irq_word_mask-lt cpu i) lt),
          ),
        )
