-- ===== src/Cortex/Scs/Examples.antt =====
-- The sample core's system control space, with a debug unit that refuses every access.
use kinetis_k22_sim.Base.{
  ℕ, ◌+◌, ◌*◌, ◌%◌, ◌<◌, ltb, ◌==◌, if◌then◌else◌, ◌&&◌, ◌||◌, not, true, false, bit, ◌≡◌, refl,
  arith, ◌!◌,
}
use kinetis_k22_sim.Cortex.State.{Cpu, IsConfigured, SystemAccess, regular, accepted, rejected}
use kinetis_k22_sim.Cortex.Sample.{core, core-IsConfigured}
use kinetis_k22_sim.Cortex.Exceptions.Stack.{IsStack}
use kinetis_k22_sim.Cortex.Mpu.{mpu_active}
use kinetis_k22_sim.Cortex.Scs.Reset.{system_reset, system_reset_lem}
use kinetis_k22_sim.Cortex.Pending.{
  external_irq_word_count, set_pending, was_pending, get_irq_active,
}
use kinetis_k22_sim.Cortex.Selection.{exception_active}
use kinetis_k22_sim.Cortex.Scs.Access.{
  is_privileged_access, debug_address, read_partial, external_irq_word_mask,
}
use kinetis_k22_sim.Cortex.Scs.Read.{system_read}
use kinetis_k22_sim.Cortex.Scs.Write.{system_write}
use kinetis_k22_sim.Cortex.Scs.Guards.{lacks_privilege, system_access_unprivileged}
use kinetis_k22_sim.Cortex.Scs.Reserved.{IsImplemented, system_write-IsImplemented}
use kinetis_k22_sim.Cortex.Scs.Enable.{IsIrqDigit, system_read-system_write_irqs}

abbrev no_debug_read : Cpu → ℕ → ℕ → Cpu × SystemAccess × ℕ
no_debug_read cpu address size = (cpu, rejected, 0)

abbrev no_debug_write : Cpu → ℕ → ℕ → ℕ → Cpu × SystemAccess
no_debug_write cpu address size value = (cpu, rejected)

-- The sample core in Thread mode without privilege, with USERSETMPEND.
abbrev user : Cpu
user = record core { xpsr = 0x01000000; control = 1; ccr = 2 }

user-IsConfigured : IsConfigured user
user-IsConfigured = let ok = core-IsConfigured in ground arith

user-lacks_privilege : lacks_privilege user regular ≡ true
unfolding bit
user-lacks_privilege = refl

stir_no_debug : debug_address 0xe000ef00 ≡ false
unfolding debug_address
stir_no_debug = refl

system_access_unprivileged_example :
    (system_read no_debug_read user 0xe000ef00 4 regular ≡ (user, rejected, 0))
    × (system_write no_debug_write user 0xe000ef00 4 regular 7 ≡ (
        if 0xe000ef00 == 0xe000ef00
          && 4 == 4
          && bit user.ccr 1
          && ltb (7 % 512) user.external_irq_count
        then (set_pending user (7 % 512 + 16) true, accepted)
        else (user, rejected)))
system_access_unprivileged_example =
    system_access_unprivileged no_debug_read no_debug_write user 0xe000ef00 4 7 regular
      user-IsConfigured refl refl stir_no_debug user-lacks_privilege

core-IsImplemented : IsImplemented core
core-IsImplemented =
    (refl, refl, refl, refl, refl, refl, refl, refl, refl, refl, refl, refl, refl, refl, refl, refl)

system_write-IsImplemented_example :
    IsImplemented (system_write no_debug_write core 0xe000ed14 4 regular 0xffffffff).0
system_write-IsImplemented_example =
    system_write-IsImplemented no_debug_write (λ c a s v ok. ok) core 0xe000ed14 4 0xffffffff
      regular core-IsImplemented

privileged : is_privileged_access core regular ≡ true
unfolding is_privileged_access
privileged = refl

three_words : 2 < external_irq_word_count core
unfolding external_irq_word_count
three_words = omega arith

system_read-system_write_irqs_example :
    IsIrqDigit core 2 9 (bit (core.irq_enabled ! 2) 9 || bit 0x300 9) (
      system_read no_debug_read
        (system_write no_debug_write core (0xe000e100 + 2 * 4) 4 regular 0x300).0
        (0xe000e100 + 2 * 4)
        4
        regular)
    × IsIrqDigit core 2 9 (bit (core.irq_enabled ! 2) 9 && not (bit 0x300 9)) (
        system_read no_debug_read
          (system_write no_debug_write core (0xe000e180 + 2 * 4) 4 regular 0x300).0
          (0xe000e100 + 2 * 4)
          4
          regular)
system_read-system_write_irqs_example =
    system_read-system_write_irqs no_debug_read no_debug_write core 2 0x300 9 regular
      core-IsConfigured refl privileged three_words (omega arith)

mask_test : external_irq_word_mask core 2 ≡ 0x3ff
unfolding external_irq_word_mask
mask_test = refl

byte_test : read_partial 0x12345678 0xe000ed2a 1 ≡ 0x34
unfolding read_partial
byte_test = refl

system_reset_lem_example :
    IsImplemented (system_reset (λ c. c) core)
    × IsStack (system_reset (λ c. c) core)
    × ((system_reset (λ c. c) core).exception_depth ≡ 0)
    × (was_pending (system_reset (λ c. c) core) 21 ≡ false)
    × (exception_active (system_reset (λ c. c) core) 20 ≡ false)
    × (get_irq_active (system_reset (λ c. c) core) 4 ≡ false)
    × ((system_reset (λ c. c) core).cfsr ≡ 0)
    × ((system_reset (λ c. c) core).hfsr ≡ 0)
    × ((system_reset (λ c. c) core).dfsr ≡ 0)
    × (mpu_active (system_reset (λ c. c) core) ≡ false)
system_reset_lem_example = system_reset_lem (λ c. c) core 21 20 4 (λ c. refl)
