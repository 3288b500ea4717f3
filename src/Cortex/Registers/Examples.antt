-- ===== src/Cortex/Registers/Examples.antt =====
-- Registers and status words on the sample core.
use kinetis_k22_sim.Base.{true, false, ◌==◌, if◌then◌else◌, flag, ◌≡◌, refl, arith}
use kinetis_k22_sim.Cortex.State.{Cpu, regular}
use kinetis_k22_sim.Cortex.Sample.{core}
use kinetis_k22_sim.Cortex.Registers.{
  uses_psp, get_register, set_register, xpsr_value, load_xpsr, set_control, set_breakpoint,
  access_is_unprivileged,
}
use kinetis_k22_sim.Cortex.Registers.Banked.{stored, get_register-set_register}
use kinetis_k22_sim.Cortex.Registers.Status.{read_back, xpsr_value-load_xpsr}

get_register-set_register_test :
    (get_register (set_register core 13 0x20001003) 13
      ≡ (if 13 == 13 then stored 13 0x20001003 else get_register core 13))
    × (uses_psp core ≡ true → (set_register core 13 0x20001003).msp ≡ core.msp)
    × (uses_psp core ≡ false → (set_register core 13 0x20001003).psp ≡ core.psp)
get_register-set_register_test =
    get_register-set_register core 13 13 0x20001003 refl (omega arith) (omega arith)

xpsr_value-load_xpsr_example : xpsr_value (load_xpsr core 0x0500a000) ≡ read_back 0x0500a000
xpsr_value-load_xpsr_example = xpsr_value-load_xpsr core 0x0500a000 refl (omega arith)

-- Tests: Thread mode with nPRIV set, and a handler.
abbrev thread : Cpu
thread = record core { xpsr = 0x01000000; control = 1 }

thread_test : access_is_unprivileged thread regular ≡ true
unfolding access_is_unprivileged flag
thread_test = refl

handler_test : access_is_unprivileged core regular ≡ false
unfolding access_is_unprivileged
handler_test = refl

control_test : (set_control thread 7).control ≡ 7
unfolding set_control
control_test = refl

handler_control_test : (set_control core 7).control ≡ 0
unfolding set_control
handler_control_test = refl

breakpoint_test : (set_breakpoint core 3 0x400 true).0.breakpoint_enabled ≡ 8
unfolding set_breakpoint
breakpoint_test = refl
