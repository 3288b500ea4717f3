-- ===== src/Cortex/Dsp/Examples.antt =====
-- QADD R0, R1, R2 and other instructions.
use kinetis_k22_sim.Base.{◌∷◌, [], true, ◌||◌, ◌&&◌, ◌==◌, ◌!◌, if◌then◌else◌, bit, refl, ◌≡◌}
use kinetis_k22_sim.Base.Int.{pos, ◌*ℤ◌, signed}
use kinetis_k22_sim.Cortex.State.{Cpu}
use kinetis_k22_sim.Cortex.Sample.{core}
use kinetis_k22_sim.Cortex.Dsp.Lanes.{signed_saturate}
use kinetis_k22_sim.Cortex.Dsp.Saturation.{scalar_q, execute_scalar_q}
use kinetis_k22_sim.Cortex.Dsp.Clamp.{
  is_outside, clamp, doubles, exact_q, is_some, after, execute_scalar_q_lem,
}

abbrev large : Cpu
large = record core {
  registers = 0 ∷ 0x7fffffff ∷ 1 ∷ 0 ∷ 0 ∷ 0 ∷ 0 ∷ 0 ∷ 0 ∷ 0 ∷ 0 ∷ 0 ∷ 0 ∷ 0 ∷ 0 ∷ 0 ∷ [];
}

abbrev added : Cpu
added = after large (execute_scalar_q large 0xfa82 0xf081)

execute_scalar_q_lem_example :
    (is_some (execute_scalar_q large 0xfa82 0xf081) ≡ true)
    × (signed 32 (added.registers ! 0) ≡ clamp 32 (exact_q 0 (signed 32 0x7fffffff) (signed 32 1)))
    × (added.registers ! 2 ≡ (if 0 == 2 then added.registers ! 0 else large.registers ! 2))
    × (bit added.xpsr 27 ≡ (
        bit large.xpsr 27
        || (27 == 27
            && (is_outside 32 (exact_q 0 (signed 32 0x7fffffff) (signed 32 1))
                || (doubles 0 && is_outside 32 (signed 32 1 *ℤ pos 2))))))
execute_scalar_q_lem_example = execute_scalar_q_lem large 0xfa82 0xf081 2 27 refl refl refl refl

held_test : scalar_q 0 0x7fffffff 1 ≡ (0x7fffffff, true)
unfolding scalar_q signed_saturate
held_test = refl
