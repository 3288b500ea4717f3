-- ===== src/Cortex/Dsp/Execute.antt =====
-- dsp.c: `cortex_m4_execute_dsp` tries its instructions in turn.
use kinetis_k22_sim.Base.{ℕ, Option, some, none}
use kinetis_k22_sim.Cortex.State.{Cpu}
use kinetis_k22_sim.Cortex.Dsp.Lanes.{
  execute_pack, execute_extend, execute_select, execute_absolute_difference,
}
use kinetis_k22_sim.Cortex.Dsp.Parallel.{execute_parallel}
use kinetis_k22_sim.Cortex.Dsp.Saturation.{
  execute_scalar_saturation, execute_lane_saturation, execute_scalar_q,
}
use kinetis_k22_sim.Cortex.Dsp.Multiply.{
  execute_half_multiply, execute_dual_multiply, execute_long_dsp_multiply,
  execute_most_significant_multiply, execute_multiply_subtract,
}

infixr 30 ◌or_else◌
abbrev pub ◌or_else◌ : Option Cpu → Option Cpu → Option Cpu
some cpu or_else other = some cpu
none or_else other = other

pub execute_dsp : Cpu → ℕ → ℕ → Option Cpu
execute_dsp cpu first second =
    execute_pack cpu first second
    or_else execute_extend cpu first second
    or_else execute_parallel cpu first second
    or_else execute_lane_saturation cpu first second
    or_else execute_scalar_saturation cpu first second
    or_else execute_scalar_q cpu first second
    or_else execute_select cpu first second
    or_else execute_absolute_difference cpu first second
    or_else execute_half_multiply cpu first second
    or_else execute_dual_multiply cpu first second
    or_else execute_long_dsp_multiply cpu first second
    or_else execute_most_significant_multiply cpu first second
    or_else execute_multiply_subtract cpu first second
