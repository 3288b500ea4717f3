-- ===== src/Cortex/SysTick/Examples.antt =====
-- SysTick with TICKINT, at 1000 cycles.
use kinetis_k22_sim.Base.{
  ◌-◌, true, false, ◌&&◌, ◌||◌, ◌==◌, if◌then◌else◌, flag, bit, refl, ◌≡◌, suc, arith,
}
use kinetis_k22_sim.Cortex.State.{Cpu, IsConfigured}
use kinetis_k22_sim.Cortex.Sample.{core, core-IsConfigured}
use kinetis_k22_sim.Cortex.Pending.{was_pending}
use kinetis_k22_sim.Cortex.SysTick.{advance_systick}
use kinetis_k22_sim.Cortex.SysTick.Period.{with_current, advance_systick_lem}

abbrev ticking : Cpu
ticking = record core { systick_control = 7; systick_reload = 999 }

counter_on : flag ticking.systick_control 1 ≡ true
unfolding flag
counter_on = refl

ticking-IsConfigured : IsConfigured ticking
ticking-IsConfigured = let ok = core-IsConfigured in ground arith

advance_systick_lem_example :
    (advance_systick (with_current ticking (suc 999)) 20 ≡ with_current ticking (suc 999 - 20))
    × ((advance_systick (with_current ticking (suc 999)) (suc 999)).systick_current ≡ 0)
    × (bit (advance_systick (with_current ticking (suc 999)) (suc 999)).systick_control 16
        ≡ (bit ticking.systick_control 16 || 16 == 16))
    × (was_pending (advance_systick (with_current ticking (suc 999)) (suc 999)) 15
        ≡ (if bit ticking.systick_control 1 && 15 == 15 then true else was_pending ticking 15))
    × ((advance_systick (with_current ticking (suc 999)) (suc 999)).sleeping
        ≡ (if bit ticking.systick_control 1 then false else ticking.sleeping))
    × (advance_systick (with_current ticking 0) 1 ≡ with_current ticking ticking.systick_reload)
advance_systick_lem_example =
    advance_systick_lem ticking refl counter_on ticking-IsConfigured 999 20 15 16 (omega arith)
