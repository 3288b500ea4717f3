-- ===== src/Cortex/Faults/Examples.antt =====
-- Faults on the sample core.
use kinetis_k22_sim.Base.{
  ◌<◌, ◌<<◌, true, false, ◌||◌, ◌==◌, if◌then◌else◌, bit, ◌≡◌, ◌⊎◌, refl, arith,
}
use kinetis_k22_sim.Cortex.State.{lockup, stacking}
use kinetis_k22_sim.Cortex.Sample.{core, core-IsConfigured}
use kinetis_k22_sim.Cortex.Pending.{was_pending}
use kinetis_k22_sim.Cortex.Exceptions.{current_exception}
use kinetis_k22_sim.Cortex.Faults.{
  raise_fault, exception_fault, entry_fault, imprecise_fault, vector_fault, memory_bits, bus_bits,
}
use kinetis_k22_sim.Cortex.Faults.Escalation.{fault_target, raise_fault_lem}
use kinetis_k22_sim.Cortex.Faults.Status.{stage_bits, fault_status_lem}

raise_fault_lem_example :
    ((current_exception core ≡ 2) ⊎ (current_exception core ≡ 3)
      → ((raise_fault core 6).stop ≡ lockup)
        × (was_pending (raise_fault core 6) 3 ≡ was_pending core 3))
    × ((current_exception core < 2) ⊎ (3 < current_exception core)
        → ((raise_fault core 6).sleeping ≡ false)
          × ((raise_fault core 6).event_register ≡ true)
          × (was_pending (raise_fault core 6) 3
              ≡ (if fault_target core 6 == 3 then true else was_pending core 3)))
raise_fault_lem_example = raise_fault_lem core 6 3 core-IsConfigured (omega arith) (omega arith)

fault_status_lem_test :
    (bit (exception_fault core stacking true).cfsr 4
      ≡ bit core.cfsr 4 || bit (stage_bits stacking true) 4)
    × (bit (entry_fault core 21 stacking true).cfsr 4
        ≡ bit core.cfsr 4 || bit (stage_bits stacking true) 4)
    × (bit (imprecise_fault core).cfsr 4 ≡ bit core.cfsr 4 || bit (1 << 10) 4)
    × (bit (vector_fault core).cfsr 4 ≡ bit core.cfsr 4)
fault_status_lem_test = fault_status_lem core 21 stacking true 4

-- A test: MSTKERR.
stacking_test : memory_bits stacking ≡ 0x10
unfolding memory_bits
stacking_test = refl

bus_test : bus_bits stacking ≡ 0x1000
unfolding bus_bits
bus_test = refl
