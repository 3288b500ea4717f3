-- ===== src/Cortex/Exclusive/Examples.antt =====
-- An exclusive load of 0x20000104 with a granule of 16 bytes; one write misses the granule.
use kinetis_k22_sim.Base.{false, [], ◌∷◌, ◌≡◌, refl, arith}
use kinetis_k22_sim.Cortex.State.{Cpu}
use kinetis_k22_sim.Cortex.Sample.{core}
use kinetis_k22_sim.Cortex.Exclusive.{set_exclusive_granule, reserve, consume_reservation}
use kinetis_k22_sim.Cortex.Exclusive.Reservation.{
  observe_writes, all_miss, consume_reservation-reserve,
}

abbrev monitored : Cpu
monitored = record core { exclusive_granule = 16 }

consume_reservation-reserve_example :
    ((consume_reservation
        (observe_writes (reserve monitored 0x20000104 4) ((0x20000110, 4) ∷ []))
        0x20000104
        4).1
      ≡ all_miss 4 0x20000104 ((0x20000110, 4) ∷ []))
    × ((consume_reservation
          (consume_reservation
            (observe_writes (reserve monitored 0x20000104 4) ((0x20000110, 4) ∷ []))
            0x20000104
            4).0
          0x20000104
          4).1
        ≡ false)
consume_reservation-reserve_example =
    consume_reservation-reserve monitored 4 0x20000104 4 ((0x20000110, 4) ∷ []) refl (omega arith)
      (omega arith) refl

hit_test : all_miss 4 0x20000104 ((0x2000010e, 2) ∷ []) ≡ false
hit_test = refl

granule_test : (set_exclusive_granule core 24).1 ≡ false
unfolding set_exclusive_granule
granule_test = refl
