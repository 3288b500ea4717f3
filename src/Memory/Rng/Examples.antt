-- ===== src/Memory/Rng/Examples.antt =====
-- The generator from its reset state.
use kinetis_k22_sim.Base.{ℕ, ◌<◌, ◌^◌, ◌≡◌, ◌==◌, refl, arith, flag, []}
use kinetis_k22_sim.Memory.Rng.{Rng, default_seed, rng_next, rng_advance}
use kinetis_k22_sim.Memory.Rng.Sequence.{mixed, rng_next_lem}

abbrev running : Rng
running = record {
  control = 3;
  status = 0x00010000;
  error = 0;
  output = 0;
  state = default_seed;
  cycles = 64;
  interrupts = [];
}

abbrev other : ℕ
other = 1

rng_next_lem_example :
    (rng_next default_seed ≡ mixed default_seed)
    × (0 < rng_next default_seed)
    × (rng_next default_seed < 2 ^ 32)
    × ((rng_next default_seed == rng_next other) ≡ (default_seed == other))
rng_next_lem_example =
    rng_next_lem default_seed other (omega arith) (omega arith) (omega arith) (omega arith)

ready_test : (rng_advance running 64).status ≡ 0x00010001
unfolding rng_advance flag
ready_test = refl

waiting_test : (rng_advance running 10).cycles ≡ 54
unfolding rng_advance flag
waiting_test = refl
