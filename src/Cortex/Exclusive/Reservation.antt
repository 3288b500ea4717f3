-- ===== src/Cortex/Exclusive/Reservation.antt =====
-- When an exclusive store succeeds.
use kinetis_k22_sim.Base.{
  ℕ, ◌+◌, ◌*◌, ◌/◌, ◌^◌, ◌<◌, ◌≤◌, Bool, true, false, ◌&&◌, ◌||◌, leb, ◌==◌, List, [], ◌∷◌, ◌≡◌,
  refl, arith, high_mask,
}
use native.Mathlib.Nat.{one-le-pow}
use kinetis_k22_sim.Cortex.State.{Cpu}
use kinetis_k22_sim.Cortex.Exclusive.{ranges_overlap, reserve, consume_reservation, observe_write}

-- Writes of the core and of the devices, one after the other, as pairs of address and size.
abbrev pub observe_writes : Cpu → List (ℕ × ℕ) → Cpu
observe_writes cpu [] = cpu
observe_writes cpu (write ∷ writes) = observe_writes (observe_write cpu write.0 write.1) writes

-- No byte of a write lies in the granule of 2 ^ n bytes that contains the address.
abbrev pub misses : ℕ → ℕ → ℕ × ℕ → Bool
misses n address write =
    write.1 == 0
    || leb (write.0 + write.1) (address / 2 ^ n * 2 ^ n)
    || leb (address / 2 ^ n * 2 ^ n + 2 ^ n) write.0

abbrev pub all_miss : ℕ → ℕ → List (ℕ × ℕ) → Bool
all_miss n address [] = true
all_miss n address (write ∷ writes) = misses n address write && all_miss n address writes

-- Past the first write that hits, the reservation is gone.
gone :
    (cpu : Cpu) (writes : List (ℕ × ℕ))
    → cpu.exclusive_valid ≡ false
    → observe_writes cpu writes ≡ cpu
unfolding observe_write
gone cpu [] h = refl
gone cpu (write ∷ writes) h = let same = gone cpu writes h in ground arith

kept :
    (cpu : Cpu) (n address : ℕ) (writes : List (ℕ × ℕ))
    → cpu.exclusive_valid ≡ true
    → cpu.exclusive_granule ≡ 2 ^ n
    → 0 < 2 ^ n
    → cpu.exclusive_reservation_base ≡ address / 2 ^ n * 2 ^ n
    → (observe_writes cpu writes).exclusive_valid ≡ all_miss n address writes
      × ((observe_writes cpu writes).exclusive_granule ≡ cpu.exclusive_granule)
      × ((observe_writes cpu writes).exclusive_address ≡ cpu.exclusive_address)
      × ((observe_writes cpu writes).exclusive_size ≡ cpu.exclusive_size)
unfolding observe_write ranges_overlap
kept cpu n address [] valid granule pos base = (valid, refl, refl, refl)
kept cpu n address (write ∷ writes) valid granule pos base =
    let rest = kept cpu n address writes valid granule pos base in
    let lost = gone (record cpu { exclusive_valid = false }) writes refl in ground arith

-- With a granule of 2 ^ n bytes, an exclusive store to the address and with the size of the last
-- exclusive load succeeds exactly when no write since then has touched the granule around the
-- address; whether it succeeds or not, the next exclusive store fails.
pub consume_reservation-reserve :
    (cpu : Cpu) (n address size : ℕ) (writes : List (ℕ × ℕ))
    → cpu.exclusive_granule ≡ 2 ^ n
    → n ≤ 11
    → address < 2 ^ 32
    → (size == 1 || size == 2 || size == 4) ≡ true
    → let loaded = observe_writes (reserve cpu address size) writes in
      let stored = consume_reservation loaded address size in
      (stored.1 ≡ all_miss n address writes)
      × ((consume_reservation stored.0 address size).1 ≡ false)
unfolding consume_reservation reserve
consume_reservation-reserve cpu n address size writes granule small fits sized =
    let one = one-le-pow n 2 in
    let base = high_mask 32 n address (omega arith) fits in
    let reserved = reserve cpu address size in
    let whole : reserved.exclusive_reservation_base ≡ address / 2 ^ n * 2 ^ n = ground arith in
    let history =
      kept reserved n address writes (ground arith) (ground arith) (omega arith) whole in
    ground arith
