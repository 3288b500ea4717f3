-- ===== src/Cortex/Mpu/Regions.antt =====
-- The region that decides on an address.
use kinetis_k22_sim.Base.{
  ℕ, zero, suc, ◌<◌, ◌≤◌, ◌==◌, ==→≡, true, false, Bool-cases, ◌≡◌, inl, inr, arith, Option, some,
  none,
}
use kinetis_k22_sim.Cortex.State.{Cpu}
use kinetis_k22_sim.Cortex.Mpu.{region_contains, matching_below, matching_region}

-- The choice among the regions below `count`: the highest one that contains the address.
pub data IsHighest (cpu : Cpu) (count address : ℕ) : Option ℕ → Type 0 where
  found :
      (region : ℕ)
      → region < count
      → region_contains cpu region address ≡ true
      → ((higher : ℕ)
          → suc region ≤ higher
          → higher < count
          → region_contains cpu higher address ≡ false)
      → IsHighest cpu count address (some region)
  missing :
      ((region : ℕ) → region < count → region_contains cpu region address ≡ false)
      → IsHighest cpu count address none

-- A fact of the regions below `count` and of `count` itself.
one_more :
    (cpu : Cpu) (count address low : ℕ)
    → region_contains cpu count address ≡ false
    → ((region : ℕ) → low ≤ region → region < count → region_contains cpu region address ≡ false)
    → (region : ℕ) → low ≤ region
    → region < suc count
    → region_contains cpu region address ≡ false
one_more cpu count address low last below region up down = elim (Bool-cases (region == count)) [
  | inl e ↦ rw (==→≡ region count e) last
  | inr n ↦ below region up (ground arith)
]

extend :
    (cpu : Cpu) (count address : ℕ) (choice : Option ℕ)
    → region_contains cpu count address ≡ false
    → IsHighest cpu count address choice
    → IsHighest cpu (suc count) address choice
extend cpu count address _ n (found region below holds above) =
    found region (omega arith) holds (one_more cpu count address (suc region) n above)
extend cpu count address _ n (missing none_contains) = missing (λ region down.
    one_more cpu count address 0 n (λ r low. none_contains r) region (omega arith) down)

matching_below-IsHighest :
    (cpu : Cpu) (count address : ℕ) → IsHighest cpu count address (matching_below cpu count address)
unfolding matching_below
matching_below-IsHighest cpu zero address = missing (λ region h. absurd (omega arith))
matching_below-IsHighest cpu (suc count) address =
    elim (Bool-cases (region_contains cpu count address)) [
      | inl e ↦ rw e (found count (omega arith) e (λ higher up down. absurd (omega arith)))
      | inr n ↦ rw n (
          extend cpu count address (matching_below cpu count address) n
            (matching_below-IsHighest cpu count address))
    ]

-- Of the regions that contain an address the one with the highest number decides on it; `none` is
-- the answer only if no region of the implementation contains it.
pub matching_region-IsHighest :
    (cpu : Cpu) (address : ℕ)
    → IsHighest cpu cpu.mpu_region_count address (matching_region cpu address)
unfolding matching_region
matching_region-IsHighest cpu address = matching_below-IsHighest cpu cpu.mpu_region_count address
