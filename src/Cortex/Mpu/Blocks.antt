-- ===== src/Cortex/Mpu/Blocks.antt =====
-- A region as an aligned block of addresses.
use kinetis_k22_sim.Base.{
  ℕ, ◌+◌, ◌-◌, ◌*◌, ◌/◌, ◌%◌, ◌^◌, ◌<◌, bit_and, not, ◌&&◌, ◌||◌, ltb, leb, ◌==◌, ◌!◌, ◌<<◌, ◌>>◌,
  flag, bit, high_mask, bit_and-lt, flag-pow, Bool-cases, ◌≡◌, inl, inr, arith,
}
use native.Mathlib.Nat.{
  one-le-pow, div-add-mod', mod-lt, mul-le-mul, add-mul, div-lt_iff_lt-mul, le_refl,
}
use kinetis_k22_sim.Cortex.State.{Cpu}
use kinetis_k22_sim.Cortex.Mpu.{not64, region_contains}

-- Addresses from `q * size` on, `size` of them, are those with the quotient `q`.
block_lem :
    (a q size : ℕ) → 0 < size → not (ltb a (q * size) || leb (q * size + size) a) ≡ (a / size == q)
block_lem a q size pos =
    let division = div-add-mod' a size in
    let rest = mod-lt a {m = size} pos in
    elim (Bool-cases (ltb (a / size) q)) [
      | inl below ↦
          let next =
            mul-le-mul {n₁ = a / size + 1} {m₁ = size} {n₂ = q} {m₂ = size} (ground arith)
              (le_refl size) in
          ground (arith, add-mul (a / size) 1 size)
      | inr up ↦ elim (Bool-cases (ltb q (a / size))) [
        | inl above ↦
            let next =
              mul-le-mul {n₁ = q + 1} {m₁ = size} {n₂ = a / size} {m₂ = size} (ground arith)
                (le_refl size) in
            ground (arith, add-mul q 1 size)
        | inr down ↦ let same : a / size ≡ q = ground arith in rw same (ground (arith, same))
      ]
    ]

-- The fields of the attributes, and the size of a region.
abbrev pub size_encoding : ℕ → ℕ
size_encoding attributes = bit_and attributes 0x3e >> 1

abbrev pub region_size : ℕ → ℕ
region_size attributes = 2 ^ (size_encoding attributes + 1)

encoding_bound : (attributes : ℕ) → size_encoding attributes < 32
encoding_bound attributes = let fits = bit_and-lt 6 attributes 0x3e (omega arith) in omega arith

rounded :
    (base n : ℕ)
    → n < 32
    → base < 2 ^ 32
    → bit_and base (not64 (1 << (n + 1) - 1)) ≡ base / 2 ^ (n + 1) * 2 ^ (n + 1)
rounded base n hn hb =
    let e : 1 * 2 ^ (n + 1) ≡ 2 ^ (n + 1) = omega arith in
    rw e (high_mask 64 (n + 1) base (omega arith) (omega arith))

eighth : (r size : ℕ) → 0 < size → r < size → r * 8 / size < 8
eighth r size pos h =
    let bound : r * 8 < 8 * size = omega arith in
    ground (arith, div-lt_iff_lt-mul {k = size} {x = r * 8} {y = 8} pos)

subregion_bit : (attributes k : ℕ) → (bit_and attributes (1 << k) == 0) ≡ not (bit attributes k)
unfolding flag
subregion_bit attributes k =
    let e : 1 * 2 ^ k ≡ 2 ^ k = omega arith in rw e (ground (arith, flag-pow attributes k))

offset : (a q size : ℕ) → 0 < size → a / size ≡ q → a - q * size ≡ a % size
offset a q size pos h = let division = div-add-mod' a size in rw (← h) (omega arith)

-- With a 32-bit base and address, a region contains the address exactly when it is enabled, has at
-- least 32 bytes, the address lies in the same aligned block of the region's size as the base,
-- and, from 256 bytes on, the subregion bit of the eighth that it lies in is clear.
pub region_contains_lem :
    (cpu : Cpu) (region address : ℕ)
    → cpu.mpu_region_base ! region < 2 ^ 32
    → address < 2 ^ 32
    → let attributes = cpu.mpu_region_attributes ! region in
      let size = region_size attributes in
      region_contains cpu region address
      ≡ flag attributes 1
        && leb 4 (size_encoding attributes)
        && (address / size == cpu.mpu_region_base ! region / size)
        && (ltb (size_encoding attributes) 7
            || not (bit attributes (address % size * 8 / size + 8)))
unfolding region_contains
region_contains_lem cpu region address hb ha =
    let attributes = cpu.mpu_region_attributes ! region in
    let base = cpu.mpu_region_base ! region in
    let n = size_encoding attributes in
    let size = 2 ^ (n + 1) in
    let pos : 0 < size = one-le-pow (n + 1) 2 (omega arith) in
    let e : 1 * 2 ^ (n + 1) ≡ size = omega arith in
    let start = rounded base n (encoding_bound attributes) hb in
    let block = block_lem address (base / size) size pos in
    let small = eighth (address % size) size pos (mod-lt address {m = size} pos) in
    let at_offset = offset address (base / size) size pos in
    let test = subregion_bit attributes (address % size * 8 / size + 8) in
    ground (arith, start, block, small, at_offset, test)
