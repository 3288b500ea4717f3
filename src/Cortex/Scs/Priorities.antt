-- ===== src/Cortex/Scs/Priorities.antt =====
-- system.c: the bits of a priority byte, of which the core implements the highest `priority_bits`.
use kinetis_k22_sim.Base.{
  ℕ, zero, suc, List, [], ◌∷◌, set, u8, replicate, Bool, true, ◌&&◌, ltb, ◌==◌, if◌then◌else◌, ◌+◌,
  ◌-◌, ◌*◌, ◌/◌, ◌%◌, ◌^◌, ◌<◌, ◌≤◌, ◌≡◌, refl, arith, bit_and, ◌<<◌, ◌>>◌, for_range,
  for_range_inv, high_mask, bit_and-lt, ap, sym, ◌∙◌,
}
use native.Mathlib.Nat.{mul-mod_left, one-le-pow, pow-le-pow_right}
use kinetis_k22_sim.Cortex.State.{Cpu}
use kinetis_k22_sim.Cortex.Scs.Write.{priority_mask}

-- Bytes whose digits below the implemented ones are 0.
abbrev pub are_priorities : ℕ → List ℕ → Bool
are_priorities unused [] = true
are_priorities unused (x ∷ xs) = x % 2 ^ unused == 0 && ltb x 256 && are_priorities unused xs

pub zeros_priorities : (unused n : ℕ) → are_priorities unused (replicate n 0) ≡ true
zeros_priorities unused zero = refl
zeros_priorities unused (suc n) =
    let rest = zeros_priorities unused n in
    let product : 0 * 2 ^ unused ≡ 0 = omega arith in
    let none : 0 % 2 ^ unused ≡ 0 =
      sym (ap (λ x. x % 2 ^ unused) product) ∙ mul-mod_left 0 (2 ^ unused) in
    ground arith

set-priorities :
    (unused : ℕ) (xs : List ℕ) (i v : ℕ)
    → v % 2 ^ unused ≡ 0
    → v < 256
    → are_priorities unused xs ≡ true
    → are_priorities unused (set xs i v) ≡ true
set-priorities unused [] i v low small all = refl
set-priorities unused (x ∷ xs) zero v low small all = ground arith
set-priorities unused (x ∷ xs) (suc i) v low small all =
    let rest = set-priorities unused xs i v low small (ground arith) in ground arith

mask_lem : (unused : ℕ) → unused ≤ 8 → u8 (0xff << unused) ≡ 2 ^ 8 - 1 - (2 ^ unused - 1)
mask_lem unused le =
    let one = one-le-pow unused 2 in
    let fits : 2 ^ unused ≤ 2 ^ 8 =
      pow-le-pow_right {n = 2} (omega arith) {i = unused} {j = 8} le in
    omega arith

-- The value that a write puts into a priority byte.
written_priority :
    (cpu : Cpu) (value : ℕ)
    → value < 256
    → let kept = bit_and value (priority_mask cpu) in
      (kept % 2 ^ (8 - cpu.priority_bits) ≡ 0) × (kept < 256)
written_priority cpu value small =
    let unused = 8 - cpu.priority_bits in
    let high = high_mask 8 unused value (omega arith) small in
    let kept : bit_and value (priority_mask cpu) ≡ value / 2 ^ unused * 2 ^ unused =
      ap (λ m. bit_and value m) (mask_lem unused (omega arith)) ∙ high in
    (
      ap (λ x. x % 2 ^ unused) kept ∙ mul-mod_left (value / 2 ^ unused) (2 ^ unused),
      bit_and-lt 8 value (priority_mask cpu) (omega arith),
    )

-- A write of priority bytes, of those that `test` lets through, implements no further bits.
pub priority_bytes_ok :
    (cpu : Cpu) (test : ℕ → Bool) (byte_offset byte_count value : ℕ) (xs : List ℕ)
    → are_priorities (8 - cpu.priority_bits) xs ≡ true
    → are_priorities (8 - cpu.priority_bits) (
        for_range byte_count 0
          (λ i priorities.
            if test i
            then set priorities
                (byte_offset + i)
                (bit_and (u8 (value >> (i * 8))) (priority_mask cpu))
            else priorities)
          xs)
      ≡ true
priority_bytes_ok cpu test byte_offset byte_count value xs all =
    let unused = 8 - cpu.priority_bits in
    for_range_inv (λ i priorities. are_priorities unused priorities ≡ true) _ byte_count
      (λ i priorities lt kept.
        let own = written_priority cpu (u8 (value >> (i * 8))) (omega arith) in
        let written =
          set-priorities unused priorities (byte_offset + i)
            (bit_and (u8 (value >> (i * 8))) (priority_mask cpu)) own.0 own.1 kept in
        ground arith)
      byte_count 0 xs (omega arith) all
