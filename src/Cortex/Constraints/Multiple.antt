-- ===== src/Cortex/Constraints/Multiple.antt =====
-- Which loads and stores multiple are executed.
use kinetis_k22_sim.Base.{
  ℕ, zero, suc, ◌+◌, ◌-◌, ◌%◌, ◌/◌, ◌^◌, ◌<◌, ◌≤◌, Bool, true, false, not, ◌&&◌, ◌||◌, ◌==◌,
  if◌then◌else◌, ltb, bit_and, bit, bit_and_one, bit-zero, bit-and, bit-or, bit-pow, bits_ext,
  bit_and-lt, Bool-cases, ==→≡, inl, inr, bit_of_no_flag, bit-ones, flag, flag-pow, u8, ◌>>◌, ◌≡◌,
  refl, ap, ◌∙◌, arith,
}
use native.Mathlib.Nat.{pow-suc}
use kinetis_k22_sim.Cortex.State.{Cpu, is_armv6_m}
use kinetis_k22_sim.Cortex.Constraints.Selected.{
  is_nonfinal_it_instruction, count_digits, count_selected_registers, has_lower_selected_register,
}
use kinetis_k22_sim.Cortex.Constraints.Thumb16.{execute, undefined}
use kinetis_k22_sim.Cortex.Constraints.LoadStore.{is_multiple, has_invalid_multiple}
use kinetis_k22_sim.Cortex.Constraints.Check.{
  writes_pc_in_thumb32, is_invalid_thumb32, check_thumb32, check_instruction_constraints,
}

-- How many of the `n` lowest digits are set.
pub selected : ℕ → ℕ → ℕ
selected zero registers = 0
selected (suc n) registers = selected n registers + (if bit registers n then 1 else 0)

selected_step :
    (n registers : ℕ) → selected (suc n) registers ≡ registers % 2 + selected n (registers >> 1)
unfolding selected bit
selected_step zero registers = ground arith
selected_step (suc n) registers =
    let rest = selected_step n registers in
    let same : bit (registers / 2) n ≡ bit (registers >> 1) n = refl in ground arith

selected-zero : (n : ℕ) → selected n 0 ≡ 0
unfolding selected
selected-zero zero = refl
selected-zero (suc n) = let rest = selected-zero n in let none = bit-zero n in ground arith

count_digits-selected :
    (n registers count : ℕ)
    → registers < 2 ^ n
    → count + n < 256
    → count_digits n registers count ≡ count + selected n registers
unfolding count_digits selected
count_digits-selected zero registers count fits small = omega arith
count_digits-selected (suc n) registers count fits small = elim (Bool-cases (registers == 0)) [
  | inl none ↦
      let empty : registers ≡ 0 = ==→≡ registers 0 none in
      let nothing = ap (λ r. selected (suc n) r) empty ∙ selected-zero (suc n) in ground arith
  | inr some ↦
      let digit = bit_and_one registers in
      let low : u8 (count + bit_and registers 1) ≡ count + registers % 2 = omega arith in
      let half : registers >> 1 < 2 ^ n = omega (arith, pow-suc 2 n) in
      let rest =
        count_digits-selected n (registers >> 1) (count + registers % 2) half (omega arith) in
      let step = selected_step n registers in rw (some, low) (rest ∙ omega arith)
]

lower_digit :
    (registers index j : ℕ)
    → has_lower_selected_register registers index ≡ false
    → j < index
    → bit registers j ≡ false
unfolding has_lower_selected_register
lower_digit registers index j none below =
    let apart = bit_of_no_flag registers (2 ^ index - 1) j (ground arith) in
    let ones = bit-ones index j in ground arith

e880_no_load : (first : ℕ) → bit_and first 0xffd0 ≡ 0xe880 → flag first 0x10 ≡ false
unfolding bit
e880_no_load first same =
    let digit : bit (bit_and first 0xffd0) 4 ≡ false = ap (λ x. bit x 4) same in
    let fourth = bit-and first 0xffd0 4 in let load = flag-pow first 4 in ground arith

both_digits : (x : ℕ) → bit x 14 ≡ true → bit x 15 ≡ true → bit_and x 0xc000 ≡ 0xc000
both_digits x link program =
    bits_ext 16 (bit_and x 0xc000) 0xc000 (bit_and-lt 16 x 0xc000 (omega arith)) (omega arith)
      (λ k lt.
        let digits : bit 0xc000 k ≡ (14 == k || 15 == k) =
          bit-or (2 ^ 14) (2 ^ 15) k ∙ (rw (bit-pow 14 k, bit-pow 15 k) refl) in
        let shared = bit-and x 0xc000 k in
        elim (Bool-cases (14 == k)) [
          | inl fourteen ↦ let at_k = ap (λ i. bit x i) (==→≡ 14 k fourteen) in ground arith
          | inr other ↦ elim (Bool-cases (15 == k)) [
            | inl fifteen ↦ let at_k = ap (λ i. bit x i) (==→≡ 15 k fifteen) in ground arith
            | inr neither ↦ ground arith
          ]
        ])

executed :
    (invalid late : Bool)
    → (if invalid then undefined else if late then undefined else execute) ≡ execute
    → (invalid ≡ false) × (late ≡ false)
executed invalid late done = ground arith

valid_multiple :
    (first second : ℕ)
    → is_invalid_thumb32 first second ≡ false
    → has_invalid_multiple first second ≡ false
unfolding is_invalid_thumb32
valid_multiple first second valid = ground arith

-- What `has_invalid_multiple` lets pass, by digits.
allowed_multiple :
    (first second : ℕ)
    → is_multiple first ≡ true
    → has_invalid_multiple first second ≡ false
    → let load = flag first 0x10 in
      let base = bit_and first 15 in
      let base_listed = flag first 0x20 && bit second base in
      ((base == 15) ≡ false)
      × (bit second 13 ≡ false)
      × (2 ≤ count_selected_registers second)
      × ((not load && bit second 15) ≡ false)
      × ((load && bit_and second 0xc000 == 0xc000) ≡ false)
      × ((load && base_listed) ≡ false)
      × ((not load && base_listed && has_lower_selected_register second base) ≡ false)
unfolding has_invalid_multiple
allowed_multiple first second multiple allowed =
    let stack = flag-pow second 13 in
    let program = flag-pow second 15 in
    let listed = flag-pow second (bit_and first 15) in
    (
      ground arith,
      ground arith,
      ground arith,
      ground arith,
      ground arith,
      ground arith,
      ground arith,
    )

loaded_pc :
    (first second : ℕ)
    → is_multiple first ≡ true
    → (flag first 0x10 && bit second 15) ≡ true
    → writes_pc_in_thumb32 first second ≡ true
unfolding writes_pc_in_thumb32
loaded_pc first second multiple loads =
    let program = flag-pow second 15 in
    let store = e880_no_load first in
    let kind : (bit_and first 0xffd0 == 0xe890
          || (bit_and first 0xffc0 == 0xe900 && flag first 0x0010))
        ≡ true =
      ground arith in
    ground arith

-- A 32-bit load or store multiple that an Armv7E-M core executes, with a list of 16 digits, has a
-- base other than PC, does not transfer SP, and transfers at least two registers; a store does not
-- transfer PC, and a load not both LR and PC. With write-back, the base is not in the list of a load,
-- and no register below it is in the list of a store that has it in the list. Inside an IT block only
-- the last instruction loads PC.
pub check-multiple :
    (cpu : Cpu) (first second j : ℕ)
    → is_armv6_m cpu.architecture ≡ false
    → is_multiple first ≡ true
    → second < 2 ^ 16
    → check_instruction_constraints cpu first second true ≡ execute
    → let load = flag first 0x10 in
      let base_listed = flag first 0x20 && bit second (bit_and first 15) in
      ((bit_and first 15 == 15) ≡ false)
      × (bit second 13 ≡ false)
      × (2 ≤ selected 16 second)
      × ((not load && bit second 15) ≡ false)
      × ((load && bit second 14 && bit second 15) ≡ false)
      × ((load && base_listed) ≡ false)
      × ((not load && base_listed && ltb j (bit_and first 15) && bit second j) ≡ false)
      × ((is_nonfinal_it_instruction cpu && load && bit second 15) ≡ false)
unfolding check_instruction_constraints check_thumb32
check-multiple cpu first second j v7 multiple fits done =
    let passed =
      executed (is_invalid_thumb32 first second)
        (is_nonfinal_it_instruction cpu && writes_pc_in_thumb32 first second) (ground arith) in
    let allowed = valid_multiple first second (passed.0) in
    let kept = allowed_multiple first second multiple allowed in
    let pc = loaded_pc first second multiple in
    let count = count_digits-selected 16 second 0 fits (omega arith) in
    let lower = lower_digit second (bit_and first 15) j in
    let both = both_digits second in
    (
      ground arith,
      ground arith,
      ground arith,
      ground arith,
      ground arith,
      ground arith,
      ground arith,
      ground arith,
    )
