-- ===== src/Cortex/Dsp/Clamp.antt =====
-- The saturating instructions hold a result at the bounds of its width.
use kinetis_k22_sim.Base.{
  ℕ, ◌-◌, ◌^◌, ◌≤◌, Bool, true, false, ◌&&◌, ◌||◌, ◌==◌, if◌then◌else◌, bit_and, ◌>>◌, ◌!◌,
  Bool-cases, inl, inr, sym, List, length, set, get_or-set, get_or-set_self, bit, bit-set,
  bit_and_fifteen, ◌<◌, Option, none, some, ◌≡◌, refl, ap, ◌∙◌, arith,
}
use kinetis_k22_sim.Base.Int.{ℤ, pos, negsuc, ltb_ℤ, ◌+ℤ◌, ◌-ℤ◌, ◌*ℤ◌, signed, to_word}
use native.Mathlib.Nat.{pow-le-pow_right, one-le-pow}
use kinetis_k22_sim.Cortex.State.{Cpu}
use kinetis_k22_sim.Cortex.Dsp.Lanes.{low_field, destination_field, are_valid, signed_saturate}
use kinetis_k22_sim.Cortex.Dsp.Saturation.{put_saturated, scalar_q, execute_scalar_q}

-- -2 ^ (width - 1) and 2 ^ (width - 1) - 1.
abbrev pub lowest : ℕ → ℤ
lowest width = negsuc (2 ^ (width - 1) - 1)

abbrev pub highest : ℕ → ℤ
highest width = pos (2 ^ (width - 1) - 1)

abbrev pub is_outside : ℕ → ℤ → Bool
is_outside width value = ltb_ℤ value (lowest width) || ltb_ℤ (highest width) value

abbrev pub clamp : ℕ → ℤ → ℤ
clamp width value =
    if ltb_ℤ value (lowest width)
    then lowest width
    else if ltb_ℤ (highest width) value
    then highest width
    else value

signed-to_word : (value : ℤ) → is_outside 32 value ≡ false → signed 32 (to_word 32 value) ≡ value
signed-to_word (pos n) inside = ground arith
signed-to_word (negsuc n) inside = ground arith

width_lt : (width : ℕ) → 1 ≤ width → width ≤ 32 → 2 ^ (width - 1) ≤ 2 ^ 31
width_lt width one fits =
    pow-le-pow_right {n = 2} (omega arith) {i = width - 1} {j = 31} (omega arith)

narrow :
    (width : ℕ) (value : ℤ) → 1 ≤ width → width ≤ 32 → is_outside 32 (clamp width value) ≡ false
narrow width (pos n) one fits =
    let small = width_lt width one fits in let some_value = one-le-pow (width - 1) 2 in ground arith
narrow width (negsuc n) one fits =
    let small = width_lt width one fits in let some_value = one-le-pow (width - 1) 2 in ground arith

signed_saturate_word :
    (value : ℤ) (width : ℕ) (before : Bool)
    → signed_saturate value width before
      ≡ (to_word 32 (clamp width value), is_outside width value || before)
unfolding signed_saturate
signed_saturate_word value width before = elim (Bool-cases (ltb_ℤ value (lowest width))) [
  | inl below ↦ rw below refl
  | inr above ↦ elim (Bool-cases (ltb_ℤ (highest width) value)) [
    | inl over ↦ rw (above, over) refl
    | inr inside ↦ rw (above, inside) refl
  ]
]

-- The value is clamped to the width, and the flag tells that it was outside, or was set before.
signed_saturate_lem :
    (value : ℤ) (width : ℕ) (before : Bool)
    → 1 ≤ width
    → width ≤ 32
    → let out = signed_saturate value width before in
      (signed 32 (out.0) ≡ clamp width value) × (out.1 ≡ (is_outside width value || before))
signed_saturate_lem value width before one fits =
    let word = signed_saturate_word value width before in
    (
      ap (λ (out : ℕ × Bool). signed 32 (out.0)) word
          ∙ signed-to_word (clamp width value) (narrow width value one fits),
      ap (λ (out : ℕ × Bool). out.1) word,
    )

or_false : (b : Bool) → (b || false) ≡ b
or_false true = refl
or_false false = refl

abbrev pub doubles : ℕ → Bool
doubles operation = operation == 1 || operation == 3

-- What QADD, QDADD, QSUB and QDSUB compute before the result is clamped.
abbrev pub exact_q : ℕ → ℤ → ℤ → ℤ
exact_q operation left right =
    let operand = if doubles operation then clamp 32 (right *ℤ pos 2) else right in
    if operation == 2 || operation == 3 then left -ℤ operand else left +ℤ operand

scalar_q_lem :
    (operation l r : ℕ)
    → let left = signed 32 l in
      let right = signed 32 r in
      let result = scalar_q operation l r in
      (signed 32 (result.0) ≡ clamp 32 (exact_q operation left right))
      × (result.1 ≡ (
          is_outside 32 (exact_q operation left right)
          || (doubles operation && is_outside 32 (right *ℤ pos 2))))
unfolding scalar_q
scalar_q_lem operation l r =
    let twice = signed 32 r *ℤ pos 2 in
    let doubled = signed_saturate_lem twice 32 false (omega arith) (omega arith) in
    let flagged : (signed_saturate twice 32 false).1 ≡ is_outside 32 twice =
      doubled.1 ∙ or_false (is_outside 32 twice) in
    let exact = exact_q operation (signed 32 l) (signed 32 r) in
    let result =
      signed_saturate_lem exact 32 (doubles operation && is_outside 32 twice) (omega arith)
        (omega arith) in
    rw (doubled.0, flagged) result

abbrev pub is_some : Option Cpu → Bool
is_some (some cpu) = true
is_some none = false

-- The core after an instruction, and the core before one that is not executed.
abbrev pub after : Cpu → Option Cpu → Cpu
after cpu (some executed) = executed
after cpu none = cpu

put_saturated-registers :
    (cpu : Cpu) (destination : ℕ) (q : ℕ × Bool)
    → (put_saturated cpu destination q).registers ≡ set cpu.registers destination (q.0)
unfolding put_saturated
put_saturated-registers cpu destination (value, true) = refl
put_saturated-registers cpu destination (value, false) = refl

bit-put_saturated :
    (cpu : Cpu) (destination : ℕ) (q : ℕ × Bool) (k : ℕ)
    → bit (put_saturated cpu destination q).xpsr k ≡ (bit cpu.xpsr k || (k == 27 && q.1))
unfolding put_saturated
bit-put_saturated cpu destination (value, true) k = let one = bit-set cpu.xpsr 27 k in ground arith
bit-put_saturated cpu destination (value, false) k = ground arith

-- On a core with 16 registers, QADD, QDADD, QSUB and QDSUB (operations 0 to 3) between general
-- registers put into the destination the sum or the difference of the signed readings, the second one
-- doubled and clamped for QDADD and QDSUB, clamped to 32 bits. They set the Q flag, bit 27 of the
-- xPSR, if something was clamped, and keep every other bit of the xPSR and every other register.
pub execute_scalar_q_lem :
    (cpu : Cpu) (first second j k : ℕ)
    → length cpu.registers ≡ 16
    → bit_and first 0xfff0 ≡ 0xfa80
    → bit_and second 0xf080 ≡ 0xf080
    → are_valid first second ≡ true
    → let operation = bit_and (second >> 4) 3 in
      let left = signed 32 (cpu.registers ! low_field second) in
      let right = signed 32 (cpu.registers ! low_field first) in
      let destination = destination_field second in
      let exact = exact_q operation left right in
      let clamped = is_outside 32 exact || (doubles operation && is_outside 32 (right *ℤ pos 2)) in
      let out = after cpu (execute_scalar_q cpu first second) in
      (is_some (execute_scalar_q cpu first second) ≡ true)
      × (signed 32 (out.registers ! destination) ≡ clamp 32 exact)
      × (out.registers ! j
          ≡ (if destination == j then out.registers ! destination else cpu.registers ! j))
      × (bit out.xpsr k ≡ (bit cpu.xpsr k || (k == 27 && clamped)))
unfolding execute_scalar_q
execute_scalar_q_lem cpu first second j k cells kind form valid =
    let destination = destination_field second in
    let q =
      scalar_q (bit_and (second >> 4) 3) (cpu.registers ! low_field second)
        (cpu.registers ! low_field first) in
    let result =
      scalar_q_lem (bit_and (second >> 4) 3) (cpu.registers ! low_field second)
        (cpu.registers ! low_field first) in
    let done : execute_scalar_q cpu first second ≡ some (put_saturated cpu destination q) =
      rw (kind, form, valid) refl in
    let small : destination < 16 = ground (arith, bit_and_fifteen (second >> 8)) in
    let self = get_or-set_self cpu.registers destination (q.0) 0 (omega (arith, cells)) in
    let cell = get_or-set cpu.registers destination j (q.0) 0 (omega (arith, cells)) in
    let word = put_saturated-registers cpu destination q in
    let flags = bit-put_saturated cpu destination q k in
    rw done (
      refl,
      ap (λ (cells : List ℕ). signed 32 (cells ! destination)) word
          ∙ ap (λ x. signed 32 x) self
          ∙ result.0,
      ap (λ (cells : List ℕ). cells ! j) word
          ∙ cell
          ∙ ap (λ x. if destination == j then x else cpu.registers ! j)
              (sym (ap (λ (cells : List ℕ). cells ! destination) word ∙ self)),
      flags ∙ ap (λ b. bit cpu.xpsr k || (k == 27 && b)) (result.1),
    )
