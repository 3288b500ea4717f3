-- ===== src/Cortex/Alu/Shifter.antt =====
-- Where the shifter moves each digit.
use kinetis_k22_sim.Base.{
  ℕ, ◌+◌, ◌-◌, ◌*◌, ◌/◌, ◌^◌, ◌%◌, ◌<◌, bit_and, bit_or, Bool, false, ◌&&◌, ltb, leb, ◌==◌, ◌!=◌,
  if◌then◌else◌, ◌<<◌, flag, u32, bit, ◌≡◌, ap, ◌∙◌, arith, bit-or, bit-shl, bit-shr, bit-mod,
  bit_above, bit-not32, flag-pow, bit-zero, bit_and_one, bit_and_three, bit_and_thirty_one,
}
use kinetis_k22_sim.Cortex.Alu.{
  shift, right_amount, shift_left, shift_right_logical, shift_right_arithmetic, rotate_right,
}

-- The digit of the input that stands at digit `k` of the output, for a shift by 1 to 31.
abbrev pub moved : ℕ → ℕ → ℕ → ℕ → Bool
moved kind value amount k =
    if kind == 0
    then leb amount k && bit value (k - amount)
    else if kind == 1
    then ltb (k + amount) 32 && bit value (k + amount)
    else if kind == 2
    then bit value (if ltb (k + amount) 32 then k + amount else 31)
    else bit value ((k + amount) % 32)

-- The last digit that leaves the word, which is the carry.
abbrev pub shifted_out : ℕ → ℕ → ℕ → Bool
shifted_out kind value amount =
    if kind == 0 then bit value (32 - amount) else bit value (amount - 1)

low_digit : (x : ℕ) → (bit_and x 1 != 0) ≡ bit x 0
low_digit x = rw bit_and_one (unfold bit in ground arith)

ones_digit :
    (a k : ℕ) → 0 < a → a < 32 → k < 32 → bit (u32 (0xffffffff << (32 - a))) k ≡ leb (32 - a) k
ones_digit a k pos below hk = ground (
  arith,
  bit-mod (0xffffffff * 2 ^ (32 - a)) 32 k,
  bit-shl 0xffffffff (32 - a) k,
  bit-not32 0 (k - (32 - a)),
  bit-zero (k - (32 - a)),
)

left_digits :
    (v a k : ℕ) (c : Bool)
    → v < 2 ^ 32
    → 0 < a
    → a < 32
    → k < 32
    → (bit (shift_left v a c).value k ≡ moved 0 v a k)
      × ((shift_left v a c).carry ≡ shifted_out 0 v a)
unfolding shift_left
left_digits v a k c hv pos below hk = (
  ground (arith, bit-mod (v * 2 ^ a) 32 k, bit-shl v a k),
  ground (arith, low_digit (v / 2 ^ (32 - a)), bit-shr v (32 - a) 0),
)

right_digits :
    (v a k : ℕ)
    → v < 2 ^ 32
    → 0 < a
    → a < 32
    → k < 32
    → (bit (shift_right_logical v a).value k ≡ moved 1 v a k)
      × ((shift_right_logical v a).carry ≡ shifted_out 1 v a)
unfolding shift_right_logical right_amount
right_digits v a k hv pos below hk = (
  ground (arith, bit-shr v a k, bit_above 32 v (k + a)),
  ground (arith, low_digit (v / 2 ^ (a - 1)), bit-shr v (a - 1) 0),
)

arithmetic_digits :
    (v a k : ℕ)
    → v < 2 ^ 32
    → 0 < a
    → a < 32
    → k < 32
    → (bit (shift_right_arithmetic v a).value k ≡ moved 2 v a k)
      × ((shift_right_arithmetic v a).carry ≡ shifted_out 2 v a)
unfolding shift_right_arithmetic right_amount
arithmetic_digits v a k hv pos below hk = (
  ground (
    arith,
    flag-pow v 31,
    bit-or (v / 2 ^ a) (u32 (0xffffffff << (32 - a))) k,
    ones_digit a k pos below hk,
    bit-shr v a k,
    bit_above 32 v (k + a),
  ),
  ground (arith, low_digit (v / 2 ^ (a - 1)), bit-shr v (a - 1) 0),
)

rotates :
    (v a : ℕ) (c : Bool)
    → 0 < a
    → a < 32
    → let result = bit_or (v / 2 ^ a) (u32 (v << (32 - a))) in
      rotate_right v a c ≡ record { value = result; carry = flag result 0x80000000 }
unfolding rotate_right
rotates v a c pos below =
    let e : bit_and a 31 ≡ a = omega (arith, bit_and_thirty_one a) in
    let nonzero : (a == 0) ≡ false = ground arith in rw e (rw nonzero)

rotated_digit :
    (v a k : ℕ)
    → v < 2 ^ 32
    → 0 < a
    → a < 32
    → k < 32
    → bit (bit_or (v / 2 ^ a) (u32 (v << (32 - a)))) k ≡ bit v ((k + a) % 32)
rotated_digit v a k hv pos below hk = ground (
  arith,
  bit-or (v / 2 ^ a) (u32 (v << (32 - a))) k,
  bit-shr v a k,
  bit-mod (v * 2 ^ (32 - a)) 32 k,
  bit-shl v (32 - a) k,
  bit_above 32 v (k + a),
)

rotate_digits :
    (v a k : ℕ) (c : Bool)
    → v < 2 ^ 32
    → 0 < a
    → a < 32
    → k < 32
    → (bit (rotate_right v a c).value k ≡ moved 3 v a k)
      × ((rotate_right v a c).carry ≡ shifted_out 3 v a)
rotate_digits v a k c hv pos below hk = rw (rotates v a c pos below) (
  rotated_digit v a k hv pos below hk,
  flag-pow (bit_or (v / 2 ^ a) (u32 (v << (32 - a)))) 31
      ∙ rotated_digit v a 31 hv pos below (omega arith)
      ∙ ap (bit v) (let e : (31 + a) % 32 ≡ a - 1 = omega arith in e),
)

-- For the four kinds of shift, a 32-bit operand and an amount from 1 to 31, each digit of the
-- result is the one that `moved` names, and the carry is the last digit moved out.
pub shift_digits :
    (v kind a k : ℕ) (c : Bool)
    → v < 2 ^ 32
    → kind < 4
    → 0 < a
    → a < 32
    → k < 32
    → (bit (shift v kind a c).value k ≡ moved kind v a k)
      × ((shift v kind a c).carry ≡ shifted_out kind v a)
unfolding shift
shift_digits v kind a k c hv hkind pos below hk = ground (
  arith,
  bit_and_three kind,
  left_digits v a k c hv pos below hk,
  right_digits v a k hv pos below hk,
  arithmetic_digits v a k hv pos below hk,
  rotate_digits v a k c hv pos below hk,
)
