-- ===== src/Base/Mask.antt =====
-- Tests, sets and clears of single digits by a mask.
use Prim.Native.Nat.{
  ℕ, zero, suc, ◌+◌, ◌-◌, ◌*◌, ◌/◌, ◌%◌, ◌^◌, ◌<◌, ◌≤◌, bit_and, bit_or, bit_and-bitwise,
}
use Prim.Native.Nat.{max}
use native.Mathlib.Nat.{mul_assoc}
use mathlib.Core.Path.{◌≡◌, refl, ap, sym, ◌∙◌}
use mathlib.Core.Logic.{inl, inr}
use mathlib.Core.Bool.{Bool, true, false, false≢true}
use mathlib.Core.Bool.{not, ◌&&◌, ◌||◌}
use native.Mathlib.Nat.{pow-suc, one-le-pow, pow-le-pow_right, div-add-mod'}
use native.Mathlib.Omega.{arith}
use kinetis_k22_sim.Base.Tests.{Bool-cases, same, ==→≡, ◌==◌, ltb}
use kinetis_k22_sim.Base.Word.{bit, flag, not32}
use kinetis_k22_sim.Base.Step.{bit_and_step, bit_or_step}
use kinetis_k22_sim.Base.Bits.{
  bit-and, bit-or, bit-pow, bit-zero, bit_and-zero, mod_double, bit-not32, bits_ext, bit_and-lt,
  bit_or-lt,
}

-- A test by a mask of one digit.
pub flag-pow : (x k : ℕ) → flag x (2 ^ k) ≡ bit x k
unfolding flag bit
flag-pow x zero = ground (arith, bit_and_step x 1, bit_and-zero (x / 2))
flag-pow x (suc k) =
    let half : 2 ^ suc k / 2 ≡ 2 ^ k = omega (arith, pow-suc 2 k) in
    ground (arith, bit_and_step x (2 ^ suc k), half, pow-suc 2 k, flag-pow (x / 2) k)

pub bit-set : (x j k : ℕ) → bit (bit_or x (2 ^ j)) k ≡ (bit x k || (j == k))
bit-set x j k = rw (bit-or, bit-pow)

pub pow-lt_width : (j n : ℕ) → j < n → 2 ^ j < 2 ^ n
pow-lt_width j n h = omega (
  arith,
  pow-suc 2 j,
  one-le-pow j 2,
  pow-le-pow_right {n = 2} (omega arith) {i = suc j} {j = n} h,
)

pub bit-clear :
    (x j k : ℕ) → j < 32 → k < 32 → bit (bit_and x (not32 (2 ^ j))) k ≡ (bit x k && not (j == k))
bit-clear x j k hj hk = rw (bit-and, bit-not32 (2 ^ j) k (pow-lt_width j 32 hj) hk, bit-pow)

-- A mask of the `n` lowest digits is a remainder.
pub low_mask : (n a : ℕ) → bit_and a (2 ^ n - 1) ≡ a % 2 ^ n
low_mask zero a =
    let none : 2 ^ 0 - 1 ≡ 0 = omega arith in
    let one : 2 ^ 0 ≡ 1 = omega arith in rw none (bit_and-zero a ∙ (rw one (omega arith)))
low_mask (suc n) a =
    let half : (2 ^ suc n - 1) / 2 ≡ 2 ^ n - 1 = omega (arith, pow-suc 2 n, one-le-pow n 2) in
    let odd : (2 ^ suc n - 1) % 2 ≡ 1 = omega (arith, pow-suc 2 n, one-le-pow n 2) in
    let upper = low_mask n (a / 2) in
    let split : a % 2 ^ suc n ≡ a % 2 + 2 * (a / 2 % 2 ^ n) =
      ap (λ m. a % m) (pow-suc 2 n) ∙ mod_double a (2 ^ n) in
    let step = bit_and_step a (2 ^ suc n - 1) in ground (arith, half, odd, upper, split, step)

pub bit_and_one : (a : ℕ) → bit_and a 1 ≡ a % 2
bit_and_one = low_mask 1

pub bit_and_seven : (a : ℕ) → bit_and a 7 ≡ a % 8
bit_and_seven = low_mask 3

pub bit_and_thirty_one : (a : ℕ) → bit_and a 31 ≡ a % 32
bit_and_thirty_one = low_mask 5

pub flag-zero : (m : ℕ) → flag 0 m ≡ false
unfolding flag
flag-zero m = ground (arith, bit_and-bitwise 0 m)

-- A digit that two words share makes their conjunction nonzero.
pub flag_of_bit : (a m k : ℕ) → bit (bit_and a m) k ≡ true → flag a m ≡ true
unfolding flag
flag_of_bit a m k h = elim (Bool-cases (bit_and a m == 0)) [
  | inl none ↦ absurd (false≢true (sym (bit-zero k) ∙ (rw (==→≡ (bit_and a m) 0 none) at h)))
  | inr some ↦ rw some
]

pub bit_and_fifteen : (a : ℕ) → bit_and a 15 ≡ a % 16
bit_and_fifteen = low_mask 4

pub bit_and_three : (a : ℕ) → bit_and a 3 ≡ a % 4
bit_and_three = low_mask 2

-- Two tests that agree on all numbers below a bound, by evaluation.
unfoldable pub agree_below : ℕ → (ℕ → Bool) → (ℕ → Bool) → Bool
agree_below zero f g = true
agree_below (suc n) f g = same (f n) (g n) && agree_below n f g

pub agree_below_sound :
    (n : ℕ) (f g : ℕ → Bool) (k : ℕ) → agree_below n f g ≡ true → k < n → f k ≡ g k
unfolding agree_below
agree_below_sound zero f g k h lt = absurd (omega arith)
agree_below_sound (suc n) f g k h lt = elim (Bool-cases (k == n)) [
  | inl e ↦ rw (==→≡ k n e) (ground arith)
  | inr ne ↦ agree_below_sound n f g k (ground arith) (ground arith)
]

-- A mask that a word does not meet has its digits at zeros of the word.
pub bit_of_no_flag : (x m k : ℕ) → flag x m ≡ false → (bit x k && bit m k) ≡ false
unfolding flag
bit_of_no_flag x m k h =
    sym (bit-and x m k) ∙ (rw (==→≡ (bit_and x m) 0 (ground arith)) (bit-zero k))

-- A word is the sum of what a mask keeps and what its complement keeps.
and_split : (w x m : ℕ) → x < 2 ^ w → m < 2 ^ w → bit_and x m + bit_and x (2 ^ w - 1 - m) ≡ x
and_split zero x m hx hm =
    let empty : x ≡ 0 = omega arith in
    let none : m ≡ 0 = omega arith in rw (empty, none) (omega (arith, bit_and-zero 0))
and_split (suc w) x m hx hm =
    let p = pow-suc 2 w in
    let one = one-le-pow w 2 in
    let half : (2 ^ suc w - 1 - m) / 2 ≡ 2 ^ w - 1 - m / 2 = omega arith in
    let low : (2 ^ suc w - 1 - m) % 2 ≡ 1 - m % 2 = omega arith in
    let upper = and_split w (x / 2) (m / 2) (omega arith) (omega arith) in
    let first = bit_and_step x m in
    let second = bit_and_step x (2 ^ suc w - 1 - m) in
    ground (arith, half, low, upper, first, second)

-- The complement of the `n` lowest digits rounds down to a multiple of 2 ^ n.
pub high_mask :
    (w n x : ℕ) → n ≤ w → x < 2 ^ w → bit_and x (2 ^ w - 1 - (2 ^ n - 1)) ≡ x / 2 ^ n * 2 ^ n
high_mask w n x h hx =
    let fits : 2 ^ n ≤ 2 ^ w = pow-le-pow_right {n = 2} (omega arith) {i = n} {j = w} h in
    let one = one-le-pow n 2 in
    let split = and_split w x (2 ^ n - 1) hx (omega arith) in
    let low = low_mask n x in let division = div-add-mod' x (2 ^ n) in omega arith

-- A value that has only digits of a mask, and what keeps it so.
and_twice : (a b : Bool) → ((a && b) && b) ≡ (a && b)
and_twice a b = ground arith

and_between : (a b c : Bool) → (a && b) ≡ a → ((a && c) && b) ≡ (a && c)
and_between a b c h = ground arith

pub mask_twice : (x mask : ℕ) → mask < 2 ^ 32 → bit_and (bit_and x mask) mask ≡ bit_and x mask
mask_twice x mask h =
    bits_ext 32 (bit_and (bit_and x mask) mask) (bit_and x mask)
      (bit_and-lt 32 (bit_and x mask) mask h) (bit_and-lt 32 x mask h)
      (λ k lt.
        let outer = bit-and (bit_and x mask) mask k in
        let inner = bit-and x mask k in rw outer (rw inner (and_twice (bit x k) (bit mask k))))

pub mask_sub :
    (x y mask : ℕ)
    → mask < 2 ^ 32
    → y < 2 ^ 32
    → bit_and x mask ≡ x
    → bit_and (bit_and x y) mask ≡ bit_and x y
mask_sub x y mask h hy only =
    bits_ext 32 (bit_and (bit_and x y) mask) (bit_and x y) (bit_and-lt 32 (bit_and x y) mask h)
      (bit_and-lt 32 x y hy)
      (λ k lt.
        let outer = bit-and (bit_and x y) mask k in
        let inner = bit-and x y k in
        let digit : (bit x k && bit mask k) ≡ bit x k =
          sym (bit-and x mask k) ∙ ap (λ t. bit t k) only in
        rw outer (rw inner (and_between (bit x k) (bit mask k) (bit y k) digit)))

masked_digit :
    (old clear written part mask : Bool)
    → (old && mask) ≡ old
    → (part && mask) ≡ part
    → (((old && clear) || (written && part)) && mask) ≡ ((old && clear) || (written && part))
masked_digit old clear written part mask h h' = ground arith

-- A write of the digits `part` of a word leaves it within the mask that it and `part` are in.
pub mask_merge :
    (old clear written part mask : ℕ)
    → clear < 2 ^ 32
    → part < 2 ^ 32
    → mask < 2 ^ 32
    → bit_and old mask ≡ old
    → bit_and part mask ≡ part
    → bit_and (bit_or (bit_and old clear) (bit_and written part)) mask
      ≡ bit_or (bit_and old clear) (bit_and written part)
mask_merge old clear written part mask hc hp hm kept own =
    let word = bit_or (bit_and old clear) (bit_and written part) in
    bits_ext 32 (bit_and word mask) word (bit_and-lt 32 word mask hm)
      (bit_or-lt 32 (bit_and old clear) (bit_and written part) (bit_and-lt 32 old clear hc)
        (bit_and-lt 32 written part hp))
      (λ k lt.
        let old_kept = sym (bit-and old mask k) ∙ ap (λ x. bit x k) kept in
        let part_kept = sym (bit-and part mask k) ∙ ap (λ x. bit x k) own in
        rw
          (
            bit-and word mask k,
            bit-or (bit_and old clear) (bit_and written part) k,
            bit-and old clear k,
            bit-and written part k,
          )
          (masked_digit (bit old k) (bit clear k) (bit written k) (bit part k) (bit mask k) old_kept
            part_kept))

-- The digits of a mask of the `n` lowest digits.
pub bit-ones : (n k : ℕ) → bit (2 ^ n - 1) k ≡ ltb k n
unfolding bit
bit-ones zero k = let none : 2 ^ 0 - 1 ≡ 0 = omega arith in rw (none, bit-zero k) (ground arith)
bit-ones (suc n) zero = ground (arith, pow-suc 2 n, one-le-pow n 2)
bit-ones (suc n) (suc k) =
    let half : (2 ^ suc n - 1) / 2 ≡ 2 ^ n - 1 = omega (arith, pow-suc 2 n, one-le-pow n 2) in
    rw half (bit-ones n k ∙ (ground arith))

lt-pow : (n : ℕ) → n < 2 ^ n
lt-pow zero = omega arith
lt-pow (suc n) = omega (arith, pow-suc 2 n, lt-pow n, one-le-pow n 2)

or_zero : (n a : ℕ) → a < 2 ^ n → bit_or a 0 ≡ a
or_zero zero a fits = let none : a ≡ 0 = omega arith in rw none (bit_or_step 0 0 ∙ (ground arith))
or_zero (suc n) a fits =
    let rest = or_zero n (a / 2) (omega (arith, pow-suc 2 n)) in
    let step = bit_or_step a 0 in ground arith

-- Words without a common digit: one above the other.
pub bit_or-shl : (n a b : ℕ) → b < 2 ^ n → bit_or (a * 2 ^ n) b ≡ a * 2 ^ n + b
bit_or-shl zero a b fits =
    let none : b ≡ 0 = omega arith in
    let whole = or_zero (a * 2 ^ 0) (a * 2 ^ 0) (lt-pow (a * 2 ^ 0)) in rw none (ground arith)
bit_or-shl (suc n) a b fits =
    let p = pow-suc 2 n in
    let split : a * 2 ^ suc n ≡ a * 2 ^ n * 2 = ap (λ x. a * x) p ∙ sym (mul_assoc a (2 ^ n) 2) in
    let half : a * 2 ^ suc n / 2 ≡ a * 2 ^ n = omega arith in
    let even : a * 2 ^ suc n % 2 ≡ 0 = omega arith in
    let rest = bit_or-shl n a (b / 2) (omega arith) in
    let step : bit_or (a * 2 ^ suc n) b
        ≡ bit_or (a * 2 ^ suc n / 2) (b / 2) * 2 + max (a * 2 ^ suc n % 2) (b % 2) =
      bit_or_step (a * 2 ^ suc n) b in
    let above : bit_or (a * 2 ^ suc n) b ≡ bit_or (a * 2 ^ n) (b / 2) * 2 + max 0 (b % 2) =
      step ∙ (rw (half, even) refl) in
    ground arith

-- Zero has no flag.
pub flag_none : (mask : ℕ) → flag 0 mask ≡ false
unfolding flag
flag_none mask =
    let none : bit_and 0 mask ≡ 0 =
      bits_ext mask (bit_and 0 mask) 0 (bit_and-lt mask 0 mask (lt-pow mask))
        (omega (arith, lt-pow mask)) (λ k lt. bit-and 0 mask k ∙ (rw (bit-zero k) refl)) in
    ground arith
