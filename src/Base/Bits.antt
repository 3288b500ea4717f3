-- ===== src/Base/Bits.antt =====
-- The digits of words: what each operation does to the k-th digit, and words by their digits.
use Prim.Native.Nat.{
  ℕ, zero, suc, ◌+◌, ◌-◌, ◌*◌, ◌/◌, ◌%◌, ◌^◌, ◌≤◌, ◌<◌, bit_and, bit_or, bit_xor, differ,
}
use mathlib.Core.Path.{◌≡◌, refl, sym, ap, ◌∙◌}
use mathlib.Core.Bool.{false, not, ◌&&◌, ◌||◌, xor}
use native.Mathlib.Nat.{
  pow-suc, sub-zero, mul_assoc, one-le-pow, zero-add, suc-add, le_refl, div-div-eq-div-mul,
}
use native.Mathlib.Omega.{arith}
use kinetis_k22_sim.Base.Tests.{◌==◌, ◌!=◌, leb, ltb}
use kinetis_k22_sim.Base.Word.{bit, not32, not16}
use kinetis_k22_sim.Base.Step.{bit_and_step, bit_or_step, bit_xor_step}

pub bit-and : (a b k : ℕ) → bit (bit_and a b) k ≡ (bit a k && bit b k)
unfolding bit
bit-and a b zero = ground (arith, bit_and_step a b)
bit-and a b (suc k) =
    let half : bit_and a b / 2 ≡ bit_and (a / 2) (b / 2) = omega (arith, bit_and_step a b) in
    rw half (bit-and (a / 2) (b / 2) k)

pub bit-or : (a b k : ℕ) → bit (bit_or a b) k ≡ (bit a k || bit b k)
unfolding bit
bit-or a b zero = ground (arith, bit_or_step a b)
bit-or a b (suc k) =
    let half : bit_or a b / 2 ≡ bit_or (a / 2) (b / 2) = omega (arith, bit_or_step a b) in
    rw half (bit-or (a / 2) (b / 2) k)

parity_differ : (x y : ℕ) → x < 2 → y < 2 → (differ x y % 2 == 1) ≡ xor (x == 1) (y == 1)
unfolding xor
parity_differ zero zero hx hy = refl
parity_differ zero (suc zero) hx hy = refl
parity_differ (suc zero) zero hx hy = refl
parity_differ (suc zero) (suc zero) hx hy = refl
parity_differ (suc (suc x)) y hx hy = absurd (omega arith)
parity_differ x (suc (suc y)) hx hy = absurd (omega arith)

differ-lt : (x y : ℕ) → x < 2 → y < 2 → differ x y < 2
differ-lt zero y hx hy = hy
differ-lt (suc zero) zero hx hy = omega arith
differ-lt (suc zero) (suc zero) hx hy = omega arith
differ-lt (suc zero) (suc (suc y)) hx hy = absurd (omega arith)
differ-lt (suc (suc x)) y hx hy = absurd (omega arith)

pub bit-xor : (a b k : ℕ) → bit (bit_xor a b) k ≡ xor (bit a k) (bit b k)
unfolding bit
bit-xor a b zero =
    let low : bit_xor a b % 2 ≡ differ (a % 2) (b % 2) % 2 = omega (arith, bit_xor_step a b) in
    rw low (parity_differ (a % 2) (b % 2) (omega arith) (omega arith))
bit-xor a b (suc k) =
    let half : bit_xor a b / 2 ≡ bit_xor (a / 2) (b / 2) =
      omega (arith, bit_xor_step a b, differ-lt (a % 2) (b % 2) (omega arith) (omega arith)) in
    rw half (bit-xor (a / 2) (b / 2) k)

pub bit-zero : (k : ℕ) → bit 0 k ≡ false
unfolding bit
bit-zero zero = refl
bit-zero (suc k) = bit-zero k

-- Digits below the width decide a word.
pub bits_ext : (n a b : ℕ) → a < 2 ^ n → b < 2 ^ n → ((k : ℕ) → k < n → bit a k ≡ bit b k) → a ≡ b
unfolding bit
bits_ext zero a b ha hb h = omega arith
bits_ext (suc n) a b ha hb h = ground (
  arith,
  h 0 (omega arith),
  bits_ext n (a / 2) (b / 2) (omega (arith, pow-suc 2 n)) (omega (arith, pow-suc 2 n))
      (λ k hk. h (suc k) (omega arith)),
)

pub bit_above : (n a k : ℕ) → a < 2 ^ n → n ≤ k → bit a k ≡ false
unfolding bit
bit_above zero a k ha h = let e : a ≡ 0 = omega arith in rw e (bit-zero k)
bit_above (suc n) a zero ha h = absurd (omega arith)
bit_above (suc n) a (suc k) ha h = bit_above n (a / 2) k (omega (arith, pow-suc 2 n)) (omega arith)

pub bit-shr : (a j k : ℕ) → bit (a / 2 ^ j) k ≡ bit a (j + k)
unfolding bit
bit-shr a zero k = let e : a / 2 ^ 0 ≡ a = omega arith in rw (e, zero-add)
bit-shr a (suc j) k =
    let p : 2 ^ suc j ≡ 2 * 2 ^ j = omega (arith, pow-suc 2 j) in
    let e : a / 2 ^ suc j ≡ a / 2 / 2 ^ j = rw p (sym (div-div-eq-div-mul a 2 (2 ^ j))) in
    rw (e, suc-add) (bit-shr (a / 2) j k)

no_digits : (size x : ℕ) → x ≤ size → bit_and x 0 ≡ 0
no_digits (suc size) (suc x) fits =
    let upper = no_digits size (suc x / 2) (omega arith) in omega (arith, bit_and_step (suc x) 0)
no_digits zero (suc x) fits = absurd (omega arith)
no_digits size zero fits = refl

pub bit_and-zero : (a : ℕ) → bit_and a 0 ≡ 0
bit_and-zero a = no_digits a a (le_refl _)

pub bit_and-lt : (n a b : ℕ) → b < 2 ^ n → bit_and a b < 2 ^ n
bit_and-lt zero a b h = let e : b ≡ 0 = omega arith in rw (e, bit_and-zero) (omega arith)
bit_and-lt (suc n) a b h = omega (
  arith,
  bit_and_step a b,
  pow-suc 2 n,
  bit_and-lt n (a / 2) (b / 2) (omega (arith, pow-suc 2 n)),
)

pub bit_or-lt : (n a b : ℕ) → a < 2 ^ n → b < 2 ^ n → bit_or a b < 2 ^ n
bit_or-lt zero a b ha hb =
    let ea : a ≡ 0 = omega arith in let eb : b ≡ 0 = omega arith in rw (ea, eb) (omega arith)
bit_or-lt (suc n) a b ha hb = omega (
  arith,
  bit_or_step a b,
  pow-suc 2 n,
  bit_or-lt n (a / 2) (b / 2) (omega (arith, pow-suc 2 n)) (omega (arith, pow-suc 2 n)),
)

-- `~x` at a width.
bit-complement : (n a k : ℕ) → a < 2 ^ n → k < n → bit (2 ^ n - 1 - a) k ≡ not (bit a k)
unfolding bit
bit-complement zero a k ha hk = absurd (omega arith)
bit-complement (suc n) a zero ha hk = ground (arith, pow-suc 2 n, one-le-pow n 2)
bit-complement (suc n) a (suc k) ha hk =
    let half : (2 ^ suc n - 1 - a) / 2 ≡ 2 ^ n - 1 - a / 2 = omega (arith, pow-suc 2 n) in
    rw half (bit-complement n (a / 2) k (omega (arith, pow-suc 2 n)) (omega arith))

pub bit-not32 : (a k : ℕ) → a < 2 ^ 32 → k < 32 → bit (not32 a) k ≡ not (bit a k)
bit-not32 a k = bit-complement 32 a k

pub bit-not16 : (a k : ℕ) → a < 2 ^ 16 → k < 16 → bit (not16 a) k ≡ not (bit a k)
bit-not16 a k = bit-complement 16 a k

-- A word with one digit.
pub bit-pow : (j k : ℕ) → bit (2 ^ j) k ≡ (j == k)
unfolding bit
bit-pow zero zero = refl
bit-pow zero (suc k) = rw bit-zero (ground arith)
bit-pow (suc j) zero = ground (arith, pow-suc 2 j)
bit-pow (suc j) (suc k) =
    let half : 2 ^ suc j / 2 ≡ 2 ^ j = omega (arith, pow-suc 2 j) in
    rw half (ground (arith, bit-pow j k))

-- The top digit of a 32-bit word.
pub bit_top : (x : ℕ) → x < 2 ^ 32 → bit x 31 ≡ leb (2 ^ 31) x
bit_top x h = sym (bit-shr x 31 0) ∙ (unfold bit in ground arith)

pub shr_top : (x : ℕ) → x < 2 ^ 32 → (x / 2 ^ 31 != 0) ≡ bit x 31
shr_top x h = rw (bit_top x h) (ground arith)

pub bit_xor-lt : (n a b : ℕ) → a < 2 ^ n → b < 2 ^ n → bit_xor a b < 2 ^ n
bit_xor-lt zero a b ha hb =
    let ea : a ≡ 0 = omega arith in let eb : b ≡ 0 = omega arith in rw (ea, eb) (omega arith)
bit_xor-lt (suc n) a b ha hb = omega (
  arith,
  bit_xor_step a b,
  differ-lt (a % 2) (b % 2) (omega arith) (omega arith),
  pow-suc 2 n,
  bit_xor-lt n (a / 2) (b / 2) (omega (arith, pow-suc 2 n)) (omega (arith, pow-suc 2 n)),
)

pub bit-shl : (x j k : ℕ) → bit (x * 2 ^ j) k ≡ (leb j k && bit x (k - j))
unfolding bit
bit-shl x zero k = let e : x * 2 ^ 0 ≡ x = omega arith in rw (e, sub-zero) (ground arith)
bit-shl x (suc j) zero = ground (arith, even x (2 ^ j), pow-suc 2 j)
  where
    even : (x p : ℕ) → x * (p * 2) % 2 ≡ 0
    even x p = omega (arith, mul_assoc x p 2)
bit-shl x (suc j) (suc k) =
    let half : x * 2 ^ suc j / 2 ≡ x * 2 ^ j =
      omega (arith, ap (λ (t : ℕ). x * t) (pow-suc 2 j), mul_assoc x (2 ^ j) 2) in
    rw half (ground (arith, bit-shl x j k))

pub mod_double : (x n : ℕ) → x % (n * 2) ≡ x % 2 + 2 * (x / 2 % n)
mod_double x n =
    let p : n * 2 ≡ 2 * n = omega arith in
    let q : x / (n * 2) ≡ x / 2 / n = rw p (sym (div-div-eq-div-mul x 2 n)) in
    omega (arith, ap (λ (t : ℕ). n * 2 * t) q)

pub bit-mod : (x n k : ℕ) → bit (x % 2 ^ n) k ≡ (ltb k n && bit x k)
unfolding bit
bit-mod x zero k = let e : x % 2 ^ 0 ≡ 0 = omega arith in rw (e, bit-zero) (ground arith)
bit-mod x (suc n) zero = ground (arith, mod_double x (2 ^ n), ap (λ (t : ℕ). x % t) (pow-suc 2 n))
bit-mod x (suc n) (suc k) =
    let half : x % 2 ^ suc n / 2 ≡ x / 2 % 2 ^ n =
      omega (arith, mod_double x (2 ^ n), ap (λ (t : ℕ). x % t) (pow-suc 2 n)) in
    rw half (ground (arith, bit-mod (x / 2) n k))
