-- ===== src/Memory/Rng/Sequence.antt =====
-- The generator's step loses no state and never gives 0.
use kinetis_k22_sim.Base.{
  ℕ, zero, suc, ◌+◌, ◌-◌, ◌^◌, ◌<◌, ◌≤◌, bit_xor, Bool, true, false, ◌&&◌, leb, ltb, ◌==◌,
  if◌then◌else◌, xor, u32, ◌<<◌, ◌>>◌, bit, bit-xor, bit-shl, bit-shr, bit-mod, bit_above, bits_ext,
  bit_xor-lt, ◌≡◌, refl, sym, ap, ◌∙◌, arith,
}
use kinetis_k22_sim.Memory.Rng.{default_seed, rng_next}

xor_cancel : (a b c : Bool) → xor a c ≡ xor b c → a ≡ b
unfolding xor
xor_cancel a b c h = ground arith

up : ℕ → ℕ → ℕ
up j x = bit_xor x (u32 (x << j))

down : ℕ → ℕ → ℕ
down j x = bit_xor x (x >> j)

bit-up : (j x k : ℕ) → bit (up j x) k ≡ xor (bit x k) (ltb k 32 && (leb j k && bit x (k - j)))
unfolding up
bit-up j x k = rw (bit-xor, bit-mod, bit-shl) refl

bit-down : (j x k : ℕ) → bit (down j x) k ≡ xor (bit x k) (bit x (j + k))
unfolding down
bit-down j x k = rw (bit-xor, bit-shr) refl

agree : (b p q : Bool) → (b ≡ true → p ≡ q) → (b && p) ≡ (b && q)
agree true p q h = h refl
agree false p q h = refl

up_digits : (j x y : ℕ) → 0 < j → up j x ≡ up j y → (n k : ℕ) → k < n → bit x k ≡ bit y k
up_digits j x y pos same zero k lt = absurd (omega arith)
up_digits j x y pos same (suc n) k lt =
    let digit = sym (bit-up j x k) ∙ ap (λ z. bit z k) same ∙ bit-up j y k in
    let earlier =
      agree (leb j k) (bit x (k - j)) (bit y (k - j))
        (λ h. up_digits j x y pos same n (k - j) (ground arith)) in
    xor_cancel (bit x k) (bit y k) _ (sym (ap (λ c. xor (bit x k) (ltb k 32 && c)) earlier) ∙ digit)

down_digits :
    (j x y : ℕ)
    → 0 < j
    → x < 2 ^ 32
    → y < 2 ^ 32
    → down j x ≡ down j y
    → (n k : ℕ) → 32 ≤ k + n
    → bit x k ≡ bit y k
down_digits j x y pos hx hy same zero k lt =
    bit_above 32 x k hx (omega arith) ∙ sym (bit_above 32 y k hy (omega arith))
down_digits j x y pos hx hy same (suc n) k lt =
    let digit = sym (bit-down j x k) ∙ ap (λ z. bit z k) same ∙ bit-down j y k in
    let later = down_digits j x y pos hx hy same n (j + k) (omega arith) in
    xor_cancel (bit x k) (bit y k) _ (sym (ap (λ c. xor (bit x k) c) later) ∙ digit)

up_inj : (j x y : ℕ) → 0 < j → x < 2 ^ 32 → y < 2 ^ 32 → up j x ≡ up j y → x ≡ y
up_inj j x y pos hx hy same = bits_ext 32 x y hx hy (λ k lt. up_digits j x y pos same 32 k lt)

down_inj : (j x y : ℕ) → 0 < j → x < 2 ^ 32 → y < 2 ^ 32 → down j x ≡ down j y → x ≡ y
down_inj j x y pos hx hy same =
    bits_ext 32 x y hx hy (λ k lt. down_digits j x y pos hx hy same 32 k (omega arith))

up-lt : (j x : ℕ) → x < 2 ^ 32 → up j x < 2 ^ 32
unfolding up
up-lt j x hx = bit_xor-lt 32 x (u32 (x << j)) hx (omega arith)

down-lt : (x : ℕ) → x < 2 ^ 32 → down 17 x < 2 ^ 32
unfolding down
down-lt x hx = bit_xor-lt 32 x (x >> 17) hx (omega arith)

-- The three shifts of the step.
pub mixed : ℕ → ℕ
mixed x = up 5 (down 17 (up 13 x))

mixed_inj : (x y : ℕ) → x < 2 ^ 32 → y < 2 ^ 32 → mixed x ≡ mixed y → x ≡ y
unfolding mixed
mixed_inj x y hx hy same =
    let a = up-lt 13 x hx in
    let b = up-lt 13 y hy in
    let last_shift =
      up_inj 5 (down 17 (up 13 x)) (down 17 (up 13 y)) (omega arith) (down-lt (up 13 x) a)
        (down-lt (up 13 y) b) same in
    let middle = down_inj 17 (up 13 x) (up 13 y) (omega arith) a b last_shift in
    up_inj 13 x y (omega arith) hx hy middle

mixed_zero : mixed 0 ≡ 0
unfolding mixed up down
mixed_zero = refl

rng_next-mixed : (x : ℕ) → rng_next x ≡ (if mixed x == 0 then default_seed else mixed x)
unfolding rng_next mixed up down
rng_next-mixed x = refl

-- From 32-bit states other than 0, the generator's step is the three shifts alone, which give a
-- 32-bit number that is not 0, and two states have the same successor only if they are the same.
pub rng_next_lem :
    (x y : ℕ)
    → x < 2 ^ 32
    → y < 2 ^ 32
    → 0 < x
    → 0 < y
    → (rng_next x ≡ mixed x)
      × (0 < rng_next x)
      × (rng_next x < 2 ^ 32)
      × ((rng_next x == rng_next y) ≡ (x == y))
rng_next_lem x y hx hy px py =
    let first = rng_next-mixed x in
    let second = rng_next-mixed y in
    let zero_x = mixed_inj x 0 hx (omega arith) in
    let zero_y = mixed_inj y 0 hy (omega arith) in
    let whole = mixed_inj x y hx hy in
    let start = mixed_zero in
    let small : mixed x < 2 ^ 32 =
      unfold mixed in up-lt 5 (down 17 (up 13 x)) (down-lt (up 13 x) (up-lt 13 x hx)) in
    (ground arith, ground arith, ground arith, ground arith)
