-- ===== src/Memory/Crc/Serial.antt =====
-- The byte-wise update of the CRC against the bit-serial register of the textbooks.
use kinetis_k22_sim.Base.{
  ℕ, zero, suc, ◌+◌, ◌-◌, ◌*◌, ◌%◌, ◌^◌, ◌<◌, bit_and, bit_xor, Bool, ◌&&◌, leb, ltb, if◌then◌else◌,
  xor, u32, ◌<<◌, flag-pow, bit, bit-xor, bit-shl, bit-mod, low_mask, bit-zero, bits_ext,
  bit_xor-lt, for_range, for_range_inv, ◌≡◌, ◌⊎◌, inl, inr, refl, sym, ap, ◌∙◌, arith, Bool-cases,
}
use native.Mathlib.Nat.{one-le-pow, pow-suc, mul_assoc}
use kinetis_k22_sim.Memory.Crc.{Crc, wide_crc, crc_bit_count, crc_round, crc_accumulate}

-- The register shifted by one place, without the bit that falls out.
abbrev pub shifted : ℕ → ℕ → ℕ
shifted width state = state * 2 % 2 ^ width

-- One message bit enters: the bit that falls out, with the message bit, decides whether the
-- polynomial is subtracted.
pub feed : ℕ → ℕ → ℕ → Bool → ℕ
feed width polynomial state message =
    let feedback = xor (bit state (width - 1)) message in
    if feedback then bit_xor (shifted width state) (polynomial % 2 ^ width) else shifted width state

-- The bits of a byte, the highest first.
pub feed_byte : ℕ → ℕ → ℕ → ℕ → ℕ
feed_byte width polynomial state byte =
    for_range 8 0 (λ i s. feed width polynomial s (bit byte (7 - i))) state

-- A round of the source, at its two widths.
round_lem :
    (width polynomial value : ℕ)
    → (width ≡ 16) ⊎ (width ≡ 32)
    → crc_round width (2 ^ width - 1) polynomial value ≡ (
        if bit value (width - 1)
        then bit_xor (shifted width value) (polynomial % 2 ^ width)
        else shifted width value)
unfolding crc_round
round_lem width polynomial value (inl narrow) =
    let top = flag-pow value 15 in
    let low = low_mask 16 (u32 (value << 1)) in
    let mask = low_mask 16 polynomial in rw narrow (ground arith)
round_lem width polynomial value (inr wide) =
    let top = flag-pow value 31 in
    let low = low_mask 32 (u32 (value << 1)) in
    let mask = low_mask 32 polynomial in rw wide (ground arith)

bit-shifted :
    (width x k : ℕ) → bit (shifted width x) k ≡ (ltb k width && (leb 1 k && bit x (k - 1)))
bit-shifted width x k = bit-mod (x * 2 ^ 1) width k ∙ ap (λ b. ltb k width && b) (bit-shl x 1 k)

shifted-lt : (width x : ℕ) → shifted width x < 2 ^ width
shifted-lt width x = omega (arith, one-le-pow width 2)

and_xor : (a b c d : Bool) → (a && (b && xor c d)) ≡ xor (a && (b && c)) (a && (b && d))
unfolding xor
and_xor a b c d = ground arith

shifted-bit_xor :
    (width s m : ℕ) → shifted width (bit_xor s m) ≡ bit_xor (shifted width s) (shifted width m)
shifted-bit_xor width s m =
    bits_ext width (shifted width (bit_xor s m)) (bit_xor (shifted width s) (shifted width m))
      (shifted-lt width (bit_xor s m))
      (bit_xor-lt width (shifted width s) (shifted width m) (shifted-lt width s)
        (shifted-lt width m))
      (λ k lt.
        let both = bit-xor (shifted width s) (shifted width m) k in
        let left = bit-shifted width s k in
        let right = bit-shifted width m k in
        let whole = bit-shifted width (bit_xor s m) k in
        let inner = bit-xor s m (k - 1) in
        rw both (
          rw whole (
            rw left (
              rw right
                (rw inner (and_xor (ltb k width) (leb 1 k) (bit s (k - 1)) (bit m (k - 1))))))))

xor_swap_digit : (a b c : Bool) → xor (xor a b) c ≡ xor (xor a c) b
unfolding xor
xor_swap_digit a b c = ground arith

xor_swap :
    (width a b c : ℕ)
    → a < 2 ^ width
    → b < 2 ^ width
    → c < 2 ^ width
    → bit_xor (bit_xor a b) c ≡ bit_xor (bit_xor a c) b
xor_swap width a b c ha hb hc =
    bits_ext width (bit_xor (bit_xor a b) c) (bit_xor (bit_xor a c) b)
      (bit_xor-lt width (bit_xor a b) c (bit_xor-lt width a b ha hb) hc)
      (bit_xor-lt width (bit_xor a c) b (bit_xor-lt width a c ha hc) hb)
      (λ k lt.
        let left = bit-xor (bit_xor a b) c k in
        let right = bit-xor (bit_xor a c) b k in
        let ab = bit-xor a b k in
        let ac = bit-xor a c k in
        rw left (rw right (rw ab (rw ac (xor_swap_digit (bit a k) (bit b k) (bit c k))))))

-- A round on the register with the pending message bits added is a fed bit.
round_linear :
    (width polynomial s m : ℕ)
    → (width ≡ 16) ⊎ (width ≡ 32)
    → crc_round width (2 ^ width - 1) polynomial (bit_xor s m)
      ≡ bit_xor (feed width polynomial s (bit m (width - 1))) (shifted width m)
unfolding feed
round_linear width polynomial s m which =
    let round = round_lem width polynomial (bit_xor s m) which in
    let split = shifted-bit_xor width s m in
    let top = bit-xor s m (width - 1) in
    let p : polynomial % 2 ^ width < 2 ^ width = omega (arith, one-le-pow width 2) in
    let swap =
      xor_swap width (shifted width s) (shifted width m) (polynomial % 2 ^ width)
        (shifted-lt width s) (shifted-lt width m) p in
    rw (round, split, top) (ground arith)

feed-lt : (width polynomial s : ℕ) (message : Bool) → feed width polynomial s message < 2 ^ width
unfolding feed
feed-lt width polynomial s message =
    let p : polynomial % 2 ^ width < 2 ^ width = omega (arith, one-le-pow width 2) in
    let added =
      bit_xor-lt width (shifted width s) (polynomial % 2 ^ width) (shifted-lt width s) p in
    let plain = shifted-lt width s in ground arith

-- The pending message bits after some rounds.
abbrev pending : ℕ → ℕ → ℕ → ℕ
pending width byte i = byte * 2 ^ (width - 8 + i) % 2 ^ width

double_mod :
    (width x : ℕ) → (width ≡ 16) ⊎ (width ≡ 32) → x % 2 ^ width * 2 % 2 ^ width ≡ x * 2 % 2 ^ width
double_mod width x (inl narrow) = rw narrow (omega arith)
double_mod width x (inr wide) = rw wide (omega arith)

pending_next :
    (width byte i : ℕ)
    → (width ≡ 16) ⊎ (width ≡ 32)
    → shifted width (pending width byte i) ≡ pending width byte (i + 1)
pending_next width byte i which =
    let e = width - 8 + i in
    let next : width - 8 + (i + 1) ≡ suc e = omega arith in
    let power : byte * 2 ^ suc e ≡ byte * 2 ^ e * 2 =
      ap (λ p. byte * p) (pow-suc 2 e) ∙ sym (mul_assoc byte (2 ^ e) 2) in
    double_mod width (byte * 2 ^ e) which ∙ (rw (next, power) refl)

pending_top :
    (width byte i : ℕ)
    → (width ≡ 16) ⊎ (width ≡ 32)
    → i < 8
    → bit (pending width byte i) (width - 1) ≡ bit byte (7 - i)
pending_top width byte i which lt =
    let cut = bit-mod (byte * 2 ^ (width - 8 + i)) width (width - 1) in
    let moved = bit-shl byte (width - 8 + i) (width - 1) in
    let place : width - 1 - (width - 8 + i) ≡ 7 - i = omega arith in
    rw (cut, moved, place) (ground arith)

rounds :
    (width polynomial byte : ℕ)
    → (width ≡ 16) ⊎ (width ≡ 32)
    → (n i s : ℕ) → i + n ≡ 8
    → for_range n i
        (λ i value. crc_round width (2 ^ width - 1) polynomial value)
        (bit_xor s (pending width byte i))
      ≡ bit_xor
          (for_range n i (λ i s. feed width polynomial s (bit byte (7 - i))) s)
          (pending width byte 8)
unfolding for_range
rounds width polynomial byte which zero i s ends = let last : i ≡ 8 = omega arith in rw last refl
rounds width polynomial byte which (suc n) i s ends =
    let step = round_linear width polynomial s (pending width byte i) which in
    let next = pending_next width byte i which in
    let top = pending_top width byte i which (omega arith) in
    rw (step, next, top)
      (rounds width polynomial byte which n (i + 1) (feed width polynomial s (bit byte (7 - i)))
        (omega arith))

bit_xor-zero : (x : ℕ) → x < 2 ^ 32 → bit_xor x 0 ≡ x
unfolding xor
bit_xor-zero x h = bits_ext 32 (bit_xor x 0) x (bit_xor-lt 32 x 0 h (omega arith)) h (λ k lt.
    let digit = bit-xor x 0 k in let none = bit-zero k in rw digit (rw none (ground arith)))

feed_byte-lt :
    (width polynomial s byte : ℕ) → s < 2 ^ width → feed_byte width polynomial s byte < 2 ^ width
unfolding feed_byte
feed_byte-lt width polynomial s byte h =
    for_range_inv (λ i state. state < 2 ^ width) _ 8
      (λ i state lt kept. feed-lt width polynomial state (bit byte (7 - i))) 8 0 s refl h

-- The byte before the first round, and the end.
start_lem :
    (width byte : ℕ)
    → (width ≡ 16) ⊎ (width ≡ 32)
    → byte < 256
    → (u32 (byte << (width - 8)) ≡ pending width byte 0) × (pending width byte 8 ≡ 0)
start_lem width byte (inl narrow) fits = rw narrow (omega arith, omega arith)
start_lem width byte (inr wide) fits = rw wide (omega arith, omega arith)

width_fits : (width x : ℕ) → (width ≡ 16) ⊎ (width ≡ 32) → x < 2 ^ width → x < 2 ^ 32
width_fits width x (inl narrow) h = let small = rw narrow at h in omega arith
width_fits width x (inr wide) h = rw wide at h

accumulate_width :
    (width value polynomial byte : ℕ)
    → (width ≡ 16) ⊎ (width ≡ 32)
    → byte < 256
    → for_range 8 0
        (λ i v. crc_round width (2 ^ width - 1) polynomial v)
        (bit_xor (bit_and value (2 ^ width - 1)) (u32 (byte << (width - 8))))
      ≡ feed_byte width polynomial (value % 2 ^ width) byte
accumulate_width width value polynomial byte which fits =
    let start = start_lem width byte which fits in
    let low = low_mask width value in
    let state = value % 2 ^ width in
    let run = rounds width polynomial byte which 8 0 state refl in
    let fed = feed_byte width polynomial state byte in
    let small : fed < 2 ^ width =
      feed_byte-lt width polynomial state byte (omega (arith, one-le-pow width 2)) in
    let plain : bit_xor fed (pending width byte 8) ≡ fed =
      rw (start.1) (bit_xor-zero fed (width_fits width fed which small)) in
    rw (low, start.0) (run ∙ (unfold feed_byte in plain))

-- At both widths, accumulating a byte is feeding its bits, the highest first, into the register of
-- the generator polynomial one by one.
pub crc_accumulate_lem :
    (crc : Crc) (byte : ℕ)
    → byte < 256
    → (crc_accumulate crc byte).value
      ≡ feed_byte (crc_bit_count crc) crc.polynomial (crc.value % 2 ^ crc_bit_count crc) byte
unfolding crc_accumulate
crc_accumulate_lem crc byte fits = elim (Bool-cases (wide_crc crc)) [
  | inl wide ↦ rw wide (accumulate_width 32 crc.value crc.polynomial byte (inr refl) fits)
  | inr narrow ↦ rw narrow (accumulate_width 16 crc.value crc.polynomial byte (inl refl) fits)
]
