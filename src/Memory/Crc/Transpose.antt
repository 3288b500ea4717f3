-- ===== src/Memory/Crc/Transpose.antt =====
-- Where the transposition of the CRC module moves each bit, and that doing it twice undoes it.
use kinetis_k22_sim.Base.{
  ℕ, zero, suc, ◌+◌, ◌-◌, ◌*◌, ◌/◌, ◌%◌, ◌^◌, ◌<◌, bit_and, bit_or, ◌&&◌, ◌||◌, leb, ltb, ◌==◌,
  if◌then◌else◌, u8, u32, ◌<<◌, ◌>>◌, bit, bit-and, bit-or, bit-shl, bit-shr, bit-mod, bit-pow,
  bit-zero, bits_ext, bit_or-lt, for_range_inv, ◌≡◌, refl, ap, ◌∙◌, arith, Bool-cases, inl, inr,
}
use kinetis_k22_sim.Memory.Crc.{reverse_bits, reverses_bits, transposed_byte, crc_transpose_input}

reversed_digit :
    (v i k : ℕ)
    → i < 8
    → ((ltb k 32 && (leb 1 k && (ltb (k - 1) i && bit v (i - 1 - (k - 1)))))
        || (bit v (i + k) && 0 == k))
      ≡ (ltb k (i + 1) && bit v (i + 1 - 1 - k))
reversed_digit v i zero lt =
    let here : i + 0 ≡ i = omega arith in
    let there : i + 1 - 1 - 0 ≡ i = omega arith in rw (here, there) (ground arith)
reversed_digit v i (suc k) lt =
    let here : suc k - 1 ≡ k = omega arith in
    let there : i + 1 - 1 - suc k ≡ i - 1 - k = omega arith in rw (here, there) (ground arith)

-- After `i` rounds the lowest `i` bits are those of the value, reversed.
reverse_round :
    (v i r : ℕ)
    → i < 8
    → ((k : ℕ) → bit r k ≡ (ltb k i && bit v (i - 1 - k)))
    → (k : ℕ)
    → bit (bit_or (u32 (r << 1)) (bit_and (v >> i) 1)) k ≡ (ltb k (i + 1) && bit v (i + 1 - 1 - k))
reverse_round v i r lt kept k =
    let either = bit-or (u32 (r << 1)) (bit_and (v >> i) 1) k in
    let cut = bit-mod (r << 1) 32 k in
    let moved = bit-shl r 1 k in
    let old = kept (k - 1) in
    let entered = bit-and (v >> i) 1 k in
    let source = bit-shr v i k in
    let one = bit-pow 0 k in
    rw (either, cut, moved, old, entered, source, one) (reversed_digit v i k lt)

bit-reverse_bits : (v k : ℕ) → bit (reverse_bits v 8) k ≡ (ltb k 8 && bit v (7 - k))
unfolding reverse_bits
bit-reverse_bits v k =
    for_range_inv (λ i r. (k : ℕ) → bit r k ≡ (ltb k i && bit v (i - 1 - k))) _ 8
      (λ i r lt kept. reverse_round v i r lt kept) 8 0 0 refl (λ k. bit-zero k ∙ (ground arith)) k

-- The bit that a bit of the transposed value comes from.
abbrev pub source_byte : ℕ → ℕ → ℕ
source_byte transpose k = if leb 2 transpose then 3 - k / 8 else k / 8

abbrev pub source_bit : ℕ → ℕ → ℕ
source_bit transpose k =
    source_byte transpose k * 8 + (if reverses_bits transpose then 7 - k % 8 else k % 8)

bit-transposed_byte :
    (t v i m : ℕ)
    → bit (transposed_byte t (u8 (v >> (i * 8)))) m
      ≡ (ltb m 8 && bit v (i * 8 + (if reverses_bits t then 7 - m else m)))
bit-transposed_byte t v i m =
    let byte = u8 (v >> (i * 8)) in
    let kept = bit-mod (reverse_bits byte 8) 8 m in
    let reversed = bit-reverse_bits byte m in
    let cut = bit-mod (v >> (i * 8)) 8 (7 - m) in
    let moved = bit-shr v (i * 8) (7 - m) in
    let cut_plain = bit-mod (v >> (i * 8)) 8 m in
    let moved_plain = bit-shr v (i * 8) m in
    elim (Bool-cases (reverses_bits t)) [
      | inl turned ↦ rw (turned, kept, reversed, cut, moved) (ground arith)
      | inr other ↦ rw (other, cut_plain, moved_plain) refl
    ]

transpose_round :
    (t v i acc : ℕ)
    → i < 4
    → ((k : ℕ) → k < 32 → bit acc k ≡ (ltb (source_byte t k) i && bit v (source_bit t k)))
    → (k : ℕ) → k < 32
    → bit
        (bit_or acc (transposed_byte t (u8 (v >> (i * 8))) << ((if leb 2 t then 3 - i else i) * 8)))
        k
      ≡ (ltb (source_byte t k) (i + 1) && bit v (source_bit t k))
transpose_round t v i acc lt kept k low =
    let either =
      bit-or acc (transposed_byte t (u8 (v >> (i * 8))) << ((if leb 2 t then 3 - i else i) * 8))
        k in
    let place = (if leb 2 t then 3 - i else i) * 8 in
    let moved = bit-shl (transposed_byte t (u8 (v >> (i * 8)))) place k in
    let byte = bit-transposed_byte t v i (k - place) in
    let old = kept k low in
    let index = i * 8 + (if reverses_bits t then 7 - (k - place) else k - place) in
    rw (either, moved, byte, old)
      (elim (Bool-cases (leb place k && ltb (k - place) 8)) [
        | inl here ↦
            let same : index ≡ source_bit t k = ground arith in
            let digit = ap (λ j. bit v j) same in ground arith
        | inr other ↦ ground arith
      ])

-- The k-th bit of the transposed value.
pub bit-crc_transpose_input :
    (v t k : ℕ) → k < 32 → bit (crc_transpose_input v t) k ≡ bit v (source_bit t k)
unfolding crc_transpose_input
bit-crc_transpose_input v t k lt =
    let all =
      for_range_inv
        (λ i acc.
          (k : ℕ) → k < 32 → bit acc k ≡ (ltb (source_byte t k) i && bit v (source_bit t k)))
        _ 4 (λ i acc below kept. transpose_round t v i acc below kept) 4 0 0 refl
        (λ k low. bit-zero k ∙ (ground arith)) k lt in
    all ∙ (ground arith)

transposed_byte-lt : (t v : ℕ) → transposed_byte t (u8 v) < 256
transposed_byte-lt t v = ground arith

placed-lt : (b p : ℕ) → b < 256 → p < 4 → b << (p * 8) < 2 ^ 32
placed-lt b zero hb hp = omega arith
placed-lt b (suc zero) hb hp = omega arith
placed-lt b (suc (suc zero)) hb hp = omega arith
placed-lt b (suc (suc (suc zero))) hb hp = omega arith
placed-lt b (suc (suc (suc (suc p)))) hb hp = absurd (omega arith)

pub crc_transpose_input-lt : (v t : ℕ) → crc_transpose_input v t < 2 ^ 32
unfolding crc_transpose_input
crc_transpose_input-lt v t =
    for_range_inv (λ i acc. acc < 2 ^ 32) _ 4
      (λ i acc below kept.
        let byte = transposed_byte t (u8 (v >> (i * 8))) in
        let place = if leb 2 t then 3 - i else i in
        bit_or-lt 32 acc (byte << (place * 8)) kept
          (placed-lt byte place (transposed_byte-lt t (v >> (i * 8))) (ground arith)))
      4 0 0 refl (omega arith)

-- Transposing a 32-bit value twice in the same way gives it back, and bit k of the transposed value
-- is the bit of the value at the mirrored place: the byte is mirrored in the word for types 2 and 3,
-- and the bit in its byte for types 1 and 2.
pub crc_transpose_input_twice :
    (v t k : ℕ)
    → v < 2 ^ 32
    → k < 32
    → (crc_transpose_input (crc_transpose_input v t) t ≡ v)
      × (bit (crc_transpose_input v t) k ≡ bit v (source_bit t k))
crc_transpose_input_twice v t k fits lt = (
  bits_ext 32 (crc_transpose_input (crc_transpose_input v t) t) v
      (crc_transpose_input-lt (crc_transpose_input v t) t) fits
      (λ j below.
        let inside : source_bit t j < 32 = ground arith in
        let back : source_bit t (source_bit t j) ≡ j = ground arith in
        bit-crc_transpose_input (crc_transpose_input v t) t j below
        ∙ bit-crc_transpose_input v t (source_bit t j) inside
        ∙ ap (λ i. bit v i) back),
  bit-crc_transpose_input v t k lt,
)
