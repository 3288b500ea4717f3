-- ===== src/Cortex/Registers/Status.antt =====
-- Loading and reading the xPSR with its IT or ICI field.
use kinetis_k22_sim.Base.{
  ℕ, ◌+◌, ◌-◌, ◌^◌, ◌<◌, bit_and, bit_or, true, false, not, ◌&&◌, ◌||◌, ltb, leb, ◌==◌,
  if◌then◌else◌, ◌<<◌, ◌>>◌, flag, not32, u8, bit, ◌≡◌, refl, ap, ◌∙◌, arith, Bool-cases, inl, inr,
  bit-and, bit-or, bit-shl, bit-shr, bit-mod, bit-not32, bit-pow, bit-zero, bits_ext, bit_and-lt,
  bit_or-lt, agree_below, agree_below_sound, bit_of_no_flag,
}
use kinetis_k22_sim.Cortex.State.{Cpu, is_armv6_m, armv7e_m}
use kinetis_k22_sim.Cortex.Exceptions.{ici_xpsr, ici_load_xpsr, has_ici_state}
use kinetis_k22_sim.Cortex.Registers.{xpsr_value, load_xpsr}

-- Digits of the masks.
status_mask :
    (k : ℕ) → k < 32 → bit 0x0600fe00 k ≡ ((leb 9 k && leb k 15) || (leb 25 k && leb k 26))
unfolding agree_below bit
status_mask k h =
    agree_below_sound 32 (bit 0x0600fe00) (λ k. ((leb 9 k && leb k 15) || (leb 25 k && leb k 26))) k
      refl h

field_mask :
    (k : ℕ) → k < 32 → bit 0x0600fc00 k ≡ ((leb 10 k && leb k 15) || (leb 25 k && leb k 26))
unfolding agree_below bit
field_mask k h =
    agree_below_sound 32 (bit 0x0600fc00) (λ k. ((leb 10 k && leb k 15) || (leb 25 k && leb k 26)))
      k refl h

ici_mask : (k : ℕ) → k < 32 → bit 0x06000c00 k ≡ ((leb 10 k && leb k 11) || (leb 25 k && leb k 26))
unfolding agree_below bit
ici_mask k h =
    agree_below_sound 32 (bit 0x06000c00) (λ k. ((leb 10 k && leb k 11) || (leb 25 k && leb k 26)))
      k refl h

three_mask : (k : ℕ) → k < 32 → bit 3 k ≡ ltb k 2
unfolding agree_below bit
three_mask k h = agree_below_sound 32 (bit 3) (λ k. ltb k 2) k refl h

high_mask : (k : ℕ) → k < 32 → bit 0xfc k ≡ (leb 2 k && ltb k 8)
unfolding agree_below bit
high_mask k h = agree_below_sound 32 (bit 0xfc) (λ k. (leb 2 k && ltb k 8)) k refl h

register_mask : (k : ℕ) → k < 32 → bit 15 k ≡ ltb k 4
unfolding agree_below bit
register_mask k h = agree_below_sound 32 (bit 15) (λ k. ltb k 4) k refl h

-- The status bits that `load_xpsr` keeps, with the T bit set.
abbrev kept : ℕ → ℕ
kept v = bit_or (bit_and v (not32 0x0600fe00)) (1 << 24)

abbrev it_field : ℕ → ℕ
it_field v = u8 (bit_or (bit_and (v >> 25) 3) (bit_and (v >> 8) 0xfc))

kept_digit :
    (v k : ℕ)
    → v < 2 ^ 32
    → k < 32
    → bit (kept v) k
      ≡ (k == 24 || (bit v k && not ((leb 9 k && leb k 15) || (leb 25 k && leb k 26))))
kept_digit v k hv hk = ground (
  arith,
  bit-or (bit_and v (not32 0x0600fe00)) (1 << 24) k,
  bit-and v (not32 0x0600fe00) k,
  bit-not32 0x0600fe00 k,
  status_mask k hk,
  bit-pow 24 k,
)

it_digit :
    (v j : ℕ)
    → j < 32
    → bit (it_field v) j ≡ (if ltb j 2 then bit v (25 + j) else ltb j 8 && bit v (8 + j))
it_digit v j hj = ground (
  arith,
  bit-mod (bit_or (bit_and (v >> 25) 3) (bit_and (v >> 8) 0xfc)) 8 j,
  bit-or (bit_and (v >> 25) 3) (bit_and (v >> 8) 0xfc) j,
  bit-and (v >> 25) 3 j,
  bit-and (v >> 8) 0xfc j,
  bit-shr v 25 j,
  bit-shr v 8 j,
  three_mask j hj,
  high_mask j hj,
)

-- Where the IT bits of a state stand in the xPSR.
placed_digit :
    (it k : ℕ)
    → k < 32
    → bit (bit_or (bit_and it 3 << 25) (bit_and it 0xfc << 8)) k
      ≡ ((leb 25 k && ltb k 27 && bit it (k - 25)) || (leb 10 k && ltb k 16 && bit it (k - 8)))
placed_digit it k hk = ground (
  arith,
  bit-or (bit_and it 3 << 25) (bit_and it 0xfc << 8) k,
  bit-shl (bit_and it 3) 25 k,
  bit-shl (bit_and it 0xfc) 8 k,
  bit-and it 3 (k - 25),
  bit-and it 0xfc (k - 8),
  three_mask (k - 25),
  high_mask (k - 8),
)

-- The value that is read back: bit 9 is not kept, and the T bit is set.
abbrev pub read_back : ℕ → ℕ
read_back v = bit_or (bit_and v (not32 (1 << 9))) (1 << 24)

read_back_digit :
    (v k : ℕ) → v < 2 ^ 32 → k < 32 → bit (read_back v) k ≡ (k == 24 || (bit v k && not (k == 9)))
read_back_digit v k hv hk = ground (
  arith,
  bit-or (bit_and v (not32 (1 << 9))) (1 << 24) k,
  bit-and v (not32 (1 << 9)) k,
  bit-not32 (1 << 9) k,
  bit-pow 9 k,
  bit-pow 24 k,
)

has_ici_facts :
    (cpu : Cpu) (v : ℕ)
    → has_ici_state cpu v ≡ true
    → (is_armv6_m cpu.architecture ≡ false) × (flag v 0x06000c00 ≡ false)
unfolding has_ici_state
has_ici_facts cpu v h = ground arith

-- What `load_xpsr` leaves in the three fields that the xPSR is read from.
load_plain :
    (cpu : Cpu) (v : ℕ)
    → is_armv6_m cpu.architecture ≡ false
    → has_ici_state cpu v ≡ false
    → xpsr_value (load_xpsr cpu v)
      ≡ bit_or (kept v) (bit_or (bit_and (it_field v) 3 << 25) (bit_and (it_field v) 0xfc << 8))
unfolding load_xpsr xpsr_value ici_xpsr ici_load_xpsr has_ici_state
load_plain cpu v arch plain = ground arith

load_ici :
    (cpu : Cpu) (v : ℕ)
    → has_ici_state cpu v ≡ true
    → xpsr_value (load_xpsr cpu v)
      ≡ bit_or (bit_and (bit_or (kept v) 0) (not32 0x0600fc00)) (bit_and (v >> 12) 15 << 12)
unfolding load_xpsr xpsr_value ici_xpsr ici_load_xpsr has_ici_state
load_ici cpu v h = ground arith

plain_digits :
    (v k : ℕ)
    → v < 2 ^ 32
    → k < 32
    → bit
        (bit_or (kept v) (bit_or (bit_and (it_field v) 3 << 25) (bit_and (it_field v) 0xfc << 8)))
        k
      ≡ bit (read_back v) k
plain_digits v k hv hk = ground (
  arith,
  bit-or (kept v) (bit_or (bit_and (it_field v) 3 << 25) (bit_and (it_field v) 0xfc << 8)) k,
  kept_digit v k hv hk,
  placed_digit (it_field v) k hk,
  it_digit v (k - 25),
  it_digit v (k - 8),
  read_back_digit v k hv hk,
)

ici_digits :
    (v k : ℕ)
    → v < 2 ^ 32
    → k < 32
    → flag v 0x06000c00 ≡ false
    → bit (bit_or (bit_and (bit_or (kept v) 0) (not32 0x0600fc00)) (bit_and (v >> 12) 15 << 12)) k
      ≡ bit (read_back v) k
ici_digits v k hv hk clear = ground (
  arith,
  bit-or (bit_and (bit_or (kept v) 0) (not32 0x0600fc00)) (bit_and (v >> 12) 15 << 12) k,
  bit-and (bit_or (kept v) 0) (not32 0x0600fc00) k,
  bit-or (kept v) 0 k,
  bit-zero k,
  bit-not32 0x0600fc00 k,
  field_mask k hk,
  kept_digit v k hv hk,
  bit-shl (bit_and (v >> 12) 15) 12 k,
  bit-and (v >> 12) 15 (k - 12),
  bit-shr v 12 (k - 12),
  register_mask (k - 12),
  bit_of_no_flag v 0x06000c00 k clear,
  ici_mask k hk,
  read_back_digit v k hv hk,
)

kept-lt : (v : ℕ) → kept v < 2 ^ 32
kept-lt v =
    bit_or-lt 32 (bit_and v (not32 0x0600fe00)) (1 << 24)
      (bit_and-lt 32 v (not32 0x0600fe00) (omega arith)) (omega arith)

read_back-lt : (v : ℕ) → read_back v < 2 ^ 32
read_back-lt v =
    bit_or-lt 32 (bit_and v (not32 (1 << 9))) (1 << 24)
      (bit_and-lt 32 v (not32 (1 << 9)) (omega arith)) (omega arith)

placed-lt : (it : ℕ) → bit_or (bit_and it 3 << 25) (bit_and it 0xfc << 8) < 2 ^ 32
placed-lt it =
    bit_or-lt 32 (bit_and it 3 << 25) (bit_and it 0xfc << 8)
      (omega (arith, bit_and-lt 2 it 3 (omega arith)))
      (omega (arith, bit_and-lt 8 it 0xfc (omega arith)))

-- On an Armv7E-M core a 32-bit status word that is loaded reads back with every bit except bit 9,
-- and with the T bit set.
pub xpsr_value-load_xpsr :
    (cpu : Cpu) (v : ℕ)
    → cpu.architecture ≡ armv7e_m
    → v < 2 ^ 32
    → xpsr_value (load_xpsr cpu v) ≡ read_back v
xpsr_value-load_xpsr cpu v arch hv = elim (Bool-cases (has_ici_state cpu v)) [
  | inl ici ↦
      load_ici cpu v ici
      ∙ bits_ext 32 _ (read_back v)
          (bit_or-lt 32 (bit_and (bit_or (kept v) 0) (not32 0x0600fc00))
            (bit_and (v >> 12) 15 << 12)
            (bit_and-lt 32 (bit_or (kept v) 0) (not32 0x0600fc00) (omega arith))
            (omega (arith, bit_and-lt 4 (v >> 12) 15 (omega arith))))
          (read_back-lt v) (λ k hk. ici_digits v k hv hk (has_ici_facts cpu v ici).1)
  | inr plain ↦
      load_plain cpu v (ap is_armv6_m arch) plain
      ∙ bits_ext 32 _ (read_back v)
          (bit_or-lt 32 (kept v)
            (bit_or (bit_and (it_field v) 3 << 25) (bit_and (it_field v) 0xfc << 8)) (kept-lt v)
            (placed-lt (it_field v)))
          (read_back-lt v) (λ k hk. plain_digits v k hv hk)
]
