-- ===== src/Cortex/Pending/Bits.antt =====
-- Setting and clearing one pending bit.
use kinetis_k22_sim.Base.{
  ℕ, ◌+◌, ◌-◌, ◌/◌, ◌%◌, ◌^◌, ◌<◌, ◌≤◌, Bool, true, false, ◌&&◌, ltb, ◌==◌, if◌then◌else◌, ◌!◌,
  ◌<<◌, flag, set, length, arith, ◌≡◌, List, Bool-cases, ==→≡, inl, inr, get_or-set, bit, flag-pow,
  bit-set, bit-clear, bit_and_thirty_one,
}
use kinetis_k22_sim.Cortex.State.{Cpu, IsConfigured}
use kinetis_k22_sim.Cortex.Pending.{
  irq_mask, write_bit, write_pending, was_pending, signal_pending, set_pending,
}

irq_mask_lem : (irq : ℕ) → irq_mask irq ≡ 2 ^ (irq % 32)
unfolding irq_mask
irq_mask_lem irq = rw bit_and_thirty_one (omega arith)

-- Bit `j` of a word after bit `k` was written.
pub bit-write_bit :
    (word j k : ℕ) (pending : Bool)
    → j < 32
    → k < 32
    → bit (write_bit word (2 ^ k) pending) j ≡ (if k == j then pending else bit word j)
unfolding write_bit
bit-write_bit word j k true hj hk = rw bit-set (ground arith)
bit-write_bit word j k false hj hk = rw (bit-clear word k j hk hj) (ground arith)

pub flag_mask : (word irq : ℕ) → flag word (irq_mask irq) ≡ bit word (irq % 32)
flag_mask word irq = rw irq_mask_lem (flag-pow word (irq % 32))

pub flag_shift : (word e : ℕ) → flag word (1 << e) ≡ bit word e
flag_shift word e = let p : 1 << e ≡ 2 ^ e = omega arith in rw p (flag-pow word e)

-- A number is told by its quotient and its remainder.
split_eq : (i j : ℕ) → (i == j) ≡ ((i / 32 == j / 32) && (i % 32 == j % 32))
split_eq i j = ground arith

-- What reading a bit of a word array gives after one bit of it was written.
word_after :
    (words : List ℕ) (i j : ℕ) (pending : Bool)
    → i / 32 < length words
    → bit
        (set words (i / 32) (write_bit (words ! (i / 32)) (irq_mask i) pending) ! (j / 32))
        (j % 32)
      ≡ (if i == j then pending else bit (words ! (j / 32)) (j % 32))
word_after words i j pending h =
    rw (get_or-set words (i / 32) (j / 32) (write_bit (words ! (i / 32)) (irq_mask i) pending) 0 h)
      (elim (Bool-cases (i / 32 == j / 32)) [
        | inl e ↦
            rw (e, split_eq i j, e, irq_mask_lem i)
              (rw
                (bit-write_bit (words ! (i / 32)) (j % 32) (i % 32) pending (omega arith)
                  (omega arith))
                (rw (==→≡ (i / 32) (j / 32) e)))
        | inr n ↦ rw (n, split_eq i j, n)
      ])

word_eq : (i j : ℕ) → 16 ≤ i → 16 ≤ j → (i - 16 == j - 16) ≡ (i == j)
word_eq i j hi hj = ground arith

system_after :
    (word e f : ℕ) (pending : Bool)
    → e < 32
    → f < 32
    → bit (write_bit word (1 << e) pending) f ≡ (if e == f then pending else bit word f)
system_after word e f pending he hf =
    let p : 1 << e ≡ 2 ^ e = omega arith in rw p (bit-write_bit word f e pending hf he)

was_pending_bits :
    (cpu : Cpu) (e : ℕ)
    → was_pending cpu e ≡ (
        if ltb e 16
        then bit cpu.system_pending e
        else bit (cpu.irq_pending ! ((e - 16) / 32)) ((e - 16) % 32))
unfolding was_pending
was_pending_bits cpu e = rw (flag_shift, flag_mask)

-- The pending bit of each exception after one of them was written.
pub was_pending-write_pending :
    (cpu : Cpu) (e f : ℕ) (pending : Bool)
    → IsConfigured cpu
    → e < 256
    → was_pending (write_pending cpu e pending) f ≡ (if e == f then pending else was_pending cpu f)
unfolding write_pending
was_pending-write_pending cpu e f pending ok he = ground (
  arith,
  was_pending_bits (write_pending cpu e pending) f,
  was_pending_bits cpu f,
  system_after cpu.system_pending e f pending,
  word_after cpu.irq_pending (e - 16) (f - 16) pending,
)

signal_pending_words :
    (cpu : Cpu) (pending was : Bool)
    → ((signal_pending cpu pending was).system_pending ≡ cpu.system_pending)
      × ((signal_pending cpu pending was).irq_pending ≡ cpu.irq_pending)
unfolding signal_pending
signal_pending_words cpu pending was = ground arith

was_pending-signal_pending :
    (cpu : Cpu) (pending was : Bool) (f : ℕ)
    → was_pending (signal_pending cpu pending was) f ≡ was_pending cpu f
unfolding was_pending
was_pending-signal_pending cpu pending was f =
    rw ((signal_pending_words cpu pending was).0, (signal_pending_words cpu pending was).1)

-- On a configured core, setting or clearing the pending state of an implemented exception gives it
-- that state, and leaves the state of every other exception.
pub was_pending-set_pending :
    (cpu : Cpu) (e f : ℕ) (pending : Bool)
    → IsConfigured cpu
    → 2 ≤ e
    → e < cpu.external_irq_count + 16
    → was_pending (set_pending cpu e pending) f ≡ (if e == f then pending else was_pending cpu f)
unfolding set_pending
was_pending-set_pending cpu e f pending ok lo hi = ground (
  arith,
  was_pending-signal_pending (write_pending cpu e pending) pending (was_pending cpu e) f,
  was_pending-write_pending cpu e f pending ok (omega (arith, ok.irq_count)),
)
