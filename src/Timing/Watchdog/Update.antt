-- ===== src/Timing/Watchdog/Update.antt =====
-- What a closing update window makes of the registers: the bytes that were written, and no others.
use kinetis_k22_sim.Base.{
  ℕ, ◌+◌, ◌*◌, ◌/◌, ◌%◌, ◌^◌, ◌<◌, ◌≤◌, bit_and, bit_or, Bool, true, false, not, ◌&&◌, ◌||◌, ltb,
  leb, ◌==◌, if◌then◌else◌, ◌!◌, set, length, length-set, bit_and-lt, bit_or-lt, set_out,
  get_or-set, get_or-set_self, get_or-set_ne, flag, not16, ◌≡◌, ◌≢◌, ◌⊎◌, inl, inr, refl, sym, ap,
  ◌∙◌, arith, List, for_range, for_range_inv, bit, bit-and, bit-or, bit-not16, flag-pow,
  agree_below, agree_below_sound, Bool-cases, ==→≡,
}
use kinetis_k22_sim.Timing.State.{Timing}
use kinetis_k22_sim.Timing.Watchdog.{
  byte_mask, updated_registers, apply_update_byte, apply_watchdog_update,
}

-- Digit `k` of register `i` lies in byte `2 i + k / 8`.
abbrev pub byte_of : ℕ → ℕ → ℕ
byte_of i k = i * 2 + k / 8

module _ (pending wdog : List ℕ) (update_mask : ℕ) where
  -- The digit once the bytes below `j` are done.
  abbrev pub digit : ℕ → ℕ → ℕ → Bool
  digit j i k =
      if ltb (byte_of i k) j && bit update_mask (byte_of i k)
      then bit (pending ! i) k
      else bit (wdog ! i) k

  pub record IsMerged (j : ℕ) (now : List ℕ) : Type 0 where
    pub same_length : length now ≡ length wdog
    pub digits : (i k : ℕ) → i < length wdog → k < 16 → bit (now ! i) k ≡ digit j i k

low_byte : (k : ℕ) → k < 16 → bit 0x00ff k ≡ (k / 8 == 0)
unfolding agree_below bit
low_byte k h = agree_below_sound 16 (λ k. bit 0x00ff k) (λ k. k / 8 == 0) k refl h

high_byte : (k : ℕ) → k < 16 → bit 0xff00 k ≡ (k / 8 == 1)
unfolding agree_below bit
high_byte k h = agree_below_sound 16 (λ k. bit 0xff00 k) (λ k. k / 8 == 1) k refl h

byte_mask_digit :
    (byte_index k : ℕ) → k < 16 → bit (byte_mask byte_index) k ≡ (k / 8 == byte_index % 2)
byte_mask_digit byte_index k h = elim (Bool-cases (byte_index % 2 == 0)) [
  | inl e ↦ rw e (rw (low_byte k h) (rw (==→≡ (byte_index % 2) 0 e) refl))
  | inr n ↦ let odd : byte_index % 2 ≡ 1 = ground arith in rw n (rw (high_byte k h) (rw odd refl))
]

byte_mask_fits : (byte_index : ℕ) → byte_mask byte_index < 2 ^ 16
byte_mask_fits byte_index = ground arith

-- One byte of a register replaced.
byte_digit :
    (x y byte_index k : ℕ)
    → k < 16
    → bit (bit_or (bit_and x (not16 (byte_mask byte_index))) (bit_and y (byte_mask byte_index))) k
      ≡ (if k / 8 == byte_index % 2 then bit y k else bit x k)
byte_digit x y byte_index k h =
    let mask = byte_mask byte_index in
    let one = bit-or (bit_and x (not16 mask)) (bit_and y mask) k in
    let two = bit-and x (not16 mask) k in
    let three = bit-and y mask k in
    let four = bit-not16 mask k (byte_mask_fits byte_index) h in
    let five = byte_mask_digit byte_index k h in
    rw one
      (rw two (rw three (rw four (rw five (select (k / 8 == byte_index % 2) (bit x k) (bit y k))))))
  where
    select : (c x y : Bool) → ((x && not c) || (y && c)) ≡ (if c then y else x)
    select c x y = ground arith

-- The bytes before `j` stay as they are in the next round, and so does every byte but `j`.
digit_next :
    (pending wdog : List ℕ) (update_mask j i k : ℕ)
    → byte_of i k ≢ j ⊎ bit update_mask j ≡ false
    → digit pending wdog update_mask (j + 1) i k ≡ digit pending wdog update_mask j i k
digit_next pending wdog update_mask j i k (inl ne) =
    let e : ltb (byte_of i k) (j + 1) ≡ ltb (byte_of i k) j = ground arith in rw e refl
digit_next pending wdog update_mask j i k (inr n) = elim (Bool-cases (byte_of i k == j)) [
  | inl e ↦
      let at_j : byte_of i k ≡ j = ==→≡ (byte_of i k) j e in
      let clear : bit update_mask (byte_of i k) ≡ false = rw at_j n in ground arith
  | inr d ↦ let e : ltb (byte_of i k) (j + 1) ≡ ltb (byte_of i k) j = ground arith in rw e refl
]

-- The byte `j` itself.
digit_now :
    (pending wdog : List ℕ) (update_mask j i k : ℕ)
    → byte_of i k ≡ j
    → bit update_mask j ≡ true
    → digit pending wdog update_mask (j + 1) i k ≡ bit (pending ! i) k
digit_now pending wdog update_mask j i k e h =
    let taken : bit update_mask (byte_of i k) ≡ true = rw e h in ground arith

taken_digit :
    (pending wdog now : List ℕ) (update_mask j i k : ℕ)
    → length wdog ≡ 12
    → IsMerged pending wdog update_mask j now
    → bit update_mask j ≡ true
    → i < length wdog
    → k < 16
    → j / 2 ≡ i
    → bit (bit_or (bit_and (now ! i) (not16 (byte_mask j))) (bit_and (pending ! i) (byte_mask j))) k
      ≡ digit pending wdog update_mask (j + 1) i k
taken_digit pending wdog now update_mask j i k len inv e hi hk at_i =
    rw (byte_digit (now ! i) (pending ! i) j k hk) (elim (Bool-cases (k / 8 == j % 2)) [
      | inl l ↦ rw l (sym (digit_now pending wdog update_mask j i k (ground arith) e))
      | inr l ↦ rw l (
          inv.digits i k hi hk
          ∙ sym (digit_next pending wdog update_mask j i k (inl (ground arith))))
    ])

step :
    (pending wdog : List ℕ) (update_mask j : ℕ) (now : List ℕ)
    → length wdog ≡ 12
    → j < 24
    → IsMerged pending wdog update_mask j now
    → IsMerged pending wdog update_mask (j + 1) (apply_update_byte pending update_mask j now)
unfolding apply_update_byte flag
step pending wdog update_mask j now len h inv = elim (Bool-cases (bit update_mask j)) [
  | inl e ↦
      let test : bit_and update_mask (1 * 2 ^ j) == 0 ≡ false =
        ground (arith, flag-pow update_mask j) in
      let value =
        bit_or (bit_and (now ! (j / 2)) (not16 (byte_mask j)))
          (bit_and (pending ! (j / 2)) (byte_mask j)) in
      rw test (record {
        same_length = length-set now (j / 2) value ∙ inv.same_length;
        digits = λ i k hi hk. elim (Bool-cases (j / 2 == i)) [
          | inl l ↦
              let at_i : j / 2 ≡ i = ==→≡ (j / 2) i l in
              let fits : j / 2 < length now = ground (arith, inv.same_length) in
              rw (← at_i) (
                ap (λ x. bit x k) (get_or-set_self now (j / 2) value 0 fits)
                ∙ taken_digit pending wdog now update_mask j (j / 2) k len inv e (omega arith) hk
                    refl)
          | inr l ↦
              ap (λ x. bit x k) (get_or-set_ne now (j / 2) i value 0 (ground arith))
              ∙ inv.digits i k hi hk
              ∙ sym (digit_next pending wdog update_mask j i k (inl (ground arith)))
        ];
      })
  | inr n ↦
      let test : bit_and update_mask (1 * 2 ^ j) == 0 ≡ true =
        ground (arith, flag-pow update_mask j) in
      rw test (record {
        same_length = inv.same_length;
        digits = λ i k hi hk.
            inv.digits i k hi hk ∙ sym (digit_next pending wdog update_mask j i k (inr n));
      })
]

merged :
    (pending wdog : List ℕ) (update_mask : ℕ)
    → length wdog ≡ 12
    → IsMerged pending wdog update_mask 24
        (for_range 24 0 (apply_update_byte pending update_mask) wdog)
merged pending wdog update_mask len =
    for_range_inv (IsMerged pending wdog update_mask) (apply_update_byte pending update_mask) 24
      (λ k s h inv. step pending wdog update_mask k s len h inv) 24 0 wdog refl
      (record {
        same_length = refl;
        digits = λ i k hi hk. let e : ltb (byte_of i k) 0 ≡ false = ground arith in rw e refl;
      })

-- The registers that the update computes apart.
beside :
    (now : List ℕ) (a b c i : ℕ) → 2 ≤ i → i < 11 → set (set (set now 0 a) 1 b) 11 c ! i ≡ now ! i
beside now a b c i low high =
    get_or-set_ne (set (set now 0 a) 1 b) 11 i c 0 (ground arith)
    ∙ get_or-set_ne (set now 0 a) 1 i b 0 (ground arith)
    ∙ get_or-set_ne now 0 i a 0 (ground arith)

-- With registers of 12 cells, each of the 16 digits of the registers 2 to 10 is, after an update,
-- the pending one if its byte is marked in the update mask, and the old one if it is not.
pub apply_watchdog_update_lem :
    (timing : Timing) (i k : ℕ)
    → length timing.wdog ≡ 12
    → 2 ≤ i
    → i < 11
    → k < 16
    → bit ((apply_watchdog_update timing).wdog ! i) k ≡ (
        if bit timing.wdog_update_mask (i * 2 + k / 8)
        then bit (timing.wdog_pending ! i) k
        else bit (timing.wdog ! i) k)
unfolding apply_watchdog_update
apply_watchdog_update_lem timing i k len low high hk =
    let update = apply_update_byte timing.wdog_pending timing.wdog_update_mask in
    let inv = merged timing.wdog_pending timing.wdog timing.wdog_update_mask len in
    let below : ltb (i * 2 + k / 8) 24 ≡ true = ground arith in
    ap (λ x. bit x k) (beside (for_range 24 0 update timing.wdog) _ _ _ i low high)
    ∙ inv.digits i k (omega arith) hk
    ∙ (rw below refl)

-- The registers hold 16-bit values.
unfoldable pub IsWords : List ℕ → Type 0
IsWords wdog = (i : ℕ) → wdog ! i < 2 ^ 16

pub cell_fits :
    (now : List ℕ) (j value i : ℕ) → IsWords now → value < 2 ^ 16 → set now j value ! i < 2 ^ 16
unfolding IsWords
cell_fits now j value i words h = elim (Bool-cases (leb (length now) j)) [
  | inl out ↦ rw (set_out now j value (ground arith)) (words i)
  | inr inside ↦
      let cell = get_or-set now j i value 0 (ground arith) in
      elim (Bool-cases (j == i)) [
        | inl e ↦ let at : (set now j value ! i) ≡ value = cell ∙ (rw e refl) in rw at h
        | inr n ↦ let at : (set now j value ! i) ≡ now ! i = cell ∙ (rw n refl) in rw at (words i)
      ]
]

IsWords-apply_update_byte :
    (pending : List ℕ) (update_mask j : ℕ) (now : List ℕ)
    → IsWords pending
    → IsWords now
    → IsWords (apply_update_byte pending update_mask j now)
unfolding IsWords apply_update_byte
IsWords-apply_update_byte pending update_mask j now wp wn i =
    let mask = byte_mask j in
    let kept = bit_and-lt 16 (now ! (j / 2)) (not16 mask) (omega arith) in
    let taken = bit_and-lt 16 (pending ! (j / 2)) mask (byte_mask_fits j) in
    let value = bit_or (bit_and (now ! (j / 2)) (not16 mask)) (bit_and (pending ! (j / 2)) mask) in
    let fits =
      bit_or-lt 16 (bit_and (now ! (j / 2)) (not16 mask)) (bit_and (pending ! (j / 2)) mask) kept
        taken in
    let cell = cell_fits now (j / 2) value i wn fits in ground (arith, wn i)

pub merged_words :
    (pending wdog : List ℕ) (update_mask i : ℕ)
    → IsWords pending
    → IsWords wdog
    → 2 ≤ i
    → i < 11
    → updated_registers wdog pending update_mask ! i < 2 ^ 16
unfolding IsWords
merged_words pending wdog update_mask i wp ww low high =
    let update = apply_update_byte pending update_mask in
    let all =
      for_range_inv (λ _. IsWords) update 24
        (λ k s h inv. IsWords-apply_update_byte pending update_mask k s wp inv) 24 0 wdog refl ww in
    rw (beside (for_range 24 0 update wdog) _ _ _ i low high) (all i)
