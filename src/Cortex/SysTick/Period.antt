-- ===== src/Cortex/SysTick/Period.antt =====
-- How long SysTick takes to expire.
use kinetis_k22_sim.Base.{
  ℕ, zero, suc, ◌+◌, ◌-◌, ◌≤◌, Bool, true, false, ◌&&◌, ◌||◌, ◌==◌, if◌then◌else◌, ◌<<◌, bit_or,
  flag, flag-pow, bit, bit-set, for_range, Bool-cases, inl, inr, ◌≡◌, refl, arith, ap, ◌∙◌,
}
use kinetis_k22_sim.Cortex.State.{Cpu, IsConfigured, is_armv6_m}
use kinetis_k22_sim.Cortex.Pending.{was_pending, set_pending}
use kinetis_k22_sim.Cortex.Pending.Bits.{was_pending-set_pending}
use kinetis_k22_sim.Cortex.Pending.Frame.{was_pending_ext, set_pending_only}
use kinetis_k22_sim.Cortex.SysTick.{expire, count_down, next_phase, systick_cycle, advance_systick}

abbrev pub with_current : Cpu → ℕ → Cpu
with_current cpu value = record cpu { systick_current = value }

with_current-IsConfigured :
    (cpu : Cpu) (value : ℕ) → IsConfigured cpu → IsConfigured (with_current cpu value)
with_current-IsConfigured cpu value ok = ground arith

-- What an expiring counter leaves.
expire_lem :
    (cpu : Cpu)
    → IsConfigured cpu
    → (e k : ℕ)
    → let out = expire cpu in
      let tick_int = bit cpu.systick_control 1 in
      (out.systick_current ≡ cpu.systick_current)
      × (bit out.systick_control k ≡ (bit cpu.systick_control k || 16 == k))
      × (was_pending out e ≡ (if tick_int && 15 == e then true else was_pending cpu e))
      × (out.sleeping ≡ (if tick_int then false else cpu.sleeping))
unfolding expire
expire_lem cpu ok e k =
    let counted = record cpu { systick_control = bit_or cpu.systick_control (1 << 16) } in
    let counted_ok : IsConfigured counted = ground arith in
    let tick_int : flag counted.systick_control 2 ≡ bit cpu.systick_control 1 =
      flag-pow counted.systick_control 1 ∙ bit-set cpu.systick_control 16 1 ∙ (ground arith) in
    let digit : bit counted.systick_control k ≡ (bit cpu.systick_control k || 16 == k) =
      bit-set cpu.systick_control 16 k in
    let same : was_pending counted e ≡ was_pending cpu e =
      was_pending_ext counted cpu e refl refl in
    let pended : Cpu = record (set_pending counted 15 true) { sleeping = false } in
    let only = set_pending_only counted 15 true in
    let awake : was_pending pended e ≡ was_pending (set_pending counted 15 true) e =
      was_pending_ext pended (set_pending counted 15 true) e refl refl in
    let set = was_pending-set_pending counted 15 e true counted_ok (omega arith) (omega arith) in
    let current = ap (λ (x : Cpu). x.systick_current) only in
    let control = ap (λ (x : Cpu). x.systick_control) only in
    let control_digit : bit (set_pending counted 15 true).systick_control k
        ≡ bit counted.systick_control k =
      ap (λ x. bit x k) control in
    elim (Bool-cases (bit cpu.systick_control 1)) [
      | inl on ↦
          rw (tick_int, on)
            (
              current,
              control_digit ∙ digit,
              awake ∙ set ∙ ap (λ b. if 15 == e then true else b) same,
              refl,
            )
      | inr off ↦ rw (tick_int, off) (refl, digit, same, refl)
    ]

module _ (cpu : Cpu) (v7 : is_armv6_m cpu.architecture ≡ false)
    (enabled : flag cpu.systick_control 1 ≡ true) where
  one_cycle :
      (sleeping : Bool) (c : ℕ)
      → systick_cycle sleeping (with_current cpu (suc c))
        ≡ (if c == 0 then expire (with_current cpu 0) else with_current cpu c)
  unfolding systick_cycle count_down next_phase
  one_cycle sleeping c = let less : suc c - 1 ≡ c = omega arith in ground arith

  one_less :
      (sleeping : Bool) (c : ℕ)
      → systick_cycle sleeping (with_current cpu (suc (suc c))) ≡ with_current cpu (suc c)
  one_less sleeping c = one_cycle sleeping (suc c) ∙ (ground arith)

  waiting :
      (sleeping : Bool) (n i c : ℕ)
      → n ≤ c
      → for_range n i (λ cycle core. systick_cycle sleeping core) (with_current cpu (suc c))
        ≡ with_current cpu (suc c - n)
  unfolding for_range
  waiting sleeping zero i c le = let whole : suc c - 0 ≡ suc c = omega arith in rw whole refl
  waiting sleeping (suc n) i zero le = absurd (omega arith)
  waiting sleeping (suc n) i (suc c) le =
      let left : suc (suc c) - suc n ≡ suc c - n = omega arith in
      let rest = waiting sleeping n (i + 1) c (omega arith) in rw (one_less sleeping c, left) rest

  expiring :
      (sleeping : Bool) (i c : ℕ)
      → for_range (suc c) i (λ cycle core. systick_cycle sleeping core) (with_current cpu (suc c))
        ≡ expire (with_current cpu 0)
  unfolding for_range
  expiring sleeping i zero = one_cycle sleeping 0
  expiring sleeping i (suc c) =
      let rest = expiring sleeping (i + 1) c in rw (one_less sleeping c) rest

  -- On a configured core other than Armv6-M with the counter enabled at c + 1, SysTick counts down
  -- one by one for c cycles with nothing else changed. The next cycle brings it to 0 and sets
  -- COUNTFLAG (bit 16 of CTRL) and no other bit; with TICKINT (bit 1 of CTRL) it also makes exception
  -- 15 pending and wakes the core, and without it neither; no other pending bit changes. From 0, one
  -- cycle loads the reload value.
  pub advance_systick_lem :
      IsConfigured cpu
      → (c n e k : ℕ) → n ≤ c
      → let out = advance_systick (with_current cpu (suc c)) (suc c) in
        let tick_int = bit cpu.systick_control 1 in
        (advance_systick (with_current cpu (suc c)) n ≡ with_current cpu (suc c - n))
        × (out.systick_current ≡ 0)
        × (bit out.systick_control k ≡ (bit cpu.systick_control k || 16 == k))
        × (was_pending out e ≡ (if tick_int && 15 == e then true else was_pending cpu e))
        × (out.sleeping ≡ (if tick_int then false else cpu.sleeping))
        × (advance_systick (with_current cpu 0) 1 ≡ with_current cpu cpu.systick_reload)
  unfolding advance_systick for_range systick_cycle count_down next_phase
  advance_systick_lem ok c n e k le =
      let last = expire_lem (with_current cpu 0) (with_current-IsConfigured cpu 0 ok) e k in
      let same = was_pending_ext (with_current cpu 0) cpu e refl refl in
      rw (expiring cpu.sleeping 0 c) (
        waiting cpu.sleeping n 0 c le,
        last.0,
        last.1,
        last.2 ∙ ap (λ b. if bit cpu.systick_control 1 && 15 == e then true else b) same,
        last.3,
        ground arith,
      )
