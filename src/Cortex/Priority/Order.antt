-- ===== src/Cortex/Priority/Order.antt =====
-- The order in which exceptions are taken is a strict total order, and the masks respect it.
use kinetis_k22_sim.Base.{ℕ, Bool, true, false, not, ltb, ◌!=◌, if◌then◌else◌, ◌≡◌, ◌≢◌, arith}
use kinetis_k22_sim.Base.Int.{ℤ, pos, negsuc, ltb_ℤ, eqb_ℤ}
use kinetis_k22_sim.Cortex.State.{Cpu}
use kinetis_k22_sim.Cortex.Priority.{
  exception_priority, system_priority, exception_preemption, exception_can_preempt,
  exception_before,
}

-- The comparison of two nonzero exceptions, by preemption, subpriority and number.
abbrev lex : ℤ → ℤ → ℕ → ℕ → ℕ → ℕ → Bool
lex p q s t l r = if not (eqb_ℤ p q) then ltb_ℤ p q else if s != t then ltb s t else ltb l r

lex_trans :
    (p q w : ℤ) (s t u l m r : ℕ)
    → lex p q s t l m ≡ true
    → lex q w t u m r ≡ true
    → lex p w s u l r ≡ true
lex_trans (pos p) (pos q) (pos w) s t u l m r h k = ground arith
lex_trans (pos p) (negsuc q) _ s t u l m r h k = ground arith
lex_trans (negsuc p) (negsuc q) (negsuc w) s t u l m r h k = ground arith
lex_trans _ _ _ s t u l m r h k = ground arith

lex_total : (p q : ℤ) (s t l r : ℕ) → l ≢ r → lex p q s t l r ≡ not (lex q p t s r l)
lex_total (pos p) (pos q) s t l r h = ground arith
lex_total (negsuc p) (negsuc q) s t l r h = ground arith
lex_total _ _ s t l r h = ground arith

lex_irrefl : (p : ℤ) (s l : ℕ) → lex p p s s l l ≡ false
lex_irrefl (pos p) s l = ground arith
lex_irrefl (negsuc p) s l = ground arith

preemption_strict : (p q : ℤ) → ltb_ℤ p q ≡ true → (eqb_ℤ p q ≡ false) × (ltb_ℤ q p ≡ false)
preemption_strict (pos p) (pos q) h = ground arith
preemption_strict (negsuc p) (negsuc q) h = ground arith
preemption_strict _ _ h = ground arith

module _ (cpu : Cpu) where
  -- No exception is before itself.
  pub exception_before_irrefl : (e : ℕ) → exception_before cpu e e ≡ false
  unfolding exception_before
  exception_before_irrefl e = ground (
    arith,
    lex_irrefl (exception_preemption cpu e)
        (system_priority cpu (exception_priority cpu e)).subpriority e,
  )

  -- The order in which exceptions are taken is transitive.
  pub exception_before_trans :
      (a b c : ℕ)
      → exception_before cpu a b ≡ true
      → exception_before cpu b c ≡ true
      → exception_before cpu a c ≡ true
  unfolding exception_before
  exception_before_trans a b c h k = ground (
    arith,
    lex_trans (exception_preemption cpu a) (exception_preemption cpu b) (exception_preemption cpu c)
        (system_priority cpu (exception_priority cpu a)).subpriority
        (system_priority cpu (exception_priority cpu b)).subpriority
        (system_priority cpu (exception_priority cpu c)).subpriority a b c,
  )

  -- Of two different exceptions exactly one is before the other.
  pub exception_before_total :
      (a b : ℕ) → a ≢ b → exception_before cpu a b ≡ not (exception_before cpu b a)
  unfolding exception_before
  exception_before_total a b h = ground (
    arith,
    lex_total (exception_preemption cpu a) (exception_preemption cpu b)
        (system_priority cpu (exception_priority cpu a)).subpriority
        (system_priority cpu (exception_priority cpu b)).subpriority a b,
  )

  -- An exception that can preempt another one (not Thread mode, 0) is before it, and cannot be
  -- preempted by it.
  pub exception_before_of_can_preempt :
      (a b : ℕ)
      → b ≢ 0
      → exception_can_preempt cpu a b ≡ true
      → (exception_before cpu a b ≡ true) × (exception_can_preempt cpu b a ≡ false)
  unfolding exception_can_preempt exception_before
  exception_before_of_can_preempt a b nonzero h =
      ground (arith, preemption_strict (exception_preemption cpu a) (exception_preemption cpu b))

  -- Every exception is before "none".
  pub before_zero : (c : ℕ) → c ≢ 0 → exception_before cpu c 0 ≡ true
  unfolding exception_before
  before_zero c h = ground arith

  pub zero-before : (c : ℕ) → exception_before cpu 0 c ≡ false
  unfolding exception_before
  zero-before c = ground arith
