-- ===== src/Cortex/Selection/Best.antt =====
-- A scan that keeps the exception that is before the others ends with the one that is before all.
use kinetis_k22_sim.Base.{
  ℕ, ◌+◌, ◌<◌, ◌≤◌, Bool, true, false, ◌&&◌, ◌||◌, ◌==◌, if◌then◌else◌, for_range, for_range_inv,
  ◌≡◌, ◌≢◌, ◌⊎◌, inl, inr, refl, sym, ◌∙◌, arith, Bool-cases, ==→≡, false≢true,
}
use kinetis_k22_sim.Cortex.State.{Cpu}
use kinetis_k22_sim.Cortex.Priority.{exception_before}
use kinetis_k22_sim.Cortex.Priority.Order.{
  exception_before_irrefl, exception_before_trans, exception_before_total, before_zero,
}

-- `s` is the best of the candidates below `k`: itself one of them, or 0 when there are none.
pub record IsBest (cpu : Cpu) (eligible : ℕ → Bool) (k s : ℕ) : Type 0 where
  pub chosen : (s ≡ 0) ⊎ (eligible s ≡ true)
  pub bounded : (s ≡ 0) ⊎ (s < k)
  pub unbeaten : (c : ℕ) → 2 ≤ c → c < k → eligible c ≡ true → exception_before cpu c s ≡ false

module _ (cpu : Cpu) (eligible : ℕ → Bool) where
  abbrev pub pick : ℕ → ℕ → ℕ
  pick e s = if eligible e && (s == 0 || exception_before cpu e s) then e else s

  pub pick-IsBest :
      (e s : ℕ) → 2 ≤ e → IsBest cpu eligible e s → IsBest cpu eligible (e + 1) (pick e s)
  pick-IsBest e s low best = record {
    chosen = ground (arith, best.chosen);
    bounded = ground (arith, best.bounded);
    unbeaten = λ c lo hi ok. ground (
      arith,
      best.unbeaten c,
      exception_before_irrefl cpu e,
      exception_before_trans cpu c e s,
      before_zero cpu c,
    );
  }

  pub none-IsBest : (k : ℕ) → k ≤ 2 → IsBest cpu eligible k 0
  none-IsBest k h = record {
    chosen = inl refl;
    bounded = inl refl;
    unbeaten = λ c lo hi ok. absurd (omega arith);
  }

  -- A number that is no candidate can be passed over.
  pub skip-IsBest :
      (k s : ℕ) → eligible k ≡ false → IsBest cpu eligible k s → IsBest cpu eligible (k + 1) s
  skip-IsBest k s skipped best = record {
    chosen = best.chosen;
    bounded = ground (arith, best.bounded);
    unbeaten = λ c lo hi ok. elim (Bool-cases (c == k)) [
      | inl here ↦ absurd (false≢true (sym skipped ∙ (rw (==→≡ c k here) at ok)))
      | inr other ↦ best.unbeaten c lo (ground arith) ok
    ];
  }

  pub scan-IsBest :
      (n i j s : ℕ)
      → 2 ≤ i
      → i + n ≡ j
      → IsBest cpu eligible i s
      → IsBest cpu eligible j (for_range n i pick s)
  scan-IsBest n i j s low e best =
      (for_range_inv (λ k s. (2 ≤ k) × IsBest cpu eligible k s) pick j
        (λ k s below h. (omega arith, pick-IsBest k s h.0 h.1)) n i s e (low, best)).1

  -- What the best candidate is before: every other one.
  pub before_others :
      (k s c : ℕ)
      → IsBest cpu eligible k s
      → 2 ≤ c
      → c < k
      → eligible c ≡ true
      → s ≢ c
      → exception_before cpu s c ≡ true
  before_others k s c best lo hi ok ne =
      ground (arith, exception_before_total cpu s c ne, best.unbeaten c lo hi ok)
