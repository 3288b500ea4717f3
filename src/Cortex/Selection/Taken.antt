-- ===== src/Cortex/Selection/Taken.antt =====
-- The exception that is chosen is a candidate, and no other candidate is before it.
use kinetis_k22_sim.Base.{
  ℕ, ◌+◌, ◌-◌, ◌<◌, ◌≤◌, Bool, true, false, not, ◌&&◌, ◌||◌, ltb, ◌==◌, if◌then◌else◌, for_range,
  for_range_inv, ◌≡◌, ◌≢◌, ◌⊎◌, inl, inr, refl, arith, Bool-cases,
}
use kinetis_k22_sim.Cortex.State.{Cpu}
use kinetis_k22_sim.Cortex.Priority.{exception_can_preempt, exception_before}
use kinetis_k22_sim.Cortex.Priority.Order.{before_zero, zero-before}
use kinetis_k22_sim.Cortex.Pending.{exception_pending, system_is_pending, external_is_pending}
use kinetis_k22_sim.Cortex.Selection.{
  selectable, selected_pending, late_arrival, take_if_before, pending_vector,
}
use kinetis_k22_sim.Cortex.Selection.Best.{
  IsBest, pick, none-IsBest, skip-IsBest, pick-IsBest, scan-IsBest, before_others,
}

-- `s` is the choice among the candidates below `k`: 0 if there is none, else a candidate that is
-- before every other one.
pub record IsFirst (cpu : Cpu) (eligible : ℕ → Bool) (k s : ℕ) : Type 0 where
  pub chosen : (s ≡ 0) ⊎ ((eligible s ≡ true) × (s < k))
  pub first : (c : ℕ) → 2 ≤ c → c < k → eligible c ≡ true → s ≢ c → exception_before cpu s c ≡ true
  pub none_left : (c : ℕ) → s ≡ 0 → 2 ≤ c → c < k → eligible c ≡ false

pub IsFirst-of_IsBest :
    (cpu : Cpu) (eligible : ℕ → Bool) (k s : ℕ) → IsBest cpu eligible k s → IsFirst cpu eligible k s
IsFirst-of_IsBest cpu eligible k s best = record {
  chosen = ground (arith, best.chosen, best.bounded);
  first = λ c lo hi ok ne. before_others cpu eligible k s c best lo hi ok ne;
  none_left = λ c none lo hi. elim (Bool-cases (eligible c)) [
    | inl ok ↦
        ground
          (arith, before_others cpu eligible k s c best lo hi ok (omega arith), zero-before cpu c)
    | inr no_candidate ↦ no_candidate
  ];
}

-- `selected_pending` gives a pending exception that can preempt the target and is not active
-- (unless it is the one that returns), and that is before every other such exception; it gives 0
-- only if there is none.
pub selected_pending-IsFirst :
    (cpu : Cpu) (target returning : ℕ)
    → IsFirst cpu
        (selectable cpu target returning)
        (cpu.external_irq_count + 16)
        (selected_pending cpu target returning)
unfolding selected_pending
selected_pending-IsFirst cpu target returning =
    IsFirst-of_IsBest cpu (selectable cpu target returning) (cpu.external_irq_count + 16) _ (
      scan-IsBest cpu (selectable cpu target returning) (cpu.external_irq_count + 16 - 2) 2
        (cpu.external_irq_count + 16) 0 (omega arith) (omega arith)
        (none-IsBest cpu (selectable cpu target returning) 2 (omega arith)))

selectable_facts :
    (cpu : Cpu) (target returning e : ℕ)
    → selectable cpu target returning e ≡ true
    → (exception_pending cpu e ≡ true) × (exception_can_preempt cpu e target ≡ true)
unfolding selectable
selectable_facts cpu target returning e h = ground arith

-- Late arrival: the exception (2 or more) that was being entered stays, or the one that is entered
-- instead is pending, can preempt it and is before it.
pub late_arrival_lem :
    (cpu : Cpu) (entering : ℕ)
    → 2 ≤ entering
    → (late_arrival cpu entering ≡ entering)
      ⊎ ((exception_before cpu (late_arrival cpu entering) entering ≡ true)
          × (exception_pending cpu (late_arrival cpu entering) ≡ true)
          × (exception_can_preempt cpu (late_arrival cpu entering) entering ≡ true))
unfolding late_arrival
late_arrival_lem cpu entering low = ground (
  arith,
  (selected_pending-IsFirst cpu entering 0).chosen,
  selectable_facts cpu entering 0 (selected_pending cpu entering 0),
)

-- The exceptions that `pending_vector` looks at.
pub vector_candidate : Cpu → ℕ → Bool
vector_candidate cpu e =
    not (ltb e 2 || e == 7 || e == 8 || e == 9 || e == 10 || e == 13) && exception_pending cpu e

-- One comparison of `pending_vector` is one step of the scan.
vector_step :
    (cpu : Cpu) (pending : Bool) (e s : ℕ)
    → 2 ≤ e
    → vector_candidate cpu e ≡ pending
    → IsBest cpu (vector_candidate cpu) e s
    → IsBest cpu (vector_candidate cpu) (e + 1) (take_if_before cpu pending e s)
unfolding take_if_before
vector_step cpu pending e s low is best =
    let same : take_if_before cpu pending e s ≡ pick cpu (vector_candidate cpu) e s =
      ground (arith, before_zero cpu e) in
    rw same (pick-IsBest cpu (vector_candidate cpu) e s low best)

vector_candidate_system :
    (cpu : Cpu) (e : ℕ)
    → (2 ≤ e) × (e < 7) ⊎ (e ≡ 11) ⊎ (e ≡ 12) ⊎ (e ≡ 14) ⊎ (e ≡ 15)
    → vector_candidate cpu e ≡ system_is_pending cpu e
unfolding vector_candidate exception_pending
vector_candidate_system cpu e h = ground arith

vector_candidate_reserved :
    (cpu : Cpu) (e : ℕ) → (7 ≤ e) × (e < 11) ⊎ (e ≡ 13) → vector_candidate cpu e ≡ false
unfolding vector_candidate
vector_candidate_reserved cpu e h = ground arith

vector_candidate_external :
    (cpu : Cpu) (irq : ℕ) → vector_candidate cpu (irq + 16) ≡ external_is_pending cpu (irq + 16)
unfolding vector_candidate exception_pending
vector_candidate_external cpu irq = ground arith

module _ (cpu : Cpu) where
  -- A comparison with a system exception, and a run of reserved numbers.
  system_step :
      (e s : ℕ)
      → (2 ≤ e) × (e < 7) ⊎ (e ≡ 11) ⊎ (e ≡ 12) ⊎ (e ≡ 14) ⊎ (e ≡ 15)
      → IsBest cpu (vector_candidate cpu) e s
      → IsBest cpu (vector_candidate cpu) (e + 1) (take_if_before cpu (system_is_pending cpu e) e s)
  system_step e s h best =
      vector_step cpu (system_is_pending cpu e) e s (omega arith) (vector_candidate_system cpu e h)
        best

  reserved_step :
      (e s : ℕ)
      → (7 ≤ e) × (e < 11) ⊎ (e ≡ 13)
      → IsBest cpu (vector_candidate cpu) e s
      → IsBest cpu (vector_candidate cpu) (e + 1) s
  reserved_step e s h best =
      skip-IsBest cpu (vector_candidate cpu) e s (vector_candidate_reserved cpu e h) best

  reserved_run :
      (s : ℕ) → IsBest cpu (vector_candidate cpu) 7 s → IsBest cpu (vector_candidate cpu) 11 s
  reserved_run s best = reserved_step 10 s (inl (omega arith, omega arith)) (
      reserved_step 9 s (inl (omega arith, omega arith)) (
        reserved_step 8 s (inl (omega arith, omega arith))
          (reserved_step 7 s (inl (omega arith, omega arith)) best)))

  external_loop :
      (n s : ℕ)
      → IsBest cpu (vector_candidate cpu) 16 s
      → IsBest cpu (vector_candidate cpu) (n + 16) (
          for_range n 0
            (λ irq s. take_if_before cpu (external_is_pending cpu (irq + 16)) (irq + 16) s)
            s)
  external_loop n s best =
      for_range_inv (λ irq s. IsBest cpu (vector_candidate cpu) (irq + 16) s) _ n
        (λ irq s below h.
          let next : irq + 1 + 16 ≡ irq + 16 + 1 = omega arith in
          rw next (
            vector_step cpu (external_is_pending cpu (irq + 16)) (irq + 16) s (omega arith)
              (vector_candidate_external cpu irq) h))
        n 0 s (omega arith) best

  nmi_step : IsBest cpu (vector_candidate cpu) 3 (if system_is_pending cpu 2 then 2 else 0)
  nmi_step =
      let same : (if system_is_pending cpu 2 then 2 else 0)
          ≡ take_if_before cpu (system_is_pending cpu 2) 2 0 =
        unfold take_if_before in ground (arith, before_zero cpu 2) in
      rw same (
        system_step 2 0 (inl (omega arith, omega arith))
          (none-IsBest cpu (vector_candidate cpu) 2 (omega arith)))

-- VECTPENDING is the pending exception that is before all others, the NMI and HardFault included,
-- or 0 if no implemented exception is pending.
pub pending_vector-IsFirst :
    (cpu : Cpu)
    → IsFirst cpu (vector_candidate cpu) (cpu.external_irq_count + 16) (pending_vector cpu)
unfolding pending_vector
pending_vector-IsFirst cpu =
    IsFirst-of_IsBest cpu (vector_candidate cpu) (cpu.external_irq_count + 16) _ (
      external_loop cpu cpu.external_irq_count _ (
        system_step cpu 15 _ (inr (inr (inr (inr refl)))) (
          system_step cpu 14 _ (inr (inr (inr (inl refl)))) (
            reserved_step cpu 13 _ (inr refl) (
              system_step cpu 12 _ (inr (inr (inl refl))) (
                system_step cpu 11 _ (inr (inl refl)) (
                  reserved_run cpu _ (
                    system_step cpu 6 _ (inl (omega arith, omega arith)) (
                      system_step cpu 5 _ (inl (omega arith, omega arith)) (
                        system_step cpu 4 _ (inl (omega arith, omega arith)) (
                          system_step cpu 3 _ (inl (omega arith, omega arith))
                            (nmi_step cpu))))))))))))
