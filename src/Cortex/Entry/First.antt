-- ===== src/Cortex/Entry/First.antt =====
-- The exception that is taken is before every other one that could be.
use kinetis_k22_sim.Base.{
  ℕ, ◌+◌, ◌≤◌, Bool, true, false, not, ◌&&◌, ◌||◌, ltb, ◌==◌, for_range, for_range_inv, ◌≡◌, refl,
  arith,
}
use kinetis_k22_sim.Cortex.State.{Cpu}
use kinetis_k22_sim.Cortex.Selection.Best.{IsBest, pick, none-IsBest, skip-IsBest, pick-IsBest}
use kinetis_k22_sim.Cortex.Selection.Taken.{IsFirst, IsFirst-of_IsBest}
use kinetis_k22_sim.Cortex.Entry.Take.{takeable, take_if_first, next_exception}

-- The exceptions below the NMI and HardFault.
abbrev pub configurable : ℕ → Bool
configurable e = not (ltb e 4 || e == 7 || e == 8 || e == 9 || e == 10 || e == 13)

pub take_candidate : Cpu → ℕ → Bool
take_candidate cpu e = configurable e && takeable cpu e

module _ (cpu : Cpu) where
  abbrev Best : ℕ → ℕ → Type 0
  Best = IsBest cpu (take_candidate cpu)

  take_step :
      (e s : ℕ) → 4 ≤ e → configurable e ≡ true → Best e s → Best (e + 1) (take_if_first cpu e s)
  take_step e s low ok best =
      let same : take_if_first cpu e s ≡ pick cpu (take_candidate cpu) e s =
        unfold take_candidate in ground arith in
      rw same (pick-IsBest cpu (take_candidate cpu) e s (omega arith) best)

  pass : (e s : ℕ) → configurable e ≡ false → Best e s → Best (e + 1) s
  pass e s reserved best =
      skip-IsBest cpu (take_candidate cpu) e s (unfold take_candidate in ground arith) best

  pass_four : (s : ℕ) → Best 7 s → Best 11 s
  pass_four s best = pass 10 s refl (pass 9 s refl (pass 8 s refl (pass 7 s refl best)))

  take_loop :
      (n s : ℕ)
      → Best 16 s
      → Best (n + 16) (for_range n 0 (λ irq s. take_if_first cpu (irq + 16) s) s)
  take_loop n s best =
      for_range_inv (λ irq s. Best (irq + 16) s) _ n
        (λ irq s below h.
          let next : irq + 1 + 16 ≡ irq + 16 + 1 = omega arith in
          rw next (take_step (irq + 16) s (omega arith) (ground arith) h))
        n 0 s (omega arith) best

-- Below the NMI and HardFault, the exception that is entered next is pending, enabled if it is an
-- interrupt, and can preempt the current one; it is before every other such exception, in the order
-- of priorities and numbers, and it is 0 only if there is none.
pub next_exception-IsFirst :
    (cpu : Cpu)
    → IsFirst cpu (take_candidate cpu) (cpu.external_irq_count + 16) (next_exception cpu)
unfolding next_exception
next_exception-IsFirst cpu =
    IsFirst-of_IsBest cpu (take_candidate cpu) (cpu.external_irq_count + 16) _ (
      take_loop cpu cpu.external_irq_count _ (
        take_step cpu 15 _ (omega arith) refl (
          take_step cpu 14 _ (omega arith) refl (
            pass cpu 13 _ refl (
              take_step cpu 12 _ (omega arith) refl (
                take_step cpu 11 _ (omega arith) refl (
                  pass_four cpu _ (
                    take_step cpu 6 _ (omega arith) refl (
                      take_step cpu 5 _ (omega arith) refl (
                        take_step cpu 4 _ (omega arith) refl (
                          pass cpu 3 _ refl (
                            pass cpu 2 _ refl
                              (none-IsBest cpu (take_candidate cpu) 2 (omega arith))))))))))))))
