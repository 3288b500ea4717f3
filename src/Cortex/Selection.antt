-- ===== src/Cortex/Selection.antt =====
-- src/architecture/cortex_m4/exceptions/advanced.c and system.c: the active exceptions, and the
-- choice of the exception that is taken next.
pub mod Best
pub mod Taken
pub mod Examples
use kinetis_k22_sim.Base.{
  ℕ, ◌+◌, ◌-◌, ◌<◌, Bool, true, false, not, ◌&&◌, ◌||◌, ltb, ◌==◌, ◌!=◌, if◌then◌else◌, ◌!◌, ◌<<◌,
  flag, for_range, List, [], ◌∷◌, ◌/◌, bit_and,
}
use kinetis_k22_sim.Cortex.State.{Cpu}
use kinetis_k22_sim.Cortex.Priority.{exception_can_preempt, exception_before}
use kinetis_k22_sim.Cortex.Pending.{exception_pending, system_is_pending, external_is_pending}

-- `cortex_m4_exception_advanced_active`.
unfoldable pub exception_active : Cpu → ℕ → Bool
exception_active cpu exception =
    if ltb exception 2
    then false
    else for_range cpu.exception_depth 0
        (λ i found. found || cpu.active_exceptions ! i == exception) false

-- The exceptions that the loop of `selected_pending` does not skip.
unfoldable pub selectable : Cpu → ℕ → ℕ → ℕ → Bool
selectable cpu preemption_target returning_exception exception =
    if exception == 7
      || exception == 8
      || exception == 9
      || exception == 10
      || exception == 13
      || not (exception_pending cpu exception)
      || not (exception_can_preempt cpu exception preemption_target)
    then false
    else if exception_active cpu exception && exception != returning_exception
    then false
    else true

unfoldable pub selected_pending : Cpu → ℕ → ℕ → ℕ
selected_pending cpu preemption_target returning_exception =
    for_range (cpu.external_irq_count + 16 - 2) 2
      (λ exception selected.
        if selectable cpu preemption_target returning_exception exception
          && (selected == 0 || exception_before cpu exception selected)
        then exception
        else selected)
      0

-- `cortex_m4_exception_advanced_late_arrival`.
pub late_arrival : Cpu → ℕ → ℕ
late_arrival cpu entering_exception =
    if ltb entering_exception 2
    then entering_exception
    else let candidate = selected_pending cpu entering_exception 0 in
      if candidate == 0 || not (exception_before cpu candidate entering_exception)
      then entering_exception
      else candidate

-- One comparison of `pending_vector`: the exception replaces the selected one if it is pending and
-- before it.
pub take_if_before : Cpu → Bool → ℕ → ℕ → ℕ
take_if_before cpu pending exception selected =
    if pending && exception_before cpu exception selected then exception else selected

-- `pending_vector`: the exception number that ICSR shows as VECTPENDING.
pub pending_vector : Cpu → ℕ
pending_vector cpu =
    let after_nmi = if system_is_pending cpu 2 then 2 else 0 in
    let after_hard_fault = take_if_before cpu (system_is_pending cpu 3) 3 after_nmi in
    let after_4 = take_if_before cpu (system_is_pending cpu 4) 4 after_hard_fault in
    let after_5 = take_if_before cpu (system_is_pending cpu 5) 5 after_4 in
    let after_6 = take_if_before cpu (system_is_pending cpu 6) 6 after_5 in
    let after_11 = take_if_before cpu (system_is_pending cpu 11) 11 after_6 in
    let after_12 = take_if_before cpu (system_is_pending cpu 12) 12 after_11 in
    let after_14 = take_if_before cpu (system_is_pending cpu 14) 14 after_12 in
    let after_15 = take_if_before cpu (system_is_pending cpu 15) 15 after_14 in
    for_range cpu.external_irq_count 0
      (λ irq selected. take_if_before cpu (external_is_pending cpu (irq + 16)) (irq + 16) selected)
      after_15
