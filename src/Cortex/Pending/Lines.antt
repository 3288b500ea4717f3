-- ===== src/Cortex/Pending/Lines.antt =====
-- The interrupt lines: pending state by number, and level-sensitive requests.
use kinetis_k22_sim.Base.{
  ℕ, ◌+◌, ◌-◌, ◌/◌, ◌<◌, bit_and, bit_or, Bool, true, false, not, ◌&&◌, ◌||◌, leb, ◌==◌,
  if◌then◌else◌, ◌!◌, flag, set, not32, ◌≡◌, refl, ap, ◌∙◌, arith, length-set, List,
}
use kinetis_k22_sim.Cortex.State.{Cpu, IsConfigured}
use kinetis_k22_sim.Cortex.Pending.{
  irq_mask, was_pending, set_pending, set_irq, get_irq_pending, get_irq_active, raise_irq_level,
  lower_irq_level, set_irq_level,
}
use kinetis_k22_sim.Cortex.Pending.Bits.{was_pending-set_pending}
use kinetis_k22_sim.Cortex.Pending.Frame.{set_pending_only}

get_irq_pending_lem :
    (cpu : Cpu) (irq : ℕ)
    → irq < cpu.external_irq_count
    → get_irq_pending cpu irq ≡ was_pending cpu (irq + 16)
unfolding get_irq_pending was_pending
get_irq_pending_lem cpu irq h = let e : irq + 16 - 16 ≡ irq = omega arith in rw e (ground arith)

-- Setting or clearing an implemented interrupt sets or clears its pending state, and no other's.
pub get_irq_pending-set_irq :
    (cpu : Cpu) (irq other : ℕ) (pending : Bool)
    → IsConfigured cpu
    → irq < cpu.external_irq_count
    → other < cpu.external_irq_count
    → get_irq_pending (set_irq cpu irq pending) other
      ≡ (if irq == other then pending else get_irq_pending cpu other)
unfolding set_irq
get_irq_pending-set_irq cpu irq other pending configured h h' =
    let number : leb cpu.external_irq_count irq ≡ false = ground arith in
    let after = set_pending cpu (irq + 16) pending in
    let count = ap (λ (c : Cpu). c.external_irq_count) (set_pending_only cpu (irq + 16) pending) in
    let one = get_irq_pending_lem after other (ground (arith, count)) in
    let two = was_pending-set_pending cpu (irq + 16) (other + 16) pending configured in
    let three = get_irq_pending_lem cpu other h' in
    let test : irq + 16 == other + 16 ≡ irq == other = ground arith in
    rw number (one ∙ two (omega arith) (omega arith) ∙ rw (test, three) refl)

-- The state of a line, as the core last saw it.
abbrev pub line_is_high : Cpu → ℕ → Bool
line_is_high cpu irq = flag (cpu.irq_level ! (irq / 32)) (irq_mask irq)

pending_ext :
    (cpu : Cpu) (level : List ℕ) (irq : ℕ)
    → (get_irq_pending (record cpu { irq_level = level }) irq ≡ get_irq_pending cpu irq)
      × (get_irq_active (record cpu { irq_level = level }) irq ≡ get_irq_active cpu irq)
unfolding get_irq_pending get_irq_active
pending_ext cpu level irq = (refl, refl)

-- On a configured core, a line that is set high makes its interrupt pending on a rising edge, and
-- again when the interrupt is neither pending nor active; in every other case, and for every other
-- implemented interrupt, the pending state stays.
pub set_irq_level_lem :
    (cpu : Cpu) (irq other : ℕ) (asserted : Bool)
    → IsConfigured cpu
    → irq < cpu.external_irq_count
    → other < cpu.external_irq_count
    → let requests =
        asserted
        && (not (line_is_high cpu irq)
            || (not (get_irq_pending cpu irq) && not (get_irq_active cpu irq))) in
      get_irq_pending (set_irq_level cpu irq asserted) other
      ≡ (if requests && irq == other then true else get_irq_pending cpu other)
unfolding set_irq_level raise_irq_level lower_irq_level
set_irq_level_lem cpu irq other true configured h h' =
    let level = set cpu.irq_level (irq / 32) (bit_or (cpu.irq_level ! (irq / 32)) (irq_mask irq)) in
    let raised = record cpu { irq_level = level } in
    let same = pending_ext cpu level irq in
    let same' = pending_ext cpu level other in
    let requested =
      get_irq_pending-set_irq raised irq other true
        (record {
          irq_count = configured.irq_count;
          pending_words = configured.pending_words;
          enabled_words = configured.enabled_words;
          active_words = configured.active_words;
          level_words = length-set cpu.irq_level (irq / 32) _ ∙ configured.level_words;
          active_cells = configured.active_cells;
        })
        h h' in
    ground arith
set_irq_level_lem cpu irq other false configured h h' =
    let level =
      set cpu.irq_level (irq / 32) (bit_and (cpu.irq_level ! (irq / 32)) (not32 (irq_mask irq))) in
    let same = pending_ext cpu level other in ground arith
