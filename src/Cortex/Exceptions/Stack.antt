-- ===== src/Cortex/Exceptions/Stack.antt =====
-- Entering and leaving exceptions push and pop the stack of active exceptions.
use kinetis_k22_sim.Base.{
  ℕ, ◌+◌, ◌-◌, ◌<◌, ◌≤◌, Bool, true, false, ◌||◌, Bool-cases, ltb, leb, ◌!◌, set, length, ◌≡◌, ◌⊎◌,
  inl, inr, ap, arith, get_or-set, set-set, set_self, get_or-set_self,
}
use kinetis_k22_sim.Cortex.State.{Cpu, lockup}
use kinetis_k22_sim.Cortex.Pending.{set_pending, wait_for_interrupt}
use kinetis_k22_sim.Cortex.Pending.Frame.{set_pending_only, wait_for_interrupt_only}
use kinetis_k22_sim.Cortex.Exceptions.{
  frame_limit, activate_external, deactivate_external, multiple_complete, push_active, commit_entry,
  pop_active, clear_faultmask, sleep_on_exit, is_innermost, commit_return,
}

-- What the stack of active exceptions keeps: its depth fits the array, the entries are exception
-- numbers, and the cells above it are 0.
pub record IsStack (cpu : Cpu) : Type 0 where
  pub fits : cpu.exception_depth ≤ frame_limit
  pub entries : (i : ℕ) → i < cpu.exception_depth → 2 ≤ cpu.active_exceptions ! i
  pub clean : (i : ℕ) → cpu.exception_depth ≤ i → cpu.active_exceptions ! i ≡ 0

-- `push_active` followed by steps that leave the stack alone.
record SameStack (cpu other : Cpu) : Type 0 where
  depth : other.exception_depth ≡ cpu.exception_depth
  cells : other.active_exceptions ≡ cpu.active_exceptions

SameStack-set_pending :
    (cpu : Cpu) (e : ℕ) (pending : Bool) → SameStack cpu (set_pending cpu e pending)
SameStack-set_pending cpu e pending = record {
  depth = ap (λ (c : Cpu). c.exception_depth) (set_pending_only cpu e pending);
  cells = ap (λ (c : Cpu). c.active_exceptions) (set_pending_only cpu e pending);
}

SameStack-activate_external : (cpu : Cpu) (e : ℕ) → SameStack cpu (activate_external cpu e)
unfolding activate_external
SameStack-activate_external cpu e = ground arith

SameStack-deactivate_external : (cpu : Cpu) (e : ℕ) → SameStack cpu (deactivate_external cpu e)
unfolding deactivate_external
SameStack-deactivate_external cpu e = ground arith

SameStack-wait : (cpu : Cpu) → SameStack cpu (wait_for_interrupt cpu)
SameStack-wait cpu = record {
  depth = ap (λ (c : Cpu). c.exception_depth) (wait_for_interrupt_only cpu);
  cells = ap (λ (c : Cpu). c.active_exceptions) (wait_for_interrupt_only cpu);
}

SameStack-leave :
    (cpu : Cpu) (e : ℕ) (thread : Bool)
    → SameStack cpu (sleep_on_exit (clear_faultmask cpu e) thread)
unfolding sleep_on_exit clear_faultmask
SameStack-leave cpu e thread =
    ground (arith, SameStack-wait cpu, SameStack-wait (record cpu { faultmask = 0 }))

commit_entry_stack :
    (cpu : Cpu) (e : ℕ)
    → 2 ≤ e
    → cpu.exception_depth < frame_limit
    → SameStack (push_active cpu e) (commit_entry cpu e)
unfolding commit_entry multiple_complete
commit_entry_stack cpu e low room = ground (
  arith,
  SameStack-set_pending (push_active cpu e) e false,
  SameStack-activate_external (set_pending (push_active cpu e) e false) e,
)

commit_return_stack :
    (cpu : Cpu) (e : ℕ) (thread : Bool)
    → is_innermost cpu e ≡ true
    → SameStack (pop_active cpu) (commit_return cpu e thread)
unfolding commit_return pop_active
commit_return_stack cpu e thread inner = ground (
  arith,
  SameStack-deactivate_external cpu e,
  SameStack-leave (pop_active (deactivate_external cpu e)) e thread,
)

-- With a stack array of 16 cells, entering an exception (2 or more) on a stack that is not full
-- puts it on top and raises the depth by one; on a full stack, or for a number below 2, the core
-- locks up and nothing else changes.
pub commit_entry_lem :
    (cpu : Cpu) (e : ℕ)
    → length cpu.active_exceptions ≡ 16
    → ((2 ≤ e) × (cpu.exception_depth < frame_limit)
        → ((commit_entry cpu e).exception_depth ≡ cpu.exception_depth + 1)
          × ((commit_entry cpu e).active_exceptions
              ≡ set cpu.active_exceptions cpu.exception_depth e)
          × ((commit_entry cpu e).active_exceptions ! cpu.exception_depth ≡ e))
      × ((e < 2) ⊎ (frame_limit ≤ cpu.exception_depth)
          → commit_entry cpu e ≡ record cpu { stop = lockup })
unfolding push_active
commit_entry_lem cpu e cells = (
  λ h. ground (
    arith,
    commit_entry_stack cpu e h.0 h.1,
    get_or-set_self cpu.active_exceptions cpu.exception_depth e 0 (omega arith),
  ),
  λ h. unfold commit_entry in ground arith,
)

-- Entry of any exception keeps a stack of 16 cells well formed.
pub commit_entry-IsStack :
    (cpu : Cpu) (e : ℕ)
    → length cpu.active_exceptions ≡ 16
    → IsStack cpu
    → IsStack (commit_entry cpu e)
commit_entry-IsStack cpu e cells ok =
    elim (Bool-cases (ltb e 2 || leb frame_limit cpu.exception_depth)) [
      | inl refused ↦
          rw ((commit_entry_lem cpu e cells).1 (ground arith))
            (record { fits = ok.fits; entries = ok.entries; clean = ok.clean })
      | inr taken ↦
          let entered = (commit_entry_lem cpu e cells).0 (ground arith, ground arith) in
          record {
            fits = ground (arith, entered);
            entries = λ i h. ground (
              arith,
              entered,
              get_or-set cpu.active_exceptions cpu.exception_depth i e 0,
              ok.entries i,
            );
            clean = λ i h. ground (
              arith,
              entered,
              get_or-set cpu.active_exceptions cpu.exception_depth i e 0,
              ok.clean i,
            );
          }
    ]

-- With a well-formed stack of 16 cells that is not full, returning from an exception (2 or more)
-- that was just entered gives back the depth and the stack from before the entry, whether the
-- return goes to Thread mode or not.
pub commit_return-commit_entry :
    (cpu : Cpu) (e : ℕ) (thread : Bool)
    → length cpu.active_exceptions ≡ 16
    → IsStack cpu
    → 2 ≤ e
    → cpu.exception_depth < frame_limit
    → let back = commit_return (commit_entry cpu e) e thread in
      (back.exception_depth ≡ cpu.exception_depth)
      × (back.active_exceptions ≡ cpu.active_exceptions)
commit_return-commit_entry cpu e thread cells ok low room =
    let entered = (commit_entry_lem cpu e cells).0 (low, room) in
    let inner : is_innermost (commit_entry cpu e) e ≡ true =
      unfold is_innermost in ground (arith, entered) in
    let left = commit_return_stack (commit_entry cpu e) e thread inner in
    let d = cpu.exception_depth in
    let A = cpu.active_exceptions in
    (
      unfold pop_active in ground (arith, entered, left.depth),
      unfold pop_active in
          ground (arith, entered, left.cells, set-set A d e 0, set_self A d 0, ok.clean d),
    )

-- Return keeps a stack of 16 cells well formed, whatever exception it is asked to leave.
pub commit_return-IsStack :
    (cpu : Cpu) (e : ℕ) (thread : Bool)
    → length cpu.active_exceptions ≡ 16
    → IsStack cpu
    → IsStack (commit_return cpu e thread)
commit_return-IsStack cpu e thread cells ok = elim (Bool-cases (is_innermost cpu e)) [
  | inl inner ↦
      let left = commit_return_stack cpu e thread inner in
      let A = cpu.active_exceptions in
      let d = cpu.exception_depth - 1 in
      record {
        fits = unfold pop_active in ground (arith, left.depth, ok.fits);
        entries = λ i h.
            unfold pop_active is_innermost in
            ground (arith, left.depth, left.cells, get_or-set A d i 0 0, ok.entries i, ok.fits);
        clean = λ i h.
            unfold pop_active is_innermost in
            ground (arith, left.depth, left.cells, get_or-set A d i 0 0, ok.clean i, ok.fits);
      }
  | inr other ↦
      unfold commit_return in
      rw other (record { fits = ok.fits; entries = ok.entries; clean = ok.clean })
]
