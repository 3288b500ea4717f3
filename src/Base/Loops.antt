-- ===== src/Base/Loops.antt =====
-- Counted `for` loops, with one invariant rule.
use Prim.Native.Nat.{ℕ, zero, suc, ◌+◌, ◌<◌}
use mathlib.Core.Path.{◌≡◌}
use native.Mathlib.Omega.{arith}

-- `for (index = start; index < start + rounds; index++) state = round(index, state);`
unfoldable pub for_range {ℓ} : {State : Type ℓ} → ℕ → ℕ → (ℕ → State → State) → State → State
for_range zero start round state = state
for_range (suc rounds) start round state = for_range rounds (start + 1) round (round start state)

-- What one round keeps, the loop keeps: `last` is the end of the range.
pub for_range_inv {ℓ κ} :
    {State : Type ℓ} (Kept : ℕ → State → Type κ) (round : ℕ → State → State) (last : ℕ)
    → ((index : ℕ) (state : State)
        → index < last
        → Kept index state
        → Kept (index + 1) (round index state))
    → (rounds start : ℕ) (state : State) → start + rounds ≡ last
    → Kept start state
    → Kept last (for_range rounds start round state)
unfolding for_range
for_range_inv Kept round last keep zero start state ends holds =
    let at_end : start ≡ last = omega arith in rw (← at_end) holds
for_range_inv Kept round last keep (suc rounds) start state ends holds =
    let next = keep start state (omega arith) holds in
    for_range_inv Kept round last keep rounds (start + 1) (round start state) (omega arith) next
