-- ===== src/Cortex/Selection/Examples.antt =====
-- The choice among pending exceptions on the sample core.
use kinetis_k22_sim.Base.{true, false, ◌≡◌, for_range, refl}
use kinetis_k22_sim.Cortex.Sample.{core}
use kinetis_k22_sim.Cortex.Selection.{
  exception_active, selectable, selected_pending, pending_vector,
}
use kinetis_k22_sim.Cortex.Selection.Taken.{
  IsFirst, vector_candidate, selected_pending-IsFirst, pending_vector-IsFirst,
}

selected_pending-IsFirst_example :
    IsFirst core (selectable core 20 0) 90 (selected_pending core 20 0)
selected_pending-IsFirst_example = selected_pending-IsFirst core 20 0

pending_vector-IsFirst_test : IsFirst core (vector_candidate core) 90 (pending_vector core)
pending_vector-IsFirst_test = pending_vector-IsFirst core

-- Tests: exception 20 is active, 21 is not.
active_test : exception_active core 20 ≡ true
unfolding exception_active for_range
active_test = refl

inactive_test : exception_active core 21 ≡ false
unfolding exception_active for_range
inactive_test = refl
