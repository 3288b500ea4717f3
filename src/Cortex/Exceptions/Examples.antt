-- ===== src/Cortex/Exceptions/Examples.antt =====
-- Entry, return and suspension on the sample core.
use kinetis_k22_sim.Base.{
  ◌+◌, ◌<◌, ◌≤◌, true, false, set, sub32, flag, if◌then◌else◌, ◌!◌, ◌≡◌, ◌≢◌, ◌⊎◌, refl, arith,
}
use kinetis_k22_sim.Cortex.State.{lockup, is_armv6_m}
use kinetis_k22_sim.Cortex.Sample.{core, core-IsStack}
use kinetis_k22_sim.Cortex.Selection.{selected_pending}
use kinetis_k22_sim.Cortex.Exceptions.{
  frame_limit, current_exception, commit_entry, commit_return, is_innermost, is_canonical,
  valid_return, top_frame, multiple_suspend, multiple_resume, multiple_address, has_ici_state,
  valid_stacked_xpsr, reset_exceptions,
}
use kinetis_k22_sim.Cortex.Exceptions.Stack.{
  IsStack, commit_entry_lem, commit_entry-IsStack, commit_return-commit_entry,
  commit_return-IsStack,
}
use kinetis_k22_sim.Cortex.Exceptions.Returns.{valid_return-commit_return, multiple_suspend_lem}

commit_return-commit_entry_example :
    ((commit_return (commit_entry core 21) 21 false).exception_depth ≡ core.exception_depth)
    × ((commit_return (commit_entry core 21) 21 false).active_exceptions ≡ core.active_exceptions)
commit_return-commit_entry_example =
    commit_return-commit_entry core 21 false refl core-IsStack (omega arith) (omega arith)

commit_entry-IsStack_example : IsStack (commit_entry core 21)
commit_entry-IsStack_example = commit_entry-IsStack core 21 refl core-IsStack

commit_return-IsStack_example : IsStack (commit_return core 20 true)
commit_return-IsStack_example = commit_return-IsStack core 20 true refl core-IsStack

commit_entry_lem_test :
    ((2 ≤ 21) × (core.exception_depth < frame_limit)
      → ((commit_entry core 21).exception_depth ≡ core.exception_depth + 1)
        × ((commit_entry core 21).active_exceptions
            ≡ set core.active_exceptions core.exception_depth 21)
        × ((commit_entry core 21).active_exceptions ! core.exception_depth ≡ 21))
    × ((21 < 2) ⊎ (frame_limit ≤ core.exception_depth)
        → commit_entry core 21 ≡ record core { stop = lockup })
commit_entry_lem_test = commit_entry_lem core 21 refl

returns_to_thread : valid_return core 0xfffffff9 ≡ true
unfolding valid_return is_canonical top_frame current_exception flag
returns_to_thread = refl

valid_return-commit_return_test :
    (current_exception core ≢ 0)
    × (is_innermost core (current_exception core) ≡ true)
    × (is_canonical core 0xfffffff9 ≡ true)
    × (flag 0xfffffff9 8 ≡ false → 1 < core.exception_depth)
    × ((commit_return core (current_exception core) true).exception_depth + 1
        ≡ core.exception_depth)
    × ((commit_return core (current_exception core) true).cfsr ≡ core.cfsr)
valid_return-commit_return_test = valid_return-commit_return core 0xfffffff9 true returns_to_thread

multiple_suspend_lem_test :
    ((multiple_suspend core 5 2 0x20000100).1 ≡ false
      → (multiple_suspend core 5 2 0x20000100).0 ≡ core)
    × ((multiple_suspend core 5 2 0x20000100).1 ≡ true
        → (selected_pending core (current_exception core) 0 ≢ 0)
          × (multiple_resume (multiple_suspend core 5 2 0x20000100).0
              ≡ (if is_armv6_m core.architecture then 0 else 5))
          × (multiple_address (multiple_suspend core 5 2 0x20000100).0 0x20000000
              ≡ (if is_armv6_m core.architecture then 0x20000000 else 0x20000100))
          × ((multiple_suspend core 5 2 0x20000100).0.registers ! 15
              ≡ sub32 (core.registers ! 15) 2))
multiple_suspend_lem_test = multiple_suspend_lem core 5 2 0x20000100 0x20000000 refl

-- Tests: a frame of Thread mode and one that names another handler, and the reset.
thread_frame_test : valid_stacked_xpsr core 0x01000000 0xfffffff9 ≡ true
unfolding valid_stacked_xpsr has_ici_state flag
thread_frame_test = refl

handler_frame_test : valid_stacked_xpsr core 0x01000015 0xfffffff9 ≡ false
unfolding valid_stacked_xpsr has_ici_state flag
handler_frame_test = refl

reset_test : (reset_exceptions core).exception_depth ≡ 0
unfolding reset_exceptions
reset_test = refl
