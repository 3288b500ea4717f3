-- ===== src/Cortex/Entry/Examples.antt =====
-- Entering and leaving on the sample core.
use kinetis_k22_sim.Base.{
  ℕ, ◌!◌, flag, ◌≡◌, refl, arith, false, true, if◌then◌else◌, for_range, replicate,
}
use kinetis_k22_sim.Cortex.Sample.{core}
use kinetis_k22_sim.Cortex.Pending.{
  exception_pending, system_is_pending, external_is_pending, irq_mask,
}
use kinetis_k22_sim.Cortex.Selection.{selected_pending, selectable}
use kinetis_k22_sim.Cortex.Selection.Taken.{IsFirst}
use kinetis_k22_sim.Cortex.Exceptions.{
  current_exception, valid_return, valid_stacked_xpsr, top_frame, is_canonical, has_ici_state,
  ici_xpsr,
}
use kinetis_k22_sim.Cortex.Registers.{xpsr_value}
use kinetis_k22_sim.Cortex.Bus.{Machine}
use kinetis_k22_sim.Cortex.Frames.Layout.{frame_address, entry_return_value, stacked_status}
use kinetis_k22_sim.Cortex.Frames.Stack.{stack_frame}
use kinetis_k22_sim.Cortex.Frames.Restore.{saved_register}
use kinetis_k22_sim.Cortex.Frames.Memory.{Words, memory, no_debug, memory-IsRam, thread}
use kinetis_k22_sim.Cortex.Frames.Examples.{
  status_small, status_unpadded, basic_frame, frame_low, frame_high, thread_idle,
}
use kinetis_k22_sim.Cortex.Mpu.{mpu_active}
use kinetis_k22_sim.Cortex.Entry.Vector.{Surroundings}
use kinetis_k22_sim.Cortex.Entry.Take.{next_exception}
use kinetis_k22_sim.Cortex.Entry.Leave.{renew_level, preemption_target, exception_return}
use kinetis_k22_sim.Cortex.Entry.First.{take_candidate, next_exception-IsFirst}
use kinetis_k22_sim.Cortex.Entry.Return.{exception_return-stack_frame}

next_exception-IsFirst_example : IsFirst core (take_candidate core) 90 (next_exception core)
next_exception-IsFirst_example = next_exception-IsFirst core

-- No time passes and no vector is caught.
abbrev quiet : Surroundings Words
quiet = record {
  vector_fetch = λ words. words;
  debug_exception = λ cpu exception. cpu;
  elapse = λ machine transition. machine;
}

-- The handler of a core with one interrupt, at the frame of the thread.
abbrev served : Machine Words
served = record {
  cpu = record core { external_irq_count = 5; msp = 0x20000fe0; irq_pending = replicate 8 0 };
  device = (stack_frame memory no_debug thread 0x20001000).0.device;
}

served_idle : mpu_active served.cpu ≡ false
unfolding mpu_active
served_idle = refl

served_returns : valid_return served.cpu (entry_return_value thread.cpu) ≡ true
unfolding valid_return entry_return_value top_frame is_canonical current_exception flag
served_returns = refl

served_status :
    valid_stacked_xpsr served.cpu
      (stacked_status thread.cpu 0x20001000)
      (entry_return_value thread.cpu)
    ≡ true
unfolding valid_stacked_xpsr stacked_status entry_return_value has_ici_state xpsr_value ici_xpsr
    flag top_frame
served_status = refl

served_pointer :
    (if flag (entry_return_value thread.cpu) 4 then served.cpu.psp else served.cpu.msp)
    ≡ frame_address thread.cpu 0x20001000
unfolding entry_return_value flag frame_address
served_pointer = refl

nothing_left :
    selected_pending
      (renew_level served.cpu (current_exception served.cpu))
      (preemption_target
        (renew_level served.cpu (current_exception served.cpu))
        (entry_return_value thread.cpu))
      (current_exception served.cpu)
    ≡ 0
unfolding selected_pending selectable for_range exception_pending renew_level current_exception
    entry_return_value flag system_is_pending external_is_pending irq_mask
nothing_left = refl

exception_return-stack_frame_example :
    ((exception_return memory no_debug quiet served (entry_return_value thread.cpu)).1 ≡ true)
    × ((k : ℕ)
        → (exception_return memory no_debug quiet served
              (entry_return_value thread.cpu)).0.cpu.registers
            ! k
          ≡ saved_register thread.cpu.registers served.cpu.registers k)
exception_return-stack_frame_example =
    exception_return-stack_frame memory no_debug quiet 0x1fff0000 0x20010000 thread served
      0x20001000 memory-IsRam (omega arith) status_small status_unpadded basic_frame (omega arith)
      frame_low frame_high thread_idle served_idle refl refl refl served_returns served_status
      served_pointer nothing_left (λ m t. refl)
