-- ===== src/Cortex/Frames/Examples.antt =====
-- The sample core is entered from Thread mode and returns.
use kinetis_k22_sim.Base.{
  ℕ, ◌+◌, ◌^◌, ◌<◌, ◌≤◌, ◌!◌, flag, ◌<<◌, ◌≡◌, refl, arith, some, false, true,
}
use kinetis_k22_sim.Cortex.Sample.{core}
use kinetis_k22_sim.Cortex.Mpu.{mpu_active}
use kinetis_k22_sim.Cortex.Exceptions.{
  valid_return, valid_stacked_xpsr, top_frame, is_canonical, current_exception, has_ici_state,
  ici_xpsr,
}
use kinetis_k22_sim.Cortex.Registers.{xpsr_value}
use kinetis_k22_sim.Cortex.Registers.Status.{read_back}
use kinetis_k22_sim.Cortex.Bus.{Machine}
use kinetis_k22_sim.Cortex.Frames.Layout.{
  is_extended, frame_address, stacked_status, entry_return_value,
}
use kinetis_k22_sim.Cortex.Frames.Stack.{stack_frame}
use kinetis_k22_sim.Cortex.Frames.Unstack.{unstack_frame}
use kinetis_k22_sim.Cortex.Frames.Restore.{saved_register}
use kinetis_k22_sim.Cortex.Frames.RoundTrip.{unstack_frame-stack_frame}
use kinetis_k22_sim.Cortex.Frames.Memory.{Words, memory, no_debug, memory-IsRam, thread}

-- The handler, with its own registers, a pending interrupt served and the frame in memory.
abbrev pub handler : Machine Words
handler = record {
  cpu = record core { msp = 0x20000fe0 };
  device = (stack_frame memory no_debug thread 0x20001000).0.device;
}

pub status_small : xpsr_value thread.cpu < 2 ^ 32
unfolding xpsr_value ici_xpsr
status_small = omega arith

pub status_unpadded : flag (xpsr_value thread.cpu) (1 << 9) ≡ false
unfolding xpsr_value ici_xpsr flag
status_unpadded = refl

pub basic_frame : is_extended thread.cpu ≡ false
unfolding flag
basic_frame = refl

pub frame_low : 0x1fff0000 ≤ frame_address thread.cpu 0x20001000
unfolding frame_address flag
frame_low = omega arith

pub frame_high : frame_address thread.cpu 0x20001000 + 32 ≤ 0x20010000
unfolding frame_address flag
frame_high = omega arith

pub thread_idle : mpu_active thread.cpu ≡ false
unfolding mpu_active
thread_idle = refl

pub handler_idle : mpu_active handler.cpu ≡ false
unfolding mpu_active
handler_idle = refl

pub handler_returns : valid_return handler.cpu (entry_return_value thread.cpu) ≡ true
unfolding valid_return entry_return_value top_frame is_canonical current_exception flag
handler_returns = refl

pub handler_status :
    valid_stacked_xpsr handler.cpu
      (stacked_status thread.cpu 0x20001000)
      (entry_return_value thread.cpu)
    ≡ true
unfolding valid_stacked_xpsr stacked_status entry_return_value has_ici_state xpsr_value ici_xpsr
    flag top_frame
handler_status = refl

unstack_frame-stack_frame_example :
    ((unstack_frame memory no_debug handler
        (frame_address thread.cpu 0x20001000)
        (entry_return_value thread.cpu)).1
      ≡ some 0x20001000)
    × ((unstack_frame memory no_debug handler
          (frame_address thread.cpu 0x20001000)
          (entry_return_value thread.cpu)).0.device
        ≡ handler.device)
    × (xpsr_value
          (unstack_frame memory no_debug handler
            (frame_address thread.cpu 0x20001000)
            (entry_return_value thread.cpu)).0.cpu
        ≡ read_back (stacked_status thread.cpu 0x20001000))
    × ((k : ℕ)
        → (unstack_frame memory no_debug handler
              (frame_address thread.cpu 0x20001000)
              (entry_return_value thread.cpu)).0.cpu.registers
            ! k
          ≡ saved_register thread.cpu.registers handler.cpu.registers k)
unstack_frame-stack_frame_example =
    unstack_frame-stack_frame memory no_debug 0x1fff0000 0x20010000 memory-IsRam thread handler
      0x20001000 (omega arith) status_small status_unpadded basic_frame (omega arith) frame_low
      frame_high thread_idle handler_idle refl refl refl handler_returns handler_status
