-- ===== src/Cortex/Frames/RoundTrip.antt =====
-- Unstacking gives back what stacking has saved.
use kinetis_k22_sim.Base.{
  ℕ, ◌+◌, ◌^◌, ◌<◌, ◌≤◌, Bool, true, false, List, [], length, ◌!◌, flag, ◌<<◌, Option, some, none,
  ◌≡◌, refl, ap, ◌∙◌, arith,
}
use kinetis_k22_sim.Cortex.State.{Cpu, armv7e_m}
use kinetis_k22_sim.Cortex.Mpu.{mpu_active}
use kinetis_k22_sim.Cortex.Exceptions.{
  frame_limit, valid_return, valid_stacked_xpsr, ici_xpsr, has_ici_state, top_frame,
  current_exception, is_canonical,
}
use kinetis_k22_sim.Cortex.Registers.{xpsr_value}
use kinetis_k22_sim.Cortex.Registers.Status.{read_back}
use kinetis_k22_sim.Cortex.Bus.{DeviceBus, DebugUnit, Machine, with_cpu}
use kinetis_k22_sim.Cortex.Frames.Layout.{
  is_extended, frame_address, stacked_status, core_frame, entry_return_value, record_frame,
  is_extended_return, popped_pointer, restore_frame,
}
use kinetis_k22_sim.Cortex.Frames.Stack.{
  write_words, stacking_outcome, stack_frame, clear_frame_fault,
}
use kinetis_k22_sim.Cortex.Frames.Unstack.{read_words, core_outcome, unstack_frame}
use kinetis_k22_sim.Cortex.Frames.Ram.{IsRam, IsStored, write_words_ram, read_words_ram}
use kinetis_k22_sim.Cortex.Frames.Restore.{
  restore_frame_registers, restore_frame_status, saved_register, restored_register-core_frame,
  stacked_status-lt, entry_return_value_basic, popped_pointer-frame_address,
}

module _ {Device : Type 0} (bus : DeviceBus Device) (debug : DebugUnit) (first last : ℕ)
    (ram : IsRam bus first last) where
  stacking_done :
      (before : Cpu) (sp : ℕ) (out : Machine Device × Bool)
      → out.1 ≡ true
      → stacking_outcome bus debug before sp out ≡ (
        with_cpu bus debug out.0 (record_frame before out.0.cpu sp),
        some (frame_address before sp, entry_return_value before),
      )
  stacking_done before sp (machine, true) h = refl
  stacking_done before sp (machine, false) h = absurd (ground arith)

  -- A basic frame in RAM is stacked.
  pub stack_frame_lem :
      (machine : Machine Device) (sp : ℕ)
      → mpu_active machine.cpu ≡ false
      → is_extended machine.cpu ≡ false
      → machine.cpu.exception_frame_depth < frame_limit
      → first ≤ frame_address machine.cpu sp
      → frame_address machine.cpu sp + 32 ≤ last
      → let out = stack_frame bus debug machine sp in
        (out.1 ≡ some (frame_address machine.cpu sp, entry_return_value machine.cpu))
        × IsStored bus debug first last ram out.0.device
            (frame_address machine.cpu sp)
            (core_frame machine.cpu (stacked_status machine.cpu sp))
  unfolding stack_frame mpu_active
  stack_frame_lem machine sp idle basic room low high =
      let cleared = clear_frame_fault bus debug machine in
      let frame = core_frame machine.cpu (stacked_status machine.cpu sp) in
      let a = frame_address machine.cpu sp in
      let written = write_words_ram bus debug first last ram frame cleared a idle low high in
      let done =
        stacking_done cleared.cpu sp (write_words bus debug cleared a frame) written.done in
      let place : frame_address cleared.cpu sp ≡ a = unfold frame_address in refl in
      let status : stacked_status cleared.cpu sp ≡ stacked_status machine.cpu sp =
        unfold stacked_status xpsr_value ici_xpsr in refl in
      let link : entry_return_value cleared.cpu ≡ entry_return_value machine.cpu =
        unfold entry_return_value in refl in
      let whole : stack_frame bus debug machine sp
          ≡ stacking_outcome bus debug cleared.cpu sp (write_words bus debug cleared a frame) =
        ground arith in
      rw (whole, done, place, link) (refl, written.stored)

  unstacking_done :
      (sp value : ℕ) (core : List ℕ) (out : Machine Device × Option (List ℕ))
      → out.1 ≡ some core
      → is_extended_return value ≡ false
      → valid_stacked_xpsr out.0.cpu (core ! 7) value ≡ true
      → core_outcome bus debug sp value out ≡ (
        with_cpu bus debug out.0 (restore_frame out.0.cpu value core (false, [])),
        some (popped_pointer sp value core),
      )
  unstacking_done sp value core (machine, some found) h basic valid = ground arith
  unstacking_done sp value core (machine, none) h basic valid = absurd (ground arith)

  -- A basic frame that was stacked in RAM below a 32-bit stack pointer, with bit 9 of the status word
  -- clear, the memory protection off and room in the frame stack, is unstacked by an Armv7E-M handler
  -- that has left memory as it was and returns by an accepted return value and status word. It gives
  -- the stack pointer and the status word (as far as it loads) from before the exception, and each
  -- register from before if the frame holds it, and the handler's if it does not.
  pub unstack_frame-stack_frame :
      (machine handler : Machine Device) (sp : ℕ)
      → sp < 2 ^ 32
      → xpsr_value machine.cpu < 2 ^ 32
      → flag (xpsr_value machine.cpu) (1 << 9) ≡ false
      → is_extended machine.cpu ≡ false
      → machine.cpu.exception_frame_depth < frame_limit
      → first ≤ frame_address machine.cpu sp
      → frame_address machine.cpu sp + 32 ≤ last
      → mpu_active machine.cpu ≡ false
      → mpu_active handler.cpu ≡ false
      → length handler.cpu.registers ≡ 16
      → handler.cpu.architecture ≡ armv7e_m
      → handler.device ≡ (stack_frame bus debug machine sp).0.device
      → valid_return handler.cpu (entry_return_value machine.cpu) ≡ true
      → valid_stacked_xpsr handler.cpu
          (stacked_status machine.cpu sp)
          (entry_return_value machine.cpu)
        ≡ true
      → let status = stacked_status machine.cpu sp in
        let back =
          unstack_frame bus debug handler
            (frame_address machine.cpu sp)
            (entry_return_value machine.cpu) in
        (back.1 ≡ some sp)
        × (back.0.device ≡ handler.device)
        × (xpsr_value back.0.cpu ≡ read_back status)
        × ((k : ℕ)
            → back.0.cpu.registers ! k
              ≡ saved_register machine.cpu.registers handler.cpu.registers k)
  unfolding unstack_frame
  unstack_frame-stack_frame machine handler sp fits word clear basic room low high idle idle_handler
        cells v7 kept valid valid_status =
      let value = entry_return_value machine.cpu in
      let a = frame_address machine.cpu sp in
      let status = stacked_status machine.cpu sp in
      let core = core_frame machine.cpu status in
      let below = ram.below_system in
      let stacked = stack_frame_lem machine sp idle basic room low high in
      let before = handler.cpu in
      let cleared = with_cpu bus debug handler (record before {
        exception_unstack_memory_fault = false;
        exception_frame_memory_management_fault = false;
      }) in
      let stored : IsStored bus debug first last ram cleared.device a core = rw kept stacked.1 in
      let read =
        read_words_ram bus debug first last ram core cleared a (unfold mpu_active in idle_handler)
          low high stored in
      let out = read_words bus debug 8 cleared a in
      let c = out.0.cpu in
      let same = read.core.same in
      let status_ok : valid_stacked_xpsr c status value ≡ true =
        ap (λ (d : Cpu). valid_stacked_xpsr d status value) same
        ∙ (unfold valid_stacked_xpsr has_ici_state top_frame in valid_status) in
      let registers : c.registers ≡ handler.cpu.registers = ap (λ (d : Cpu). d.registers) same in
      let architecture : c.architecture ≡ armv7e_m = ap (λ (d : Cpu). d.architecture) same ∙ v7 in
      let cells_read : length c.registers ≡ 16 = ap length registers ∙ cells in
      let basic_return = entry_return_value_basic machine.cpu basic in
      let done = unstacking_done a value core out read.found basic_return status_ok in
      let valid_cleared : valid_return cleared.cpu value ≡ true =
        unfold valid_return top_frame current_exception is_canonical in valid in
      let whole : unstack_frame bus debug handler a value ≡ core_outcome bus debug a value out =
        ground (arith, valid_cleared, basic_return) in
      let popped =
        popped_pointer-frame_address machine.cpu sp value fits (omega arith) basic basic_return
          clear in
      rw (whole, done)
        (
          ap some popped,
          read.device,
          restore_frame_status c value core architecture (stacked_status-lt machine.cpu sp word),
          λ k.
              restore_frame_registers c value core k cells_read
              ∙ restored_register-core_frame machine.cpu status c.registers k
              ∙ ap (λ r. saved_register machine.cpu.registers r k) registers,
        )
