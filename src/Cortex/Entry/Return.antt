-- ===== src/Cortex/Entry/Return.antt =====
-- Returning from a handler, with nothing to chain to, resumes the interrupted code.
use kinetis_k22_sim.Base.{
  ℕ, ◌+◌, ◌^◌, ◌<◌, ◌≤◌, Bool, true, false, if◌then◌else◌, ◌!◌, ◌<<◌, flag, length, Option, some,
  none, ◌≡◌, refl, ap, ◌∙◌, arith,
}
use kinetis_k22_sim.Cortex.State.{Cpu, armv7e_m}
use kinetis_k22_sim.Cortex.Mpu.{mpu_active}
use kinetis_k22_sim.Cortex.Exceptions.Kept.{commit_return_registers}
use kinetis_k22_sim.Cortex.Selection.{selected_pending}
use kinetis_k22_sim.Cortex.Exceptions.{
  frame_limit, current_exception, valid_return, valid_stacked_xpsr, has_ici_state, top_frame,
  is_canonical,
}
use kinetis_k22_sim.Cortex.Registers.{xpsr_value}
use kinetis_k22_sim.Cortex.Bus.{DeviceBus, DebugUnit, Machine, with_cpu}
use kinetis_k22_sim.Cortex.Frames.Layout.{
  is_extended, frame_address, stacked_status, entry_return_value,
}
use kinetis_k22_sim.Cortex.Frames.Stack.{stack_frame}
use kinetis_k22_sim.Cortex.Frames.Unstack.{unstack_frame}
use kinetis_k22_sim.Cortex.Frames.Ram.{IsRam}
use kinetis_k22_sim.Cortex.Frames.Restore.{saved_register}
use kinetis_k22_sim.Cortex.Frames.RoundTrip.{unstack_frame-stack_frame}
use kinetis_k22_sim.Cortex.Entry.Vector.{Surroundings, Transition}
use kinetis_k22_sim.Cortex.Entry.Enter.{set_stack_pointer}
use kinetis_k22_sim.Cortex.Entry.Leave.{
  renew_level, preemption_target, tail_chain, return_outcome, exception_return,
}

set_stack_pointer_registers :
    (cpu : Cpu) (process : Bool) (value : ℕ)
    → (set_stack_pointer cpu process value).registers ≡ cpu.registers
set_stack_pointer_registers cpu true value = refl
set_stack_pointer_registers cpu false value = refl

renew_level_only :
    (cpu : Cpu) (e : ℕ)
    → renew_level cpu e ≡ record cpu { irq_pending = (renew_level cpu e).irq_pending }
unfolding renew_level
renew_level_only cpu e = ground arith

module _ {Device : Type 0} (bus : DeviceBus Device) (debug : DebugUnit)
    (around : Surroundings Device) where
  -- The transition's end, for a frame that was read.
  return_registers :
      (value current : ℕ) (out : Machine Device × Option ℕ) (sp : ℕ)
      → ((m : Machine Device) (t : Transition)
          → (around.elapse m t).cpu.registers ≡ m.cpu.registers)
      → out.1 ≡ some sp
      → let back = return_outcome bus debug around value current out in
        (back.1 ≡ true) × (back.0.cpu.registers ≡ out.0.cpu.registers)
  return_registers value current (machine, some found) sp law h =
      let moved = set_stack_pointer machine.cpu (flag value 4) found in
      (
        refl,
        law _ _
            ∙ commit_return_registers moved current (flag value (1 << 3))
            ∙ set_stack_pointer_registers machine.cpu (flag value 4) found,
      )
  return_registers value current (machine, none) sp law h = absurd (ground arith)

  no_chain_return :
      (handler : Machine Device) (value : ℕ)
      → let cpu = handler.cpu in
        let current = current_exception cpu in
        let renewed = renew_level cpu current in
        valid_return cpu value ≡ true
        → selected_pending renewed (preemption_target renewed value) current ≡ 0
        → exception_return bus debug around handler value
          ≡ return_outcome bus debug around value current (
              unstack_frame bus debug
                (with_cpu bus debug handler renewed)
                (if flag value 4 then renewed.psp else renewed.msp)
                value)
  unfolding exception_return tail_chain
  no_chain_return handler value valid nothing = rw (valid, nothing) refl

  -- A basic frame was stacked in RAM below a 32-bit stack pointer, with bit 9 of the status word
  -- clear, the memory protection off and room in the frame stack. An Armv7E-M handler has left memory
  -- as it was and its stack pointer at the frame, and returns by the return value of the entry, which
  -- is accepted with the status word, and no other exception is to be chained to. If the time that
  -- passes does not write the core's registers, the return resumes the interrupted code: each
  -- register has the value from before the exception if the frame holds it, and else the handler's.
  pub exception_return-stack_frame :
      (first last : ℕ) (machine handler : Machine Device) (sp : ℕ)
      → IsRam bus first last
      → sp < 2 ^ 32
      → xpsr_value machine.cpu < 2 ^ 32
      → flag (xpsr_value machine.cpu) (1 << 9) ≡ false
      → is_extended machine.cpu ≡ false
      → machine.cpu.exception_frame_depth < frame_limit
      → first ≤ frame_address machine.cpu sp
      → frame_address machine.cpu sp + 32 ≤ last
      → mpu_active machine.cpu ≡ false
      → mpu_active handler.cpu ≡ false
      → length handler.cpu.registers ≡ 16
      → handler.cpu.architecture ≡ armv7e_m
      → handler.device ≡ (stack_frame bus debug machine sp).0.device
      → valid_return handler.cpu (entry_return_value machine.cpu) ≡ true
      → valid_stacked_xpsr handler.cpu
          (stacked_status machine.cpu sp)
          (entry_return_value machine.cpu)
        ≡ true
      → (if flag (entry_return_value machine.cpu) 4 then handler.cpu.psp else handler.cpu.msp)
        ≡ frame_address machine.cpu sp
      → selected_pending
          (renew_level handler.cpu (current_exception handler.cpu))
          (preemption_target
            (renew_level handler.cpu (current_exception handler.cpu))
            (entry_return_value machine.cpu))
          (current_exception handler.cpu)
        ≡ 0
      → ((m : Machine Device) (t : Transition)
          → (around.elapse m t).cpu.registers ≡ m.cpu.registers)
      → let back = exception_return bus debug around handler (entry_return_value machine.cpu) in
        (back.1 ≡ true)
        × ((k : ℕ)
            → back.0.cpu.registers ! k
              ≡ saved_register machine.cpu.registers handler.cpu.registers k)
  exception_return-stack_frame first last machine handler sp ram fits word clear basic room low high
        idle idle_handler cells v7 kept valid valid_status pointer nothing law =
      let value = entry_return_value machine.cpu in
      let current = current_exception handler.cpu in
      let renewed = renew_level handler.cpu current in
      let only = renew_level_only handler.cpu current in
      let resumed = with_cpu bus debug handler renewed in
      let registers : renewed.registers ≡ handler.cpu.registers =
        ap (λ (c : Cpu). c.registers) only in
      let sp_now : (if flag value 4 then renewed.psp else renewed.msp)
          ≡ frame_address machine.cpu sp =
        ap (λ (c : Cpu). if flag value 4 then c.psp else c.msp) only ∙ pointer in
      let frame =
        unstack_frame-stack_frame bus debug first last ram machine resumed sp fits word clear basic
          room low high idle (ap mpu_active only ∙ (unfold mpu_active in idle_handler))
          (ap length registers ∙ cells) (ap (λ (c : Cpu). c.architecture) only ∙ v7) kept
          (ap (λ (c : Cpu). valid_return c value) only
            ∙ (unfold valid_return top_frame current_exception is_canonical in valid))
          (ap (λ (c : Cpu). valid_stacked_xpsr c (stacked_status machine.cpu sp) value) only
            ∙ (unfold valid_stacked_xpsr has_ici_state top_frame in valid_status)) in
      let out = unstack_frame bus debug resumed (frame_address machine.cpu sp) value in
      let ended = return_registers value current out sp law frame.0 in
      let start = no_chain_return handler value valid nothing in
      rw (start, sp_now)
        (
          ended.0,
          λ k.
              ap (λ r. r ! k) ended.1
              ∙ frame.3 k
              ∙ ap (λ r. saved_register machine.cpu.registers r k) registers,
        )
