-- ===== src/Cortex/Frames/Unstack.antt =====
-- system.c: unstacking a frame.
use kinetis_k22_sim.Base.{
  ℕ, zero, suc, ◌+◌, bit_or, Bool, true, false, not, ◌&&◌, ◌==◌, if◌then◌else◌, ◌!◌, ◌<<◌, flag,
  u32, List, [], ◌∷◌, Option, some, none,
}
use kinetis_k22_sim.Cortex.Exceptions.{valid_return, valid_stacked_xpsr}
use kinetis_k22_sim.Cortex.Bus.{DeviceBus, DebugUnit, Machine, with_cpu}
use kinetis_k22_sim.Cortex.Frames.Layout.{
  fpccr_lspact, is_extended_return, popped_pointer, restore_frame,
}
use kinetis_k22_sim.Cortex.Frames.Stack.{read_stack_word}

module _ {Device : Type 0} (bus : DeviceBus Device) (debug : DebugUnit) where
  -- The loops that read `count` words.
  abbrev pub read_then :
      Machine Device × Option ℕ
      → (Machine Device → ℕ → Machine Device × Option (List ℕ))
      → Machine Device × Option (List ℕ)
  read_then (machine, some value) next = next machine value
  read_then (machine, none) next = (machine, none)

  abbrev pub prepend : ℕ → Machine Device × Option (List ℕ) → Machine Device × Option (List ℕ)
  prepend value (machine, some values) = (machine, some (value ∷ values))
  prepend value (machine, none) = (machine, none)

  unfoldable pub read_words : ℕ → Machine Device → ℕ → Machine Device × Option (List ℕ)
  read_words zero machine address = (machine, some [])
  read_words (suc count) machine address =
      read_then (read_stack_word bus debug machine address)
        (λ next value. prepend value (read_words count next (u32 (address + 4))))

  -- `read_fp_frame`: the 16 registers, and FPSCR right behind them.
  abbrev pub read_fp_frame : Machine Device → ℕ → Machine Device × Option (List ℕ)
  read_fp_frame machine address = read_words 17 machine address

  -- The floating point registers are read unless the frame is basic or lazy.
  abbrev pub read_fp_part : Bool → Machine Device → ℕ → Machine Device × Option (List ℕ)
  read_fp_part true machine address = read_fp_frame machine address
  read_fp_part false machine address = (machine, some [])

  abbrev pub unstack_failed : Machine Device → Machine Device × Option ℕ
  unstack_failed machine =
      let cpu = machine.cpu in
      (with_cpu bus debug machine (record cpu { exception_unstack_memory_fault = true }), none)

  abbrev pub fp_outcome :
      ℕ → ℕ → Bool → List ℕ → Machine Device × Option (List ℕ) → Machine Device × Option ℕ
  fp_outcome stack_pointer value fp_read core (machine, some fp) = (
    with_cpu bus debug machine (restore_frame machine.cpu value core (fp_read, fp)),
    some (popped_pointer stack_pointer value core),
  )
  fp_outcome stack_pointer value fp_read core (machine, none) = unstack_failed machine

  abbrev pub core_outcome : ℕ → ℕ → Machine Device × Option (List ℕ) → Machine Device × Option ℕ
  core_outcome stack_pointer value (machine, some core) =
      let cpu = machine.cpu in
      let status = core ! 7 in
      let lazy =
        is_extended_return value && flag cpu.fpccr fpccr_lspact && cpu.fpcar == stack_pointer in
      let fp_read = is_extended_return value && not lazy in
      let refused = record cpu {
        cfsr = bit_or cpu.cfsr (if flag status (1 << 24) then 1 << 18 else 1 << 17);
      } in
      if not (valid_stacked_xpsr cpu status value)
      then (with_cpu bus debug machine refused, none)
      else fp_outcome stack_pointer value fp_read core (read_fp_part fp_read machine stack_pointer)
  core_outcome stack_pointer value (machine, none) = unstack_failed machine

  -- `cortex_m4_system_unstack_exception_frame`: the machine and the new stack pointer, or `none`.
  unfoldable pub unstack_frame : Machine Device → ℕ → ℕ → Machine Device × Option ℕ
  unstack_frame machine stack_pointer value =
      let before = machine.cpu in
      let cpu = record before {
        exception_unstack_memory_fault = false;
        exception_frame_memory_management_fault = false;
      } in
      let core_address =
        if is_extended_return value then u32 (stack_pointer + 72) else stack_pointer in
      if not (valid_return cpu value)
      then (with_cpu bus debug machine (record cpu { cfsr = bit_or cpu.cfsr (1 << 18) }), none)
      else core_outcome stack_pointer value
          (read_words 8 (with_cpu bus debug machine cpu) core_address)
