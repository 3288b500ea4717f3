-- ===== src/Cortex/Frames/Stack.antt =====
-- system.c: stacking a frame, and the lazy floating point state.
use kinetis_k22_sim.Base.{
  ℕ, zero, suc, ◌+◌, ◌-◌, ◌*◌, bit_and, Bool, true, false, not, ◌&&◌, ◌||◌, leb, ◌==◌,
  if◌then◌else◌, ◌!◌, flag, not32, u32, List, [], ◌∷◌, Option, some, none,
}
use kinetis_k22_sim.Cortex.State.{Cpu, regular}
use kinetis_k22_sim.Cortex.Exceptions.{frame_limit, top_frame}
use kinetis_k22_sim.Cortex.Mpu.{mpu_access_permitted}
use kinetis_k22_sim.Cortex.Bus.{DeviceBus, DebugUnit, Machine, with_cpu, bus_read, bus_write}
use kinetis_k22_sim.Cortex.Frames.Layout.{
  fpccr_lspact, set_frame, is_extended, is_lazy, frame_address, stacked_status, core_frame,
  entry_return_value, record_frame,
}

module _ {Device : Type 0} (bus : DeviceBus Device) (debug : DebugUnit) where
  unfoldable pub write_stack_word : Machine Device → ℕ → ℕ → Machine Device × Bool
  write_stack_word machine address value =
      let cpu = machine.cpu in
      let checked = record cpu {
        exception_frame_memory_management_fault =
            not (mpu_access_permitted cpu address 4 regular true);
      } in
      bus_write bus debug (with_cpu bus debug machine checked) address 4 regular value

  unfoldable pub read_stack_word : Machine Device → ℕ → Machine Device × Option ℕ
  read_stack_word machine address =
      let cpu = machine.cpu in
      let checked = record cpu {
        exception_frame_memory_management_fault =
            not (mpu_access_permitted cpu address 4 regular false);
      } in
      bus_read bus debug (with_cpu bus debug machine checked) address 4 regular

  -- The next step after one that may have failed.
  abbrev pub and_then :
      Machine Device × Bool → (Machine Device → Machine Device × Bool) → Machine Device × Bool
  and_then (machine, true) next = next machine
  and_then (machine, false) next = (machine, false)

  -- The loop over the words of `core_frame`.
  unfoldable pub write_words : Machine Device → ℕ → List ℕ → Machine Device × Bool
  write_words machine address [] = (machine, true)
  write_words machine address (value ∷ values) =
      and_then (write_stack_word machine address value)
        (λ written. write_words written (u32 (address + 4)) values)

  -- The loop of `write_fp_frame`, which reads each register when it writes it.
  pub write_fp_registers : Machine Device → ℕ → ℕ → ℕ → Machine Device × Bool
  write_fp_registers machine address index zero = (machine, true)
  write_fp_registers machine address index (suc left) =
      and_then
        (write_stack_word machine (u32 (address + index * 4)) (machine.cpu.fp_registers ! index))
        (λ written. write_fp_registers written address (index + 1) left)

  pub write_fp_frame : Machine Device → ℕ → Machine Device × Bool
  write_fp_frame machine address = and_then (write_fp_registers machine address 0 16) (λ stored.
      and_then (write_stack_word stored (u32 (address + 64)) stored.cpu.fpscr)
        (λ status. write_stack_word status (u32 (address + 68)) 0))

  abbrev pub clear_frame_fault : Machine Device → Machine Device
  clear_frame_fault machine =
      let cpu = machine.cpu in
      with_cpu bus debug machine (record cpu { exception_frame_memory_management_fault = false })

  -- `cortex_m4_system_stack_exception_frame`: the machine, and the new stack pointer with the
  -- return value, or `none` when it returns false.
  abbrev pub stacking_outcome : Cpu → ℕ → Machine Device × Bool → Machine Device × Option (ℕ × ℕ)
  stacking_outcome before stack_pointer (machine, true) = (
    with_cpu bus debug machine (record_frame before machine.cpu stack_pointer),
    some (frame_address before stack_pointer, entry_return_value before),
  )
  stacking_outcome before stack_pointer (machine, false) = (machine, none)

  unfoldable pub stack_frame : Machine Device → ℕ → Machine Device × Option (ℕ × ℕ)
  stack_frame machine stack_pointer =
      let cleared = clear_frame_fault machine in
      let cpu = cleared.cpu in
      let address = frame_address cpu stack_pointer in
      let core_address = if is_extended cpu then u32 (address + 72) else address in
      let frame = core_frame cpu (stacked_status cpu stack_pointer) in
      if leb frame_limit cpu.exception_frame_depth
      then (cleared, none)
      else stacking_outcome cpu stack_pointer (
          and_then
            (if is_extended cpu && not (is_lazy cpu)
              then write_fp_frame cleared address
              else (cleared, true))
            (λ stored. write_words stored core_address frame))

  -- `cortex_m4_system_materialize_lazy_fp`.
  abbrev pub materialized : Machine Device × Bool → Machine Device × Bool
  materialized (machine, true) =
      let cpu = machine.cpu in
      let top = cpu.exception_frame_depth - 1 in
      let frame = top_frame cpu in
      (
        with_cpu bus debug machine (record cpu {
          exception_frames = set_frame cpu.exception_frames top (record frame { lazy = false });
          fpccr = bit_and cpu.fpccr (not32 fpccr_lspact);
        }),
        true,
      )
  materialized (machine, false) = (machine, false)

  pub materialize_lazy_fp : Machine Device → Machine Device × Bool
  materialize_lazy_fp machine =
      let cleared = clear_frame_fault machine in
      let frame = top_frame cleared.cpu in
      if not (flag cleared.cpu.fpccr fpccr_lspact) || cleared.cpu.exception_frame_depth == 0
      then (cleared, true)
      else if not frame.extended || not frame.lazy
      then (cleared, false)
      else materialized (write_fp_frame cleared frame.address)
