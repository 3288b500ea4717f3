-- ===== src/Cortex/Exceptions/Returns.antt =====
-- Exception returns that are accepted, and suspended loads and stores of several registers.
use kinetis_k22_sim.Base.{
  ℕ, ◌+◌, ◌-◌, ◌<◌, Bool, true, false, if◌then◌else◌, ◌!◌, flag, sub32, length, get_or-set_self,
  ◌≡◌, ◌≢◌, ap, arith,
}
use kinetis_k22_sim.Cortex.State.{Cpu, is_armv6_m}
use kinetis_k22_sim.Cortex.Pending.Frame.{wait_for_interrupt_only}
use kinetis_k22_sim.Cortex.Selection.{selected_pending}
use kinetis_k22_sim.Cortex.Exceptions.{
  current_exception, deactivate_external, pop_active, clear_faultmask, sleep_on_exit, is_innermost,
  commit_return, is_canonical, valid_return, multiple_suspend, multiple_resume, multiple_address,
}

sleep_on_exit_frame :
    (cpu : Cpu) (thread : Bool)
    → ((sleep_on_exit cpu thread).exception_depth ≡ cpu.exception_depth)
      × ((sleep_on_exit cpu thread).cfsr ≡ cpu.cfsr)
unfolding sleep_on_exit
sleep_on_exit_frame cpu thread =
    let only = wait_for_interrupt_only cpu in
    let depth = ap (λ (c : Cpu). c.exception_depth) only in
    let status = ap (λ (c : Cpu). c.cfsr) only in ground arith

commit_return_frame :
    (cpu : Cpu) (current : ℕ) (thread : Bool)
    → is_innermost cpu current ≡ true
    → ((commit_return cpu current thread).exception_depth ≡ cpu.exception_depth - 1)
      × ((commit_return cpu current thread).cfsr ≡ cpu.cfsr)
unfolding commit_return clear_faultmask pop_active deactivate_external
commit_return_frame cpu current thread h =
    let left = clear_faultmask (pop_active (deactivate_external cpu current)) current in
    let frame = sleep_on_exit_frame left thread in rw h (ground (arith, frame))

valid_return_lem :
    (cpu : Cpu) (exception_return : ℕ)
    → valid_return cpu exception_return ≡ true
    → (current_exception cpu ≢ 0)
      × (is_innermost cpu (current_exception cpu) ≡ true)
      × (is_canonical cpu exception_return ≡ true)
      × (flag exception_return 8 ≡ false → 1 < cpu.exception_depth)
unfolding valid_return is_innermost
valid_return_lem cpu exception_return h = ground arith

-- An accepted EXC_RETURN value is one of the architecture's, leaves a handler whose exception is
-- the innermost one, and goes back to another handler only if there is one; the return then takes
-- one exception off the stack and leaves CFSR as it was.
pub valid_return-commit_return :
    (cpu : Cpu) (exception_return : ℕ) (thread : Bool)
    → valid_return cpu exception_return ≡ true
    → let current = current_exception cpu in
      let back = commit_return cpu current thread in
      (current ≢ 0)
      × (is_innermost cpu current ≡ true)
      × (is_canonical cpu exception_return ≡ true)
      × (flag exception_return 8 ≡ false → 1 < cpu.exception_depth)
      × (back.exception_depth + 1 ≡ cpu.exception_depth)
      × (back.cfsr ≡ cpu.cfsr)
unfolding is_innermost
valid_return-commit_return cpu exception_return thread h =
    let accepted = valid_return_lem cpu exception_return h in
    let back = commit_return_frame cpu (current_exception cpu) thread (accepted.1) in
    (accepted.0, accepted.1, accepted.2, accepted.3, ground arith, back.1)

-- With 16 registers, a load or store multiple that is not suspended changes nothing. It is
-- suspended only for a pending exception that can preempt; it then resumes at the register and the
-- address that it stopped at (Armv7E-M) or from its start (Armv6-M), and the program counter goes
-- back by the size of the instruction.
pub multiple_suspend_lem :
    (cpu : Cpu) (next_register instruction_size next_address initial_address : ℕ)
    → length cpu.registers ≡ 16
    → let out = multiple_suspend cpu next_register instruction_size next_address in
      let old = is_armv6_m cpu.architecture in
      (out.1 ≡ false → out.0 ≡ cpu)
      × (out.1 ≡ true
          → (selected_pending cpu (current_exception cpu) 0 ≢ 0)
            × (multiple_resume out.0 ≡ (if old then 0 else next_register))
            × (multiple_address out.0 initial_address
                ≡ (if old then initial_address else next_address))
            × (out.0.registers ! 15 ≡ sub32 (cpu.registers ! 15) instruction_size))
unfolding multiple_suspend multiple_resume multiple_address
multiple_suspend_lem cpu next_register instruction_size next_address initial_address len =
    let keep =
      get_or-set_self cpu.registers 15 (sub32 (cpu.registers ! 15) instruction_size) 0
        (omega arith) in
    ground arith
