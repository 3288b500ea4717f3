-- ===== src/Cortex/Exceptions.antt =====
-- src/architecture/cortex_m4/exceptions/advanced.c: the stack of active exceptions, the checks of
-- an exception return, and the state of an interrupted load or store multiple.
pub mod Stack
pub mod Returns
pub mod Kept
pub mod Examples
use kinetis_k22_sim.Base.{
  ℕ, ◌+◌, ◌-◌, ◌/◌, ◌^◌, ◌*◌, ◌%◌, bit_and, bit_or, bit_xor, Bool, true, false, not, ◌&&◌, ◌||◌,
  ltb, leb, ◌==◌, ◌!=◌, if◌then◌else◌, ◌!◌, ◌<<◌, ◌>>◌, flag, not32, set, replicate, get_or, sub32,
  u8,
}
use kinetis_k22_sim.Cortex.State.{Cpu, ExceptionFrame, lockup, is_armv6_m}
use kinetis_k22_sim.Cortex.Pending.{irq_mask, set_pending, wait_for_interrupt}
use kinetis_k22_sim.Cortex.Selection.{selected_pending}

abbrev pub frame_limit : ℕ
frame_limit = 16

abbrev pub empty_frame : ExceptionFrame
empty_frame = record {
  address = 0;
  ici_address = 0;
  return_value = 0;
  stacked_xpsr = 0;
  it_state = 0;
  ici_register = 0;
  extended = false;
  lazy = false;
  ici_valid = false;
}

-- `XPSR_EXCEPTION_MASK`: the number of the current exception.
unfoldable pub current_exception : Cpu → ℕ
current_exception cpu = bit_and cpu.xpsr 0x1ff

pub activate_external : Cpu → ℕ → Cpu
activate_external cpu exception =
    if ltb exception 16
    then cpu
    else let irq = exception - 16 in
      record cpu {
        irq_active =
            set cpu.irq_active (irq / 32) (bit_or (cpu.irq_active ! (irq / 32)) (irq_mask irq));
      }

pub deactivate_external : Cpu → ℕ → Cpu
deactivate_external cpu exception =
    if ltb exception 16
    then cpu
    else let irq = exception - 16 in
      let cleared = record cpu {
        irq_active =
            set cpu.irq_active (irq / 32)
              (bit_and (cpu.irq_active ! (irq / 32)) (not32 (irq_mask irq)));
      } in
      if flag (cpu.irq_level ! (irq / 32)) (irq_mask irq)
      then record cleared {
        irq_pending =
            set cpu.irq_pending (irq / 32) (bit_or (cpu.irq_pending ! (irq / 32)) (irq_mask irq));
      }
      else cleared

-- `cortex_m4_exception_advanced_reset`.
unfoldable pub reset_exceptions : Cpu → Cpu
reset_exceptions cpu = record cpu {
  active_exceptions = replicate 16 0;
  exception_depth = 0;
  ici_address = 0;
  ici_register = 0;
  ici_valid = false;
}

-- `cortex_m4_exception_advanced_multiple_complete`.
pub multiple_complete : Cpu → Cpu
multiple_complete cpu = record cpu { ici_address = 0; ici_register = 0; ici_valid = false }

pub push_active : Cpu → ℕ → Cpu
push_active cpu exception = record cpu {
  active_exceptions = set cpu.active_exceptions cpu.exception_depth exception;
  exception_depth = u8 (cpu.exception_depth + 1);
}

-- `cortex_m4_exception_advanced_commit_entry`.
pub commit_entry : Cpu → ℕ → Cpu
commit_entry cpu exception =
    if ltb exception 2 || leb frame_limit cpu.exception_depth
    then record cpu { stop = lockup }
    else multiple_complete
        (activate_external (set_pending (push_active cpu exception) exception false) exception)

pub pop_active : Cpu → Cpu
pop_active cpu = record cpu {
  active_exceptions = set cpu.active_exceptions (cpu.exception_depth - 1) 0;
  exception_depth = cpu.exception_depth - 1;
}

pub clear_faultmask : Cpu → ℕ → Cpu
clear_faultmask cpu current = if current != 2 then record cpu { faultmask = 0 } else cpu

-- SLEEPONEXIT.
pub sleep_on_exit : Cpu → Bool → Cpu
sleep_on_exit cpu returns_to_thread =
    if returns_to_thread && flag cpu.scr (1 << 1) then wait_for_interrupt cpu else cpu

pub is_innermost : Cpu → ℕ → Bool
is_innermost cpu current =
    not (cpu.exception_depth == 0) && cpu.active_exceptions ! (cpu.exception_depth - 1) == current

-- `cortex_m4_exception_advanced_commit_return`.
pub commit_return : Cpu → ℕ → Bool → Cpu
commit_return cpu current returns_to_thread =
    if not (is_innermost cpu current)
    then record cpu { cfsr = bit_or cpu.cfsr (1 << 18) }
    else sleep_on_exit (clear_faultmask (pop_active (deactivate_external cpu current)) current)
        returns_to_thread

unfoldable pub top_frame : Cpu → ExceptionFrame
top_frame cpu = get_or cpu.exception_frames (cpu.exception_frame_depth - 1) empty_frame

-- The EXC_RETURN values of the architecture.
unfoldable pub is_canonical : Cpu → ℕ → Bool
is_canonical cpu exception_return =
    let basic =
      exception_return == 0xfffffff1
      || exception_return == 0xfffffff9
      || exception_return == 0xfffffffd in
    basic
    || (not (is_armv6_m cpu.architecture)
        && (exception_return == 0xffffffe1
            || exception_return == 0xffffffe9
            || exception_return == 0xffffffed))

-- `cortex_m4_exception_advanced_valid_return`.
unfoldable pub valid_return : Cpu → ℕ → Bool
valid_return cpu exception_return =
    if cpu.exception_depth == 0 || cpu.exception_frame_depth == 0 || current_exception cpu == 0
    then false
    else if not (is_canonical cpu exception_return)
        || cpu.active_exceptions ! (cpu.exception_depth - 1) != current_exception cpu
    then false
    else if flag (bit_xor (top_frame cpu).return_value exception_return) 0x14
    then false
    else if flag exception_return (1 << 3)
    then cpu.exception_depth == 1 || flag cpu.ccr 1
    else ltb 1 cpu.exception_depth && not (flag exception_return (1 << 2))

-- The ICI bits of a stacked xPSR name a register.
unfoldable pub has_ici_state : Cpu → ℕ → Bool
has_ici_state cpu xpsr_value =
    not (is_armv6_m cpu.architecture)
    && not (flag xpsr_value 0x06000c00)
    && bit_and (xpsr_value >> 12) 15 != 0

-- `cortex_m4_exception_advanced_valid_stacked_xpsr`.
unfoldable pub valid_stacked_xpsr : Cpu → ℕ → ℕ → Bool
valid_stacked_xpsr cpu stacked_xpsr exception_return =
    if not (flag stacked_xpsr (1 << 24))
    then false
    else if has_ici_state cpu stacked_xpsr
        && (cpu.exception_frame_depth == 0
            || not (top_frame cpu).ici_valid
            || (top_frame cpu).ici_register != bit_and (stacked_xpsr >> 12) 15)
    then false
    else if flag exception_return (1 << 3)
    then bit_and stacked_xpsr 0x1ff == 0
    else ltb 1 cpu.exception_depth
      && bit_and stacked_xpsr 0x1ff == cpu.active_exceptions ! (cpu.exception_depth - 2)

-- `cortex_m4_exception_advanced_multiple_resume` and `..._multiple_address`.
pub multiple_resume : Cpu → ℕ
multiple_resume cpu =
    if not (is_armv6_m cpu.architecture) && cpu.ici_valid then cpu.ici_register else 0

pub multiple_address : Cpu → ℕ → ℕ
multiple_address cpu initial_address =
    if not (is_armv6_m cpu.architecture) && cpu.ici_valid then cpu.ici_address else initial_address

-- `cortex_m4_exception_advanced_multiple_suspend`.
pub multiple_suspend : Cpu → ℕ → ℕ → ℕ → Cpu × Bool
multiple_suspend cpu next_register instruction_size next_address =
    if next_register == 0
      || ltb 15 next_register
      || (instruction_size != 2 && instruction_size != 4)
    then (cpu, false)
    else if selected_pending cpu (current_exception cpu) 0 == 0
    then (cpu, false)
    else let rewound = record cpu {
      registers = set cpu.registers 15 (sub32 (cpu.registers ! 15) instruction_size);
    } in
      if is_armv6_m cpu.architecture
      then (record rewound { ici_address = 0; ici_register = 0; ici_valid = false }, true)
      else (
        record rewound {
          ici_address = next_address;
          ici_register = next_register;
          ici_valid = true;
        },
        true,
      )

-- `cortex_m4_exception_advanced_xpsr`.
unfoldable pub ici_xpsr : Cpu → ℕ → ℕ
ici_xpsr cpu xpsr_value =
    if is_armv6_m cpu.architecture || not cpu.ici_valid
    then xpsr_value
    else bit_or (bit_and xpsr_value (not32 0x0600fc00)) (cpu.ici_register << 12)

-- `cortex_m4_exception_advanced_load_xpsr`.
unfoldable pub ici_load_xpsr : Cpu → ℕ → Cpu
ici_load_xpsr cpu xpsr_value =
    let ici = has_ici_state cpu xpsr_value in
    let register = if ici then bit_and (xpsr_value >> 12) 15 else 0 in
    let loaded = record cpu { ici_valid = ici; ici_register = register } in
    let addressed =
      if ici && cpu.exception_frame_depth != 0
      then record loaded {
        ici_address =
            if (top_frame cpu).ici_valid && (top_frame cpu).ici_register == register
            then (top_frame cpu).ici_address
            else 0;
      }
      else if not ici
      then record loaded { ici_address = 0 }
      else loaded in
    if ici || is_armv6_m cpu.architecture then record addressed { it_state = 0 } else addressed
