-- ===== src/Cortex/State.antt =====
-- src/architecture/cortex_m4/internal.h and include/cortex_m4.h: the state of the core, as far as
-- the modelled operations read or write it, and the enumerations.
use mathlib.Core.Bool.{Bool}
use kinetis_k22_sim.Base.{ℕ, List, ◌≤◌, ◌≡◌, length}

-- `CortexM4Architecture`.
pub data Architecture : Type 0 where
  armv7e_m armv6_m : Architecture

-- `CortexM4Stop`.
pub data Stop : Type 0 where
  running limit breakpoint lockup unsupported bus_fault usage_fault clock : Stop

-- `CortexM4Access`.
pub data Access : Type 0 where
  instruction regular unprivileged debugger : Access

-- `CortexM4SystemAccess`.
pub data SystemAccess : Type 0 where
  outside accepted rejected : SystemAccess

-- `CortexM4FlagWrite`.
pub data FlagWrite : Type 0 where
  unchanged implicit explicit : FlagWrite

-- `CortexM4ExceptionFaultStage`.
pub data FaultStage : Type 0 where
  stacking unstacking lazy_fp : FaultStage

abbrev pub is_armv6_m : Architecture → Bool
is_armv6_m armv7e_m = Bool.false
is_armv6_m armv6_m = Bool.true

-- `CortexM4Priority`.
pub record Priority : Type 0 where
  pub preemption : ℕ
  pub subpriority : ℕ

-- `CortexM4ExceptionFrame`.
pub record ExceptionFrame : Type 0 where
  pub address : ℕ
  pub ici_address : ℕ
  pub return_value : ℕ
  pub stacked_xpsr : ℕ
  pub it_state : ℕ
  pub ici_register : ℕ
  pub extended : Bool
  pub lazy : Bool
  pub ici_valid : Bool

-- `CortexM4Debug`: what the system control space reads of the debug unit.
pub record Debug : Type 0 where
  pub itm_trace_privilege : ℕ
  pub halted : Bool

-- `struct CortexM4`. Arrays are lists, and every integer is a number below its width.
pub record Cpu : Type 0 where
  pub architecture : Architecture
  pub cpuid : ℕ
  pub external_irq_count : ℕ
  pub priority_bits : ℕ
  pub mpu_region_count : ℕ
  pub registers : List ℕ
  pub msp : ℕ
  pub psp : ℕ
  pub xpsr : ℕ
  pub control : ℕ
  pub primask : ℕ
  pub basepri : ℕ
  pub faultmask : ℕ
  pub fpscr : ℕ
  pub fp_registers : List ℕ
  pub breakpoints : List ℕ
  pub vtor : ℕ
  pub aircr : ℕ
  pub scr : ℕ
  pub ccr : ℕ
  pub shcsr : ℕ
  pub cfsr : ℕ
  pub hfsr : ℕ
  pub mmfar : ℕ
  pub bfar : ℕ
  pub cpacr : ℕ
  pub fpccr : ℕ
  pub fpcar : ℕ
  pub fpdscr : ℕ
  pub mpu_control : ℕ
  pub mpu_region_number : ℕ
  pub mpu_region_base : List ℕ
  pub mpu_region_attributes : List ℕ
  pub dfsr : ℕ
  pub afsr : ℕ
  pub systick_control : ℕ
  pub systick_reload : ℕ
  pub systick_current : ℕ
  pub systick_calibration : ℕ
  pub systick_external_phase : ℕ
  pub irq_enabled : List ℕ
  pub irq_pending : List ℕ
  pub irq_active : List ℕ
  pub irq_level : List ℕ
  pub system_pending : ℕ
  pub irq_priority : List ℕ
  pub system_priority : List ℕ
  pub exclusive_address : ℕ
  pub exclusive_reservation_base : ℕ
  pub exclusive_size : ℕ
  pub exclusive_granule : ℕ
  pub exception_depth : ℕ
  pub exception_frame_depth : ℕ
  pub it_state : ℕ
  pub breakpoint_enabled : ℕ
  pub exclusive_valid : Bool
  pub event_register : Bool
  pub sleeping : Bool
  pub reset_requested : Bool
  pub instruction_faulted : Bool
  pub stop : Stop
  pub exception_frames : List ExceptionFrame
  pub active_exceptions : List ℕ
  pub ici_address : ℕ
  pub ici_register : ℕ
  pub ici_valid : Bool
  pub exception_unstack_memory_fault : Bool
  pub exception_frame_memory_management_fault : Bool
  pub debug : Debug

-- The sizes of the arrays, and the bounds that `cortex_m4_configure_implementation` checks.
pub record IsConfigured (cpu : Cpu) : Type 0 where
  pub irq_count : cpu.external_irq_count ≤ 240
  pub pending_words : length cpu.irq_pending ≡ 8
  pub enabled_words : length cpu.irq_enabled ≡ 8
  pub active_words : length cpu.irq_active ≡ 8
  pub level_words : length cpu.irq_level ≡ 8
  pub active_cells : length cpu.active_exceptions ≡ 16
