-- ===== src/Cortex/Frames/Memory.antt =====
-- A memory of words as a device, with a debug unit that refuses every access: for the tests.
use kinetis_k22_sim.Base.{ℕ, true, ◌==◌, if◌then◌else◌, some, refl, arith, [], ◌∷◌, replicate}
use kinetis_k22_sim.Cortex.State.{rejected}
use kinetis_k22_sim.Cortex.Sample.{core}
use kinetis_k22_sim.Cortex.Exceptions.{empty_frame}
use kinetis_k22_sim.Cortex.Bus.{DeviceBus, DebugUnit, Machine}
use kinetis_k22_sim.Cortex.Frames.Ram.{IsRam}

abbrev pub Words : Type 0
Words = ℕ → ℕ

abbrev pub store : Words → ℕ → ℕ → Words
store words address value b = if address == b then value else words b

abbrev pub memory : DeviceBus Words
memory = record {
  read = λ words address byte_count access. (words, some (words address));
  write = λ words address byte_count access value. (store words address value, true);
}

abbrev pub no_debug : DebugUnit
no_debug = record {
  read_register = λ cpu address size. (cpu, rejected, 0);
  write_register = λ cpu address size value. (cpu, rejected);
  memory_access = λ cpu address size is_write value. cpu;
}

pub memory-IsRam : IsRam memory 0x1fff0000 0x20010000
memory-IsRam = record {
  below_system = omega arith;
  accepts = λ words a value low high. refl;
  silent = λ words a low high. refl;
  stores = λ words a value low high. ground arith;
  apart = λ words a b value low high low_b high_b other. ground arith;
}

-- Thread mode before the sample core's exception.
abbrev pub thread : Machine Words
thread = record {
  cpu = record core {
    xpsr = 0x01000000;
    exception_depth = 0;
    exception_frame_depth = 0;
    exception_frames = empty_frame ∷ [];
    active_exceptions = replicate 16 0;
    it_state = 0;
  };
  device = λ address. 0;
}
