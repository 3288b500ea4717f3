-- ===== src/Cortex/Exclusive.antt =====
-- src/architecture/cortex_m4/timing.c: the reservation of the exclusive loads and stores.
pub mod Reservation
pub mod Examples
use kinetis_k22_sim.Base.{
  ℕ, ◌+◌, ◌-◌, ◌^◌, bit_and, Bool, true, false, not, ◌&&◌, ◌||◌, ltb, ◌==◌, ◌!=◌, if◌then◌else◌,
  not32,
}
use kinetis_k22_sim.Cortex.State.{Cpu}

-- `CORTEX_M4_MAXIMUM_EXCLUSIVE_GRANULE`.
abbrev pub maximum_granule : ℕ
maximum_granule = 2048

pub ranges_overlap : ℕ → ℕ → ℕ → ℕ → Bool
ranges_overlap left_address left_size right_address right_size =
    ltb left_address (right_address + right_size) && ltb right_address (left_address + left_size)

-- `cortex_m4_set_exclusive_granule`.
pub set_exclusive_granule : Cpu → ℕ → Cpu × Bool
set_exclusive_granule cpu bytes =
    if bytes != 0 && (ltb bytes 4 || ltb maximum_granule bytes || bit_and bytes (bytes - 1) != 0)
    then (cpu, false)
    else (record cpu { exclusive_granule = bytes; exclusive_valid = false }, true)

-- `cortex_m4_timing_reserve`.
pub reserve : Cpu → ℕ → ℕ → Cpu
reserve cpu address size = if size != 1 && size != 2 && size != 4 then cpu else record cpu {
  exclusive_address = address;
  exclusive_reservation_base =
      if cpu.exclusive_granule == 0 then 0 else bit_and address (not32 (cpu.exclusive_granule - 1));
  exclusive_size = size;
  exclusive_valid = true;
}

-- `cortex_m4_timing_consume_reservation`.
pub consume_reservation : Cpu → ℕ → ℕ → Cpu × Bool
consume_reservation cpu address size =
    let address_matched = cpu.exclusive_granule == 0 || cpu.exclusive_address == address in
    (
      record cpu { exclusive_valid = false },
      cpu.exclusive_valid && address_matched && cpu.exclusive_size == size,
    )

-- `cortex_m4_timing_observe_write`, and `cortex_m4_notify_external_write`, which calls it.
unfoldable pub observe_write : Cpu → ℕ → ℕ → Cpu
observe_write cpu address size =
    if not cpu.exclusive_valid || size == 0
    then cpu
    else if cpu.exclusive_granule == 0
        || ranges_overlap cpu.exclusive_reservation_base cpu.exclusive_granule address size
    then record cpu { exclusive_valid = false }
    else cpu
