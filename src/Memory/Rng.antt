-- ===== src/Memory/Rng.antt =====
-- src/device/kinetis/memory/integrity.c and runtime.c: the random number generator.
pub mod Sequence
pub mod Examples
use kinetis_k22_sim.Base.{
  ℕ, ◌+◌, ◌-◌, ◌*◌, ◌/◌, ◌%◌, ◌^◌, bit_and, bit_or, bit_xor, Bool, true, false, not, ◌&&◌, ◌||◌,
  leb, ◌==◌, ◌!=◌, if◌then◌else◌, u32, sub32, not32, List, [], ◌∷◌, ◌<<◌, ◌>>◌, flag, Option, some,
  none,
}
use kinetis_k22_sim.Memory.Bytes.{valid_access}

-- The generator in `struct KinetisData`, with the calls of the interrupt callback, the last first.
pub record Rng : Type 0 where
  pub control : ℕ
  pub status : ℕ
  pub error : ℕ
  pub output : ℕ
  pub state : ℕ
  pub cycles : ℕ
  pub interrupts : List Bool

-- The number that stands in for 0.
abbrev pub default_seed : ℕ
default_seed = 0x6d2b79f5

-- `kinetis_data_internal_rng_next`.
pub rng_next : ℕ → ℕ
rng_next seed_value =
    let first = bit_xor seed_value (u32 (seed_value << 13)) in
    let second = bit_xor first (first >> 17) in
    let third = bit_xor second (u32 (second << 5)) in if third == 0 then default_seed else third

abbrev pub rng_base : ℕ
rng_base = 0x40029000

abbrev pub interrupt : Rng → Bool → Rng
interrupt rng asserted = record rng { interrupts = asserted ∷ rng.interrupts }

-- `kinetis_data_internal_rng_read`: reading the output clears the ready bit.
pub rng_read : Rng → ℕ → ℕ → Rng × Option ℕ
rng_read rng address byte_count =
    let offset = sub32 address rng_base in
    if not (valid_access offset byte_count 16) || byte_count != 4
    then (rng, none)
    else if offset == 0
    then (rng, some rng.control)
    else if offset == 4
    then (rng, some rng.status)
    else if offset == 8
    then (rng, some rng.error)
    else if offset == 12
    then (interrupt (record rng { status = bit_and rng.status (not32 1) }) false, some rng.output)
    else (rng, none)

-- `kinetis_data_internal_rng_write`; `none` when it returns false.
pub rng_write : Rng → ℕ → ℕ → ℕ → Option Rng
rng_write rng address byte_count write_value =
    let offset = sub32 address rng_base in
    let written = record rng { control = bit_and write_value 0x1f } in
    let cleared =
      if flag write_value 0x10
      then interrupt (record written { status = 0; error = 0 }) false
      else written in
    if byte_count != 4 || not (valid_access offset byte_count 16) || offset != 0
    then none
    else some (if flag write_value 1 then record cleared { cycles = 64 } else cleared)

-- `kinetis_data_rng_seed`.
pub rng_seed : Rng → ℕ → Rng
rng_seed rng seed_value = record rng {
  state = if seed_value == 0 then default_seed else seed_value;
}

-- The generator's part of `kinetis_data_advance`.
pub rng_advance : Rng → ℕ → Rng
rng_advance rng cycle_count =
    let next = rng_next rng.state in
    let ready = record rng {
      cycles = 0;
      state = next;
      output = next;
      status = bit_or rng.status 1;
    } in
    if not (flag rng.control 1) || rng.cycles == 0
    then rng
    else if leb rng.cycles cycle_count
    then (if flag rng.control 2 then interrupt ready true else ready)
    else record rng { cycles = rng.cycles - cycle_count }
