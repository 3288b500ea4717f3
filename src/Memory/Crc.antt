-- ===== src/Memory/Crc.antt =====
-- src/device/kinetis/memory/integrity.c: the CRC module.
pub mod Transpose
pub mod Serial
pub mod Examples
use kinetis_k22_sim.Base.{
  ℕ, ◌+◌, ◌-◌, ◌*◌, ◌/◌, ◌%◌, ◌^◌, bit_and, bit_or, bit_xor, Bool, true, false, not, ◌&&◌, ◌||◌,
  ltb, leb, ◌==◌, if◌then◌else◌, u8, u32, sub32, not32, List, [], ◌∷◌, ◌<<◌, ◌>>◌, for_range, flag,
  Option, some, none,
}
use kinetis_k22_sim.Memory.Bytes.{load_bytes, store_bytes, valid_access}

-- The registers of the module in `struct KinetisData`.
pub record Crc : Type 0 where
  pub value : ℕ
  pub polynomial : ℕ
  pub control : ℕ

pub reverse_bits : ℕ → ℕ → ℕ
reverse_bits input_value bit_count =
    for_range bit_count 0
      (λ i reversed. bit_or (u32 (reversed << 1)) (bit_and (input_value >> i) 1)) 0

abbrev pub reverses_bits : ℕ → Bool
reverses_bits transpose = transpose == 1 || transpose == 2

abbrev pub transposed_byte : ℕ → ℕ → ℕ
transposed_byte transpose byte = if reverses_bits transpose then u8 (reverse_bits byte 8) else byte

pub crc_transpose_input : ℕ → ℕ → ℕ
crc_transpose_input value transpose =
    for_range 4 0
      (λ i transformed. bit_or transformed (
        transposed_byte transpose (u8 (value >> (i * 8)))
        << ((if leb 2 transpose then 3 - i else i) * 8)))
      0

abbrev pub wide_crc : Crc → Bool
wide_crc crc = flag crc.control 0x01000000

abbrev pub crc_bit_count : Crc → ℕ
crc_bit_count crc = if wide_crc crc then 32 else 16

abbrev pub crc_mask : Crc → ℕ
crc_mask crc = if wide_crc crc then 2 ^ 32 - 1 else 0xffff

-- One round of the loop of `crc_accumulate`, on `crc_value`.
pub crc_round : ℕ → ℕ → ℕ → ℕ → ℕ
crc_round bit_count mask polynomial value =
    let top_bit = flag value (1 << (bit_count - 1)) in
    let shifted = bit_and (u32 (value << 1)) mask in
    if top_bit then bit_xor shifted (bit_and polynomial mask) else shifted

pub crc_accumulate : Crc → ℕ → Crc
crc_accumulate crc input_byte =
    let started =
      bit_xor (bit_and crc.value (crc_mask crc)) (u32 (input_byte << (crc_bit_count crc - 8))) in
    record crc {
      value =
          for_range 8 0
            (λ i value. crc_round (crc_bit_count crc) (crc_mask crc) crc.polynomial value) started;
    }

pub crc_result : Crc → ℕ
crc_result crc =
    let value = bit_and crc.value (crc_mask crc) in
    crc_transpose_input
      (if flag crc.control 0x04000000 then bit_and (not32 value) (crc_mask crc) else value)
      (bit_and (crc.control >> 28) 3)

abbrev pub crc_base : ℕ
crc_base = 0x40032000

pub crc_valid_access : ℕ → ℕ → Bool
crc_valid_access register_offset byte_count =
    valid_access register_offset byte_count 12 && leb (bit_and register_offset 3 + byte_count) 4

-- `kinetis_data_internal_crc_read`; `none` when it returns false.
pub crc_read : Crc → ℕ → ℕ → Option ℕ
crc_read crc address byte_count =
    let offset = sub32 address crc_base in
    let result = crc_result crc >> (offset * 8) in
    if not (crc_valid_access offset byte_count)
    then none
    else if ltb offset 4
    then some (if ltb byte_count 4 then bit_and result ((1 << (byte_count * 8)) - 1) else result)
    else if ltb offset 8
    then some (crc.polynomial >> ((offset - 4) * 8))
    else some (crc.control >> ((offset - 8) * 8))

-- A seed, written while CTRL has WAS.
pub write_seed : Crc → ℕ → ℕ → ℕ → Crc
write_seed crc offset byte_count write_value =
    let mask = if byte_count == 4 then 2 ^ 32 - 1 else (1 << (byte_count * 8)) - 1 in
    let positioned = u32 (bit_and write_value mask << (offset * 8)) in
    record crc { value = crc_transpose_input positioned (bit_and (crc.control >> 30) 3) }

-- Data, byte by byte.
pub write_data : Crc → ℕ → ℕ → Crc
write_data crc byte_count write_value =
    let transpose = bit_and (crc.control >> 30) 3 in
    for_range byte_count 0
      (λ i state. crc_accumulate state (
        transposed_byte transpose
          (u8 (write_value >> ((if leb 2 transpose then i else byte_count - 1 - i) * 8)))))
      crc

-- A register of four bytes with some of them written.
pub merge_bytes : ℕ → ℕ → ℕ → ℕ → ℕ
merge_bytes register_value offset byte_count write_value =
    let bytes = store_bytes (0 ∷ 0 ∷ 0 ∷ 0 ∷ []) 0 4 register_value in
    load_bytes (store_bytes bytes offset byte_count write_value) 0 4

-- `kinetis_data_internal_crc_write`; `none` when it returns false.
pub crc_write : Crc → ℕ → ℕ → ℕ → Option Crc
crc_write crc address byte_count write_value =
    let offset = sub32 address crc_base in
    let polynomial = merge_bytes crc.polynomial (offset - 4) byte_count write_value in
    if not (crc_valid_access offset byte_count)
    then none
    else if ltb offset 4
    then some (
        if flag crc.control 0x02000000
        then write_seed crc offset byte_count write_value
        else write_data crc byte_count write_value)
    else if ltb offset 8
    then some (record crc {
      polynomial =
          if wide_crc crc
          then polynomial
          else bit_or (bit_and crc.polynomial 0xffff0000) (bit_and polynomial 0xffff);
    })
    else some (record crc {
      control = bit_and (merge_bytes crc.control (offset - 8) byte_count write_value) 0xf7000000;
    })

-- The reset values, in `kinetis_data_reset`.
abbrev pub reset_crc : Crc
reset_crc = record { value = 2 ^ 32 - 1; polynomial = 0x00001021; control = 0 }
