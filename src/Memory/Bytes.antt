-- ===== src/Memory/Bytes.antt =====
-- src/device/kinetis/memory/api.c: little-endian bytes of a register file, and which accesses fit.
use kinetis_k22_sim.Base.{
  ℕ, ◌+◌, ◌-◌, ◌*◌, bit_or, Bool, ◌&&◌, ◌||◌, ltb, leb, ◌==◌, u8, u32, List, set, ◌!◌, ◌<<◌, ◌>>◌,
  for_range,
}

-- `kinetis_data_internal_load_bytes`.
unfoldable pub load_bytes : List ℕ → ℕ → ℕ → ℕ
load_bytes input_bytes byte_offset byte_count =
    for_range byte_count 0
      (λ i value. bit_or value (u32 (input_bytes ! (byte_offset + i) << (8 * i)))) 0

-- `kinetis_data_internal_store_bytes`.
unfoldable pub store_bytes : List ℕ → ℕ → ℕ → ℕ → List ℕ
store_bytes output_bytes byte_offset byte_count write_value =
    for_range byte_count 0 (λ i bytes. set bytes (byte_offset + i) (u8 (write_value >> (8 * i))))
      output_bytes

-- `kinetis_data_internal_valid_access`.
unfoldable pub valid_access : ℕ → ℕ → ℕ → Bool
valid_access byte_offset byte_count buffer_length =
    (byte_count == 1 || byte_count == 2 || byte_count == 4)
    && ltb byte_offset buffer_length
    && leb byte_count (buffer_length - byte_offset)
