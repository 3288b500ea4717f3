-- ===== src/Memory/Crc/Examples.antt =====
-- The CRC of a byte, and the transpositions of a word.
use kinetis_k22_sim.Base.{◌%◌, ◌^◌, bit, for_range, flag, refl, ◌≡◌, arith, some, none}
use kinetis_k22_sim.Memory.Bytes.{valid_access, load_bytes, store_bytes}
use kinetis_k22_sim.Memory.Crc.{
  reset_crc, reverse_bits, crc_transpose_input, crc_bit_count, crc_accumulate, crc_round, crc_base,
  crc_valid_access, crc_read, crc_result, merge_bytes,
}
use kinetis_k22_sim.Memory.Crc.Transpose.{source_bit, crc_transpose_input_twice}
use kinetis_k22_sim.Memory.Crc.Serial.{feed_byte, crc_accumulate_lem}

crc_transpose_input_twice_example :
    (crc_transpose_input (crc_transpose_input 0x12345678 2) 2 ≡ 0x12345678)
    × (bit (crc_transpose_input 0x12345678 2) 3 ≡ bit 0x12345678 (source_bit 2 3))
crc_transpose_input_twice_example =
    crc_transpose_input_twice 0x12345678 2 3 (omega arith) (omega arith)

crc_accumulate_lem_example :
    (crc_accumulate reset_crc 0x31).value
    ≡ feed_byte
        (crc_bit_count reset_crc)
        reset_crc.polynomial
        (reset_crc.value % 2 ^ crc_bit_count reset_crc)
        0x31
crc_accumulate_lem_example = crc_accumulate_lem reset_crc 0x31 (omega arith)

-- CRC-16 with the polynomial 0x1021 and the seed 0xffff, of the byte "1".
crc_test : (crc_accumulate reset_crc 0x31).value ≡ 0xc782
unfolding crc_accumulate crc_round for_range flag
crc_test = refl

transpose_test : crc_transpose_input 0x12345678 3 ≡ 0x78563412
unfolding crc_transpose_input reverse_bits for_range
transpose_test = refl

read_test : crc_read reset_crc (crc_base) 4 ≡ some 0xffff
unfolding crc_read crc_result crc_valid_access valid_access crc_transpose_input reverse_bits
    for_range flag
read_test = refl

merge_test : merge_bytes 0x11223344 2 1 0xab ≡ 0x11ab3344
unfolding merge_bytes load_bytes store_bytes for_range
merge_test = refl

edge_test : crc_read reset_crc 0x40032007 2 ≡ none
unfolding crc_read crc_valid_access valid_access
edge_test = refl
