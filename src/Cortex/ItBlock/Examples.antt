-- ===== src/Cortex/ItBlock/Examples.antt =====
-- An IT block on the sample core: ITTE with the condition EQ.
use kinetis_k22_sim.Base.{
  ◌+◌, ◌-◌, ◌*◌, ◌/◌, ◌<◌, ◌≤◌, true, false, ◌&&◌, leb, if◌then◌else◌, bit, of_bool, flag, ◌≡◌, ◌≢◌,
  refl, arith,
}
use kinetis_k22_sim.Cortex.State.{Cpu, implicit, explicit}
use kinetis_k22_sim.Cortex.Sample.{core}
use kinetis_k22_sim.Cortex.ItBlock.{
  is_implicit, it_flag_write, narrow_flag_write, register_flag_write, wide_data_processing,
  writes_apsr, it_preserve_flags, it_condition_passed,
}
use kinetis_k22_sim.Cortex.ItBlock.Advance.{
  advanced, it_length, it_block_lem, it_preserve_flags_lem,
}

abbrev block : Cpu
block = record core { it_state = 0x06 }

it_block_lem_example :
    (1 < it_length block.it_state
      → ((advanced 1 block).it_state ≢ 0)
        × ((advanced 1 block).it_state / 16
            ≡ block.it_state / 32 * 2 + of_bool (bit block.it_state (4 - 1))))
    × (it_length block.it_state ≤ 1 → (advanced 1 block).it_state ≡ 0)
it_block_lem_example = it_block_lem block 1 (omega arith) (ground arith) (omega arith)

it_preserve_flags_lem_test :
    bit (it_preserve_flags block 0x1840 0 false true 0x80000000).xpsr 31 ≡ (
      if true && is_implicit (it_flag_write 0x1840 0 false) && leb 28 31
      then bit 0x80000000 31
      else bit block.xpsr 31)
it_preserve_flags_lem_test =
    it_preserve_flags_lem block 0x1840 0 0x80000000 31 false true (omega arith)

-- Tests: ADDS r0, r0, r1 writes the flags implicitly, CMP r0, #0 explicitly, MSR APSR explicitly.
adds_test : it_flag_write 0x1840 0 false ≡ implicit
unfolding it_flag_write narrow_flag_write
adds_test = refl

cmp_test : it_flag_write 0x2800 0 false ≡ explicit
unfolding it_flag_write narrow_flag_write
cmp_test = refl

msr_test : it_flag_write 0xf380 0x8800 true ≡ explicit
unfolding it_flag_write writes_apsr
msr_test = refl

outside_test : it_condition_passed (record core { it_state = 0 }) ≡ true
unfolding it_condition_passed
outside_test = refl

tst_test : it_flag_write 0x4208 0 false ≡ explicit
unfolding it_flag_write narrow_flag_write register_flag_write
tst_test = refl

wide_test : it_flag_write 0xf110 0x0001 true ≡ explicit
unfolding it_flag_write writes_apsr wide_data_processing flag
wide_test = refl
