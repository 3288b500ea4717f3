-- ===== src/Cortex/Alu/Examples.antt =====
-- Arithmetic, shifts and conditions at concrete operands.
use kinetis_k22_sim.Base.{
  ◌+◌, ◌%◌, ◌^◌, true, false, not, ◌||◌, ltb, leb, ◌==◌, flag, bit, not32, ◌≡◌, refl, arith,
}
use kinetis_k22_sim.Cortex.Sample.{core}
use kinetis_k22_sim.Cortex.Alu.{
  add_with_carry, shift, shift_register, shift_right_logical, right_amount, set_nzcv, add_flags,
  condition_passed, xpsr_n, xpsr_z, xpsr_c, xpsr_v,
}
use kinetis_k22_sim.Cortex.Alu.Adder.{biased, add_with_carry_lem}
use kinetis_k22_sim.Cortex.Alu.Shifter.{shift_digits, moved, shifted_out}
use kinetis_k22_sim.Cortex.Alu.Compare.{
  set_nzcv_flags, compare_conditions, condition_passed_opposite,
}

add_with_carry_lem_example :
    ((add_with_carry 0x7fffffff 1 false).value ≡ (0x7fffffff + 1 + 0) % 2 ^ 32)
    × ((add_with_carry 0x7fffffff 1 false).carry ≡ leb (2 ^ 32) (0x7fffffff + 1 + 0))
    × ((add_with_carry 0x7fffffff 1 false).overflow ≡ (
        ltb (biased 0x7fffffff + biased 1 + 0) (2 ^ 31)
        || leb (2 ^ 31 + 2 ^ 32) (biased 0x7fffffff + biased 1 + 0)))
add_with_carry_lem_example = add_with_carry_lem 0x7fffffff 1 false (omega arith) (omega arith)

shift_digits_example :
    (bit (shift 0x80000001 2 4 false).value 30 ≡ moved 2 0x80000001 4 30)
    × ((shift 0x80000001 2 4 false).carry ≡ shifted_out 2 0x80000001 4)
shift_digits_example =
    shift_digits 0x80000001 2 4 30 false (omega arith) (omega arith) (omega arith) (omega arith)
      (omega arith)

set_nzcv_flags_example :
    (flag (set_nzcv core 0x80000000 true false).xpsr xpsr_n ≡ leb (2 ^ 31) 0x80000000)
    × (flag (set_nzcv core 0x80000000 true false).xpsr xpsr_z ≡ 0x80000000 == 0)
    × (flag (set_nzcv core 0x80000000 true false).xpsr xpsr_c ≡ true)
    × (flag (set_nzcv core 0x80000000 true false).xpsr xpsr_v ≡ false)
set_nzcv_flags_example = set_nzcv_flags core 0x80000000 true false (omega arith)

compare_conditions_example :
    (condition_passed (add_flags core 3 (not32 0xffffffff) true).0 0 ≡ 3 == 0xffffffff)
    × (condition_passed (add_flags core 3 (not32 0xffffffff) true).0 2 ≡ leb 0xffffffff 3)
    × (condition_passed (add_flags core 3 (not32 0xffffffff) true).0 8 ≡ ltb 0xffffffff 3)
    × (condition_passed (add_flags core 3 (not32 0xffffffff) true).0 10
        ≡ leb (biased 0xffffffff) (biased 3))
    × (condition_passed (add_flags core 3 (not32 0xffffffff) true).0 12
        ≡ ltb (biased 0xffffffff) (biased 3))
compare_conditions_example = compare_conditions core 3 0xffffffff (omega arith) (omega arith)

condition_passed_opposite_example : condition_passed core 11 ≡ not (condition_passed core 10)
condition_passed_opposite_example = condition_passed_opposite core 5 (omega arith)

-- A shift by a register takes amounts above 31.
register_shift_test : (shift_register 0x80000001 1 32 false).carry ≡ true
unfolding shift_register shift_right_logical right_amount shift
register_shift_test = refl
