-- ===== src/Cortex/Mpu/Examples.antt =====
-- The sample core with two regions: 0 is 64 KB of RAM for all, 1 its first 256 bytes for privileged
-- access only, with the second subregion disabled.
use kinetis_k22_sim.Base.{
  ◌+◌, ◌*◌, ◌/◌, ◌%◌, ◌^◌, ◌<◌, Bool, true, false, not, ◌&&◌, ◌||◌, ltb, leb, ◌==◌, ◌!◌, ◌∷◌,
  replicate, bit_and, bit_or, if◌then◌else◌, bit, flag, ◌≡◌, refl, arith, some, none,
}
use kinetis_k22_sim.Cortex.State.{Cpu, IsConfigured, regular, unprivileged, accepted, lockup}
use kinetis_k22_sim.Cortex.Sample.{core, core-IsConfigured}
use kinetis_k22_sim.Cortex.Pending.{was_pending}
use kinetis_k22_sim.Cortex.Exceptions.{current_exception}
use kinetis_k22_sim.Cortex.Faults.Escalation.{fault_target}
use kinetis_k22_sim.Cortex.Mpu.{
  is_instruction, privileged_access, mpu_reset, mpu_active, region_contains, matching_below,
  matching_region, background_permission, mpu_access_permitted, mpu_check, mpu_read, mpu_write,
}
use kinetis_k22_sim.Cortex.Mpu.Regions.{IsHighest, matching_region-IsHighest}
use kinetis_k22_sim.Cortex.Mpu.Blocks.{size_encoding, region_size, region_contains_lem}
use kinetis_k22_sim.Cortex.Mpu.Permission.{mpu_access_permitted_grows}
use kinetis_k22_sim.Cortex.Mpu.Registers.{mpu_check_lem, mpu_read-mpu_write}

abbrev guarded : Cpu
guarded = record core {
  mpu_region_count = 8;
  mpu_control = 1;
  mpu_region_base = 0x20000000 ∷ 0x20000000 ∷ replicate 6 0;
  mpu_region_attributes = 0x0300001f ∷ 0x0100020f ∷ replicate 6 0;
}

matching_region-IsHighest_example :
    IsHighest guarded 8 0x20000010 (matching_region guarded 0x20000010)
matching_region-IsHighest_example = matching_region-IsHighest guarded 0x20000010

mpu_access_permitted_grows_example :
    (mpu_access_permitted guarded 0x20000200 4 unprivileged true ≡ true
      → mpu_access_permitted guarded 0x20000200 4 regular true ≡ true)
    × (mpu_access_permitted guarded 0x20000200 4 regular true ≡ true
        → mpu_access_permitted guarded 0x20000200 4 regular false ≡ true)
mpu_access_permitted_grows_example = mpu_access_permitted_grows guarded 0x20000200 4 regular true

abbrev refused : Cpu
refused = (mpu_check guarded 0x20000010 4 unprivileged true).0

abbrev granted : Bool
granted = mpu_access_permitted guarded 0x20000010 4 unprivileged true

abbrev fatal : Bool
fatal = current_exception guarded == 2 || current_exception guarded == 3

guarded-IsConfigured : IsConfigured guarded
guarded-IsConfigured = let ok = core-IsConfigured in ground arith

mpu_check_lem_example :
    ((mpu_check guarded 0x20000010 4 unprivileged true).1 ≡ granted)
    × ((if granted then refused else guarded) ≡ guarded)
    × (bit refused.cfsr 7 ≡ (
        bit guarded.cfsr 7
        || (not granted && (if is_instruction unprivileged then 0 == 7 else 1 == 7 || 7 == 7))))
    × (refused.mmfar
        ≡ (if granted || is_instruction unprivileged then guarded.mmfar else 0x20000010))
    × (refused.stop ≡ (if not granted && fatal then lockup else guarded.stop))
    × (was_pending refused 3 ≡ (
        if not granted && not fatal && fault_target guarded 4 == 3
        then true
        else was_pending guarded 3))
    × (refused.sleeping ≡ (if not granted && not fatal then false else guarded.sleeping))
    × (refused.event_register ≡ (if not granted && not fatal then true else guarded.event_register))
mpu_check_lem_example =
    mpu_check_lem guarded 0x20000010 4 unprivileged true 7 3 guarded-IsConfigured

guarded_privileged : privileged_access guarded regular ≡ true
unfolding privileged_access
guarded_privileged = refl

base_valid : flag 0x20001013 0x10 ≡ true
unfolding flag
base_valid = refl

mpu_read-mpu_write_test :
    (mpu_read (mpu_write guarded 0xe000ed94 4 regular 0x20001013).1 0xe000ed94 4 regular
      ≡ (accepted, bit_and 0x20001013 7))
    × (mpu_read (mpu_write guarded 0xe000ed98 4 regular 0x20001013).1 0xe000ed98 4 regular
        ≡ (accepted, bit_and 0x20001013 7))
    × (mpu_read (mpu_write guarded 0xe000ed9c 4 regular 0x20001013).1 0xe000ed9c 4 regular
        ≡ (accepted, bit_or (bit_and 0x20001013 0xffffffe0) (bit_and 0x20001013 7)))
    × (mpu_read (mpu_write guarded 0xe000eda0 4 regular 0x20001013).1 0xe000eda0 4 regular
        ≡ (accepted, bit_and 0x20001013 0x173fff3f))
mpu_read-mpu_write_test =
    mpu_read-mpu_write guarded regular 0x20001013 refl refl (ground arith) guarded_privileged
      base_valid

inner_base : guarded.mpu_region_base ! 1 < 2 ^ 32
inner_base = omega arith

region_contains_lem_example :
    region_contains guarded 1 0x20000010
    ≡ flag (guarded.mpu_region_attributes ! 1) 1
      && leb 4 (size_encoding (guarded.mpu_region_attributes ! 1))
      && (0x20000010 / region_size (guarded.mpu_region_attributes ! 1)
          == guarded.mpu_region_base ! 1 / region_size (guarded.mpu_region_attributes ! 1))
      && (ltb (size_encoding (guarded.mpu_region_attributes ! 1)) 7
          || not (
              bit (guarded.mpu_region_attributes ! 1) (
                0x20000010
                  % region_size (guarded.mpu_region_attributes ! 1)
                  * 8
                  / region_size (guarded.mpu_region_attributes ! 1)
                + 8)))
region_contains_lem_example = region_contains_lem guarded 1 0x20000010 inner_base (omega arith)

-- Tests: the inner region, its disabled subregion, and the background map.
inner_test : matching_region guarded 0x20000010 ≡ some 1
unfolding matching_region matching_below region_contains flag
inner_test = refl

subregion_test : matching_region guarded 0x20000030 ≡ some 0
unfolding matching_region matching_below region_contains flag
subregion_test = refl

outside_test : matching_region guarded 0x30000000 ≡ none
unfolding matching_region matching_below region_contains flag
outside_test = refl

device_test : background_permission 0x40000000 true ≡ false
unfolding background_permission
device_test = refl

active_test : mpu_active guarded ≡ true
unfolding mpu_active flag
active_test = refl

reset_test : mpu_active (mpu_reset guarded) ≡ false
unfolding mpu_active mpu_reset flag
reset_test = refl
