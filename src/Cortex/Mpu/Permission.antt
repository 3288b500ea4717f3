-- ===== src/Cortex/Mpu/Permission.antt =====
-- What the permissions of the memory protection unit promise.
use kinetis_k22_sim.Base.{
  ℕ, zero, suc, ◌+◌, bit_and, Bool, true, false, ◌!◌, ◌>>◌, ◌≡◌, refl, arith, Option, some, none,
}
use kinetis_k22_sim.Cortex.State.{Cpu, Access, regular, unprivileged}
use kinetis_k22_sim.Cortex.Mpu.{
  is_instruction, privileged_access, region_permission, permission_holds, matching_region,
  permitted_in, byte_access_permitted, bytes_permitted, mpu_access_permitted,
}

permission_grows :
    (permission : ℕ) (p q w v : Bool)
    → (p ≡ true → q ≡ true)
    → (v ≡ true → w ≡ true)
    → permission_holds permission p w ≡ true
    → permission_holds permission q v ≡ true
permission_grows permission p q w v hp hw h = ground arith

region_grows :
    (attributes : ℕ) (p q w v i : Bool)
    → (p ≡ true → q ≡ true)
    → (v ≡ true → w ≡ true)
    → region_permission attributes p w i ≡ true
    → region_permission attributes q v i ≡ true
unfolding region_permission
region_grows attributes p q w v i hp hw h =
    let grows = permission_grows (bit_and attributes 0x07000000 >> 24) p q w v hp hw in ground arith

-- The access of a byte in the order: data access without privilege, and with the core's privilege.
privilege_grows :
    (cpu : Cpu) → privileged_access cpu unprivileged ≡ true → privileged_access cpu regular ≡ true
unfolding privileged_access
privilege_grows cpu h = ground arith

byte_grows :
    (cpu : Cpu) (address : ℕ) (a b : Access) (w v : Bool)
    → is_instruction a ≡ is_instruction b
    → (privileged_access cpu a ≡ true → privileged_access cpu b ≡ true)
    → (v ≡ true → w ≡ true)
    → (choice : Option ℕ) → permitted_in cpu address a w choice ≡ true
    → permitted_in cpu address b v choice ≡ true
byte_grows cpu address a b w v kind hp hw (some region) h = rw (← kind) (
    region_grows (cpu.mpu_region_attributes ! region) (privileged_access cpu a)
      (privileged_access cpu b) w v (is_instruction a) hp hw h)
byte_grows cpu address a b w v kind hp hw none h = ground arith

bytes_grow :
    (cpu : Cpu) (count address : ℕ) (a b : Access) (w v : Bool)
    → is_instruction a ≡ is_instruction b
    → (privileged_access cpu a ≡ true → privileged_access cpu b ≡ true)
    → (v ≡ true → w ≡ true)
    → bytes_permitted cpu count address a w ≡ true
    → bytes_permitted cpu count address b v ≡ true
unfolding bytes_permitted byte_access_permitted
bytes_grow cpu zero address a b w v kind hp hw h = refl
bytes_grow cpu (suc count) address a b w v kind hp hw h =
    let first = byte_grows cpu address a b w v kind hp hw (matching_region cpu address) in
    let rest = bytes_grow cpu count (address + 1) a b w v kind hp hw in ground arith

-- What an unprivileged access may do, the same access with the core's privilege may do; and where a
-- write is permitted, a read is.
pub mpu_access_permitted_grows :
    (cpu : Cpu) (address byte_count : ℕ) (access : Access) (is_write_access : Bool)
    → (mpu_access_permitted cpu address byte_count unprivileged is_write_access ≡ true
        → mpu_access_permitted cpu address byte_count regular is_write_access ≡ true)
      × (mpu_access_permitted cpu address byte_count access true ≡ true
          → mpu_access_permitted cpu address byte_count access false ≡ true)
unfolding mpu_access_permitted
mpu_access_permitted_grows cpu address byte_count access w =
    let privilege =
      bytes_grow cpu byte_count address unprivileged regular w w refl (privilege_grows cpu)
        (λ h. h) in
    let reading =
      bytes_grow cpu byte_count address access access true false refl (λ h. h) (λ h. refl) in
    (ground arith, ground arith)
