-- ===== src/Cortex/Frames/Restore.antt =====
-- What the words of a basic frame restore.
use kinetis_k22_sim.Base.{
  ℕ, zero, suc, ◌+◌, ◌^◌, ◌<◌, bit_and, bit_or, true, false, ◌||◌, ltb, ◌==◌, if◌then◌else◌, List,
  [], length, set, ◌!◌, flag, ◌<<◌, not32, ◌≡◌, refl, ◌∙◌, arith, get_or-set, length-set, bit-set,
  flag-pow, bit_or-lt,
}
use kinetis_k22_sim.Cortex.State.{Cpu, armv7e_m}
use kinetis_k22_sim.Cortex.Exceptions.{ici_load_xpsr, ici_xpsr}
use kinetis_k22_sim.Cortex.Registers.{xpsr_value, load_xpsr}
use kinetis_k22_sim.Cortex.Registers.Status.{read_back, xpsr_value-load_xpsr}
use kinetis_k22_sim.Cortex.Frames.Layout.{
  is_extended, is_padded, frame_address, stacked_status, core_frame, entry_return_value,
  is_extended_return, popped_pointer, restored_core, restore_frame,
}

-- The registers after unstacking a basic frame.
abbrev pub restored_register : List ℕ → List ℕ → ℕ → ℕ
restored_register core old k =
    if k == 15
    then bit_and (core ! 6) (not32 1)
    else if k == 14
    then core ! 5
    else if k == 12
    then core ! 4
    else if ltb k 4
    then core ! k
    else old ! k

pub load_xpsr_registers : (cpu : Cpu) (v : ℕ) → (load_xpsr cpu v).registers ≡ cpu.registers
unfolding load_xpsr ici_load_xpsr
load_xpsr_registers cpu v = ground arith

pub restored :
    (old core : List ℕ) (k : ℕ)
    → length old ≡ 16
    → set
          (set
            (set
              (set (set (set (set old 0 (core ! 0)) 1 (core ! 1)) 2 (core ! 2)) 3 (core ! 3))
              12
              (core ! 4))
            14
            (core ! 5))
          15
          (bit_and (core ! 6) (not32 1))
        ! k
      ≡ restored_register core old k
restored old core k sixteen =
    let r0 = set old 0 (core ! 0) in
    let r1 = set r0 1 (core ! 1) in
    let r2 = set r1 2 (core ! 2) in
    let r3 = set r2 3 (core ! 3) in
    let r12 = set r3 12 (core ! 4) in
    let r14 = set r12 14 (core ! 5) in
    let l0 = length-set old 0 (core ! 0) in
    let l1 = length-set r0 1 (core ! 1) in
    let l2 = length-set r1 2 (core ! 2) in
    let l3 = length-set r2 3 (core ! 3) in
    let l12 = length-set r3 12 (core ! 4) in
    let l14 = length-set r12 14 (core ! 5) in
    let c0 = get_or-set old 0 k (core ! 0) 0 (omega arith) in
    let c1 = get_or-set r0 1 k (core ! 1) 0 (omega arith) in
    let c2 = get_or-set r1 2 k (core ! 2) 0 (omega arith) in
    let c3 = get_or-set r2 3 k (core ! 3) 0 (omega arith) in
    let c12 = get_or-set r3 12 k (core ! 4) 0 (omega arith) in
    let c14 = get_or-set r12 14 k (core ! 5) 0 (omega arith) in
    let c15 = get_or-set r14 15 k (bit_and (core ! 6) (not32 1)) 0 (omega arith) in ground arith

pub restore_frame_registers :
    (cpu : Cpu) (value : ℕ) (core : List ℕ) (k : ℕ)
    → length cpu.registers ≡ 16
    → (restore_frame cpu value core (false, [])).registers ! k
      ≡ restored_register core cpu.registers k
unfolding restore_frame restored_core
restore_frame_registers cpu value core k sixteen =
    let cells = restored cpu.registers core k sixteen in
    let r15 =
      set
        (set
          (set
            (set (set (set (set cpu.registers 0 (core ! 0)) 1 (core ! 1)) 2 (core ! 2)) 3
              (core ! 3))
            12 (core ! 4))
          14 (core ! 5))
        15 (bit_and (core ! 6) (not32 1)) in
    let loaded = load_xpsr_registers (record cpu { registers = r15 }) (core ! 7) in ground arith

pub xpsr_value_ext :
    (c d : Cpu)
    → c.architecture ≡ d.architecture
    → c.xpsr ≡ d.xpsr
    → c.it_state ≡ d.it_state
    → c.ici_valid ≡ d.ici_valid
    → c.ici_register ≡ d.ici_register
    → xpsr_value c ≡ xpsr_value d
unfolding xpsr_value ici_xpsr
xpsr_value_ext c d p q r s t = rw (p, q, r, s, t) refl

pub restore_frame_core :
    (cpu : Cpu) (value : ℕ) (core : List ℕ)
    → xpsr_value (restore_frame cpu value core (false, [])) ≡ xpsr_value (restored_core cpu core)
unfolding restore_frame
restore_frame_core cpu value core =
    xpsr_value_ext (restore_frame cpu value core (false, [])) (restored_core cpu core)
      (ground arith) (ground arith) (ground arith) (ground arith) (ground arith)

pub restore_frame_status :
    (cpu : Cpu) (value : ℕ) (core : List ℕ)
    → cpu.architecture ≡ armv7e_m
    → core ! 7 < 2 ^ 32
    → xpsr_value (restore_frame cpu value core (false, [])) ≡ read_back (core ! 7)
unfolding restored_core
restore_frame_status cpu value core v7 fits =
    restore_frame_core cpu value core ∙ xpsr_value-load_xpsr _ (core ! 7) v7 fits

-- The registers after a handler: the saved ones from before it, bit 0 of the program counter cleared,
-- and the others from the handler.
abbrev pub saved_register : List ℕ → List ℕ → ℕ → ℕ
saved_register before handler k =
    if k == 15
    then bit_and (before ! 15) (not32 1)
    else if k == 14 || k == 12 || ltb k 4
    then before ! k
    else handler ! k

pub restored_register-core_frame :
    (cpu : Cpu) (status : ℕ) (handler : List ℕ) (k : ℕ)
    → restored_register (core_frame cpu status) handler k ≡ saved_register cpu.registers handler k
restored_register-core_frame cpu status handler zero = refl
restored_register-core_frame cpu status handler (suc zero) = refl
restored_register-core_frame cpu status handler (suc (suc zero)) = refl
restored_register-core_frame cpu status handler (suc (suc (suc zero))) = refl
restored_register-core_frame cpu status handler (suc (suc (suc (suc k)))) = ground arith

-- Bit 9 of the stacked status tells of the padding.
pub padding_bit :
    (cpu : Cpu) (sp : ℕ)
    → flag (xpsr_value cpu) (1 << 9) ≡ false
    → flag (stacked_status cpu sp) (1 << 9) ≡ is_padded cpu sp
unfolding stacked_status
padding_bit cpu sp clear =
    let padded = bit-set (xpsr_value cpu) 9 9 in
    let read = flag-pow (bit_or (xpsr_value cpu) (1 << 9)) 9 in ground arith

pub stacked_status-lt :
    (cpu : Cpu) (sp : ℕ) → xpsr_value cpu < 2 ^ 32 → stacked_status cpu sp < 2 ^ 32
unfolding stacked_status
stacked_status-lt cpu sp fits =
    let padded = bit_or-lt 32 (xpsr_value cpu) (1 << 9) fits (omega arith) in ground arith

pub entry_return_value_basic :
    (cpu : Cpu) → is_extended cpu ≡ false → is_extended_return (entry_return_value cpu) ≡ false
unfolding entry_return_value
entry_return_value_basic cpu basic =
    let nested : flag 0xfffffff1 (1 << 4) ≡ true = unfold flag in refl in
    let process : flag 0xfffffffd (1 << 4) ≡ true = unfold flag in refl in
    let main : flag 0xfffffff9 (1 << 4) ≡ true = unfold flag in refl in ground arith

pub popped_pointer-frame_address :
    (cpu : Cpu) (sp value : ℕ)
    → sp < 2 ^ 32
    → frame_address cpu sp + 32 < 2 ^ 32
    → is_extended cpu ≡ false
    → is_extended_return value ≡ false
    → flag (xpsr_value cpu) (1 << 9) ≡ false
    → popped_pointer (frame_address cpu sp) value (core_frame cpu (stacked_status cpu sp)) ≡ sp
unfolding popped_pointer frame_address
popped_pointer-frame_address cpu sp value fits room basic basic_return clear =
    let padded = padding_bit cpu sp clear in ground arith
