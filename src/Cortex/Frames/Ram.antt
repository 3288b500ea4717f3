-- ===== src/Cortex/Frames/Ram.antt =====
-- The words of a frame in RAM: what is stacked word by word is what is read back.
use kinetis_k22_sim.Base.{
  ℕ, ◌+◌, ◌*◌, ◌≤◌, Bool, true, false, u32, List, [], ◌∷◌, length, Option, some, none, ◌≡◌, refl,
  ap, ◌∙◌, arith, ◌⊎◌, inr,
}
use kinetis_k22_sim.Cortex.State.{Cpu, regular}
use kinetis_k22_sim.Cortex.Mpu.{mpu_active, mpu_access_permitted, mpu_check, mpu_read, mpu_write}
use kinetis_k22_sim.Cortex.Exclusive.{observe_write}
use kinetis_k22_sim.Cortex.Scs.Read.{system_read}
use kinetis_k22_sim.Cortex.Scs.Write.{system_write}
use kinetis_k22_sim.Cortex.Bus.{
  DeviceBus, DebugUnit, Machine, bus_read, bus_write, checked_read, checked_write, device_read,
  device_write,
}
use kinetis_k22_sim.Cortex.Frames.Stack.{write_stack_word, read_stack_word, write_words}
use kinetis_k22_sim.Cortex.Frames.Unstack.{read_words, prepend}

-- A device that has RAM from `first` up to `last`, as far as words are concerned.
pub record IsRam {Device : Type 0} (bus : DeviceBus Device) (first last : ℕ) : Type 0 where
  pub below_system : last ≤ 0xe0000000
  pub accepts :
      (device : Device) (a value : ℕ)
      → first ≤ a
      → a + 4 ≤ last
      → (bus.write device a 4 regular value).1 ≡ true
  pub silent :
      (device : Device) (a : ℕ)
      → first ≤ a
      → a + 4 ≤ last
      → (bus.read device a 4 regular).0 ≡ device
  pub stores :
      (device : Device) (a value : ℕ)
      → first ≤ a
      → a + 4 ≤ last
      → (bus.read (bus.write device a 4 regular value).0 a 4 regular).1 ≡ some value
  pub apart :
      (device : Device) (a b value : ℕ)
      → first ≤ a
      → a + 4 ≤ last
      → first ≤ b
      → b + 4 ≤ last
      → (a + 4 ≤ b) ⊎ (b + 4 ≤ a)
      → (bus.read (bus.write device a 4 regular value).0 b 4 regular).1
        ≡ (bus.read device b 4 regular).1

module _ {Device : Type 0} (bus : DeviceBus Device) (debug : DebugUnit) (first last : ℕ)
    (ram : IsRam bus first last) where
  -- The core after the check of a word of the frame that is permitted.
  abbrev checked : Cpu → Cpu
  checked cpu = record cpu { exception_frame_memory_management_fault = false }

  write_ram :
      (machine : Machine Device) (a value : ℕ)
      → mpu_active machine.cpu ≡ false
      → first ≤ a
      → a + 4 ≤ last
      → write_stack_word bus debug machine a value ≡ (
        record machine {
          cpu = observe_write (checked machine.cpu) a 4;
          device = (bus.write machine.device a 4 regular value).0;
        },
        true,
      )
  unfolding write_stack_word bus_write checked_write device_write system_write mpu_write mpu_check
      mpu_access_permitted
  write_ram machine a value idle low high =
      let below = ram.below_system in
      let accepted = ram.accepts machine.device a value low high in
      let idle_checked : mpu_active (checked machine.cpu) ≡ false = unfold mpu_active in idle in
      ground arith

  read_ram :
      (machine : Machine Device) (a : ℕ)
      → mpu_active machine.cpu ≡ false
      → first ≤ a
      → a + 4 ≤ last
      → read_stack_word bus debug machine a
        ≡ (record machine { cpu = checked machine.cpu }, (bus.read machine.device a 4 regular).1)
  unfolding read_stack_word bus_read checked_read device_read system_read mpu_read mpu_check
      mpu_access_permitted
  read_ram machine a idle low high =
      let below = ram.below_system in
      let silent = ram.silent machine.device a low high in
      let idle_checked : mpu_active (checked machine.cpu) ≡ false = unfold mpu_active in idle in
      ground arith

  -- The words from an address on.
  pub IsStored : Device → ℕ → List ℕ → Type 0
  IsStored device a [] = Unit
  IsStored device a (value ∷ values) =
      ((bus.read device a 4 regular).1 ≡ some value) × IsStored device (a + 4) values

  -- Stacking and unstacking words change only the reservation and the mark of a failed access.
  pub record IsSameCore (cpu other : Cpu) : Type 0 where
    pub same : other ≡ record cpu {
      exclusive_valid = other.exclusive_valid;
      exception_frame_memory_management_fault = other.exception_frame_memory_management_fault;
    }

  after_write : (cpu : Cpu) (a : ℕ) → IsSameCore cpu (observe_write (checked cpu) a 4)
  unfolding observe_write
  after_write cpu a = record { same = ground arith }

  IsSameCore-trans : (c d e : Cpu) → IsSameCore c d → IsSameCore d e → IsSameCore c e
  IsSameCore-trans c d e p q = record {
    same =
        q.same
        ∙ ap
            (λ (core : Cpu). record core {
              exclusive_valid = e.exclusive_valid;
              exception_frame_memory_management_fault = e.exception_frame_memory_management_fault;
            })
            p.same;
  }

  pub IsSameCore-idle : (c d : Cpu) → IsSameCore c d → mpu_active c ≡ false → mpu_active d ≡ false
  unfolding mpu_active
  IsSameCore-idle c d p idle = ap mpu_active p.same ∙ idle

  -- What writing the words at `a` has done.
  pub record IsWritten (machine : Machine Device) (a : ℕ) (values : List ℕ)
      (out : Machine Device × Bool) : Type 0 where
    pub done : out.1 ≡ true
    pub core : IsSameCore machine.cpu out.0.cpu
    pub stored : IsStored out.0.device a values
    pub below :
        (b : ℕ)
        → first ≤ b
        → b + 4 ≤ a
        → (bus.read out.0.device b 4 regular).1 ≡ (bus.read machine.device b 4 regular).1

  write_step :
      (machine : Machine Device) (a value : ℕ) (values : List ℕ)
      → mpu_active machine.cpu ≡ false
      → first ≤ a
      → a + 4 ≤ last
      → write_words bus debug machine a (value ∷ values)
        ≡ write_words bus debug
            (record machine {
              cpu = observe_write (checked machine.cpu) a 4;
              device = (bus.write machine.device a 4 regular value).0;
            })
            (a + 4)
            values
  unfolding write_words
  write_step machine a value values idle low high =
      let below = ram.below_system in
      let wrap : u32 (a + 4) ≡ a + 4 = omega arith in
      rw (write_ram machine a value idle low high, wrap) refl

  pub write_words_ram :
      (values : List ℕ) (machine : Machine Device) (a : ℕ)
      → mpu_active machine.cpu ≡ false
      → first ≤ a
      → a + 4 * length values ≤ last
      → IsWritten machine a values (write_words bus debug machine a values)
  unfolding IsStored
  write_words_ram [] machine a idle low high =
      unfold write_words in
      record { done = refl; core = record { same = refl }; stored = tt; below = λ b h k. refl }
  write_words_ram (value ∷ values) machine a idle low high =
      let cpu = observe_write (checked machine.cpu) a 4 in
      let device = (bus.write machine.device a 4 regular value).0 in
      let only = after_write machine.cpu a in
      let idle_next = IsSameCore-idle machine.cpu cpu only idle in
      let rest =
        write_words_ram values (record machine { cpu = cpu; device = device }) (a + 4) idle_next
          (omega arith) (omega arith) in
      rw (write_step machine a value values idle low (omega arith)) record {
        done = rest.done;
        core = IsSameCore-trans machine.cpu cpu _ only rest.core;
        stored = (
          rest.below a low (omega arith) ∙ ram.stores machine.device a value low (omega arith),
          rest.stored,
        );
        below = λ b h k.
            rest.below b h (omega arith)
            ∙ ram.apart machine.device a b value low (omega arith) h (omega arith) (inr k);
      }

  pub record IsRead (machine : Machine Device) (values : List ℕ)
      (out : Machine Device × Option (List ℕ)) : Type 0 where
    pub found : out.1 ≡ some values
    pub core : IsSameCore machine.cpu out.0.cpu
    pub device : out.0.device ≡ machine.device

  prepended :
      (value : ℕ) (values : List ℕ) (machine next : Machine Device)
      (out : Machine Device × Option (List ℕ))
      → IsSameCore machine.cpu next.cpu
      → next.device ≡ machine.device
      → IsRead next values out
      → IsRead machine (value ∷ values) (prepend bus debug value out)
  prepended value values machine next (last_machine, some others) core device rest = record {
    found = ground (arith, rest.found);
    core = IsSameCore-trans machine.cpu next.cpu last_machine.cpu core rest.core;
    device = rest.device ∙ device;
  }
  prepended value values machine next (last_machine, none) core device rest =
      absurd (ground (arith, rest.found))

  pub read_words_ram :
      (values : List ℕ) (machine : Machine Device) (a : ℕ)
      → mpu_active machine.cpu ≡ false
      → first ≤ a
      → a + 4 * length values ≤ last
      → IsStored machine.device a values
      → IsRead machine values (read_words bus debug (length values) machine a)
  unfolding read_words IsStored
  read_words_ram [] machine a idle low high stored = record {
    found = refl;
    core = record { same = refl };
    device = refl;
  }
  read_words_ram (value ∷ values) machine a idle low high stored =
      let below = ram.below_system in
      let step = read_ram machine a idle low (omega arith) in
      let next = record machine { cpu = checked machine.cpu } in
      let wrap : u32 (a + 4) ≡ a + 4 = omega arith in
      let only : IsSameCore machine.cpu (checked machine.cpu) = record { same = refl } in
      let idle_next = IsSameCore-idle machine.cpu (checked machine.cpu) only idle in
      let rest =
        read_words_ram values next (a + 4) idle_next (omega arith) (omega arith) stored.1 in
      rw (step, stored.0, wrap) (prepended value values machine next _ only refl rest)
