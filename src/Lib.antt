-- ===== src/Lib.antt =====
-- A model of parts of the Kinetis K22 simulator, and what has been proved of them.
--
-- The simulator runs firmware for the Kinetis K22, KV30 and KV10 microcontrollers. It has an Armv7E-M
-- and Armv6-M core (src/architecture/cortex_m4) and the devices around it (src/device/kinetis). The
-- devices raise interrupt lines, the core makes them pending, chooses among the pending exceptions,
-- enters and leaves handlers, and reports faults; the timing module counts core cycles into the
-- clocks of its counters and watchdogs, and the watchdogs ask for an interrupt or a reset.
--
-- Base holds what all modules share: the libraries' names, the Boolean tests of C, words of a fixed
-- width as natural numbers with the wrap-around written out, their binary digits, arrays as lists,
-- and counted loops with one invariant rule.
--
-- Cortex models the core. Its state is the record Cpu of Cortex/State, with the fields of struct
-- CortexM4 (internal.h) that the modelled functions use; an operation takes a Cpu and gives a Cpu.
-- Where it reaches memory it takes a Machine, a Cpu with the state of the device behind the bus.
--   Cortex/Priority    system.c: priorities, masks, the order of exceptions
--   Cortex/Pending     system.c, exceptions/base.c: pending bits, interrupt lines, WFI
--   Cortex/Selection   exceptions/advanced.c, system.c: the exception that is taken, late arrival,
--                      VECTPENDING
--   Cortex/Exceptions  exceptions/advanced.c: the stack of active exceptions, the checks of a return,
--                      suspended load or store multiple
--   Cortex/Faults      exceptions/base.c and advanced.c: faults and their escalation
--   Cortex/Alu         core.c: adder, shifter, flags, conditions; add_flags of thumb16.c
--   Cortex/Registers   core.c: core registers, xPSR, CONTROL, breakpoints
--   Cortex/ItBlock     instructions/it.c
--   Cortex/Mpu         mpu.c: regions, permissions, the check of an access, the registers
--   Cortex/Constraints constraints.c: the encodings that the core refuses
--   Cortex/Dsp         instructions/dsp.c: the DSP instructions
--   Cortex/Scs         system.c: reads and writes of the system control registers, reset
--   Cortex/Exclusive   timing.c: the reservation of exclusive loads and stores
--   Cortex/Bus         bus.c: an access through protection, system registers and the device
--   Cortex/SysTick     bus.c: SysTick in cortex_m4_advance
--   Cortex/Frames      system.c: stacking and unstacking of exception frames, lazy floating point
--   Cortex/Entry       exceptions/base.c and advanced.c: vector fetch, entry, tail chain, return
-- The code around these parts is given by interfaces. DeviceBus has the read and write callbacks of
-- CortexM4Bus over any type of device state. DebugUnit has the register reads and writes of debug.c
-- and what it notes of an access. Surroundings has what entry and return call besides: the vector
-- catch of debug.c and the time that timing.c lets pass. A theorem that needs a law of one of these
-- has it as a hypothesis; IsRam says that a range of addresses of the device is memory.
-- Definitions have the names of the C functions without the prefix cortex_m4_ or
-- cortex_m4_exception_advanced_; where the model splits a function, each piece names its function in
-- a comment.
--
-- Timing models the watchdogs of src/device/kinetis/timing. Its state is the record Timing of
-- Timing/State, with the fields of KinetisTiming (api.h) that watchdogs.c uses.
--   Timing/Clock       clocks.c, registers.c: ticks of a clock in a span of core cycles
--   Timing/Watchdog    watchdogs.c: time in the watchdog; Access: its registers
--   Timing/Ewm         watchdogs.c: the external watchdog monitor
-- A call of the interrupt callback is added to the list irq_calls. A reset is the value reset of the
-- type Outcome, with the state and the reset source at the call of
-- kinetis_timing_internal_signal_reset: the callers return at once there, except for one assignment
-- that the model makes to the carried state. A handler that returns false gives none.
--
-- Memory models peripherals of src/device/kinetis/memory, each with a record of its fields of
-- KinetisData (internal.h).
--   Memory/Bytes       api.c: little-endian bytes of a register
--   Memory/Crc         integrity.c, runtime.c: the CRC unit
--   Memory/Rng         integrity.c, runtime.c: the random number generator
--
-- Ports models src/device/kinetis/gpio for one port: the functions get the number of a port, and Port
-- has the cells of that number in the arrays of KinetisIo (io.h).
--   Ports/Levels       core.c: levels of the pins, their filter and their events
--   Ports/Control      core.c: the registers of the PORT module
--   Ports/Gpio         core.c: the registers of the GPIO module
--
-- Conventions. The NULL checks of the public functions have no counterpart. Integers are natural
-- numbers; a cast, a complement or a sum that may wrap says so. A write outside of an array is not
-- made: in C it is undefined, and the theorems have the lengths of the arrays as hypotheses. Loops
-- are structural recursion on their counts (for_range). Of the while loops, that of
-- count_selected_registers is count_digits on fuel, where 16 rounds are enough for a list of 16
-- digits, and that of update_output_events, over the set digits of a word, is one over 32 digits.
--
-- Not modelled: instruction execution other than DSP, stepping, the debug unit, coverage and pipeline
-- timing, floating point instructions, the other timers, the flash, DMA and analog peripherals, the
-- communication peripherals and those of gpio/peripherals.c, the device tables, and the command line.
pub mod Base
pub mod Cortex
pub mod Timing
pub mod Memory
pub mod Ports
