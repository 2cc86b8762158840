-- ===== src/Lib.antt =====
-- Models and proofs for the Rust core of the emulator (core/src), which runs Game Boy Color, Game Boy
-- Advance and Nintendo DS programs.
--
-- The parts that are modelled, and the files that model them:
--
--   core/src/gbc/mbc3.rs   Gbc/Rtc.antt (RealTimeClock), Gbc/Mbc3.antt (Mbc3, its banks and RAM) and
--                          Gbc/Mbc3/Save.antt (save_sram, load_sram)
--   core/src/gbc/mmu.rs    Gbc/Mmu.antt and Gbc/Mmu/State (Mmu: bus, joypad, palettes, and the three DMA engines)
--   core/src/gbc/cpu.rs    Gbc/Cpu/State (Cpu, with the bus a Machine; stack and immediate operands),
--                          Gbc/Cpu/Registers (CpuRegisters), Alu (arithmetic and flags), Cb
--                          (execute_cb_opcode), Timers (update_timers), Step (check_interrupts,
--                          step), Operands, Actions and Opcodes (execute_opcode)
--   core/src/psg.rs        Psg/Square1, Square2, Wave, Noise (the four channels), Psg/Units (what they
--                          share) and Psg/Frame (frame_sequencer_step, write_channel_register)
--   core/src/gba/flash.rs  Gba/Flash.antt (Flash128)
--   core/src/gba/dma.rs    Gba/Dma.antt (DmaChannel)
--   core/src/gba/mmu.rs    Gba/Timers.antt (GbaTimer, tick_timers, timer_cycles_to_overflow)
--   core/src/nds/backup.rs Nds/Backup.antt and Nds/Backup/Device (NdsBackup: the SPI protocol, programs and erases)
--   core/src/nds/spi.rs    Nds/Spi/Tsc (TouchScreenController), Pmic (PmicState), Firmware
--                          (FirmwareState), Controller (SpiController, with the arms of the ARM7
--                          register file of core/src/nds/mmu.rs that reach it) and Snapshots
--   core/src/nds/hle.rs    Nds/Settings.antt (build_user_settings, crc16)
--   core/src/nds/mmu.rs    Nds/Ipc (IpcState: IPCSYNC and the FIFOs between the cores),
--                          Nds/Timers.antt (NdsTimers) and Nds/Sqrt.antt (sqrt_result)
--   core/src/snapshot.rs   Snapshot/Codec (Visitor, Writer, Reader, and snap of the basic types) and
--                          Snapshot/Container (content_hash, Header); of the types that implement
--                          Snap, Nds/Backup/Snapshots (NdsBackup) and Nds/Spi/Snapshots
--                          (SpiController)
--   core/src/rom.rs        Rom.antt (validate_and_parse_header) and Battery.antt (read_battery_file)
--
-- The memory map of the Game Boy Color owns the cartridge controller and the sound channels: a bus
-- access to the cartridge is an operation of Gbc.Mbc3, and a write to a sound register is
-- write_channel_register. The controller owns the clock. The flash chip and the backup chip load their
-- cells through read_battery_file. The processor owns nothing of the bus: the source passes it `mmu` at
-- each step, and a Machine is the two together. The SPI
-- controller owns the touch screen, the power chip and the firmware flash, whose image holds the user
-- settings; a register write reaches one device. The two cores of the Nintendo DS meet in the FIFOs:
-- Nds/Ipc/Channel states the rule of a link once, and the handlers of each core are held to it, the
-- memory that their probes look at being a parameter. The sound channels are shared by
-- all consoles, so the Psg modules stand alone.
--
-- Each structure is a record with the source's fields (`data`, a keyword here, is called `cells`, and
-- `wip_polls`, also a constant, is `wip`), each method that changes `self` a function from the old
-- record to the new one, and a method that also returns a value a function to a pair. Bytes and words
-- are natural numbers with the wrap of their width written out; where the source leaves an overflow to
-- the build, the model is that of a release build, which wraps, and `usize` has 64 bits. Shared
-- lemmas on lists, words, bits and division are in Base.
--
-- The `match` of execute_opcode is a list of opcodes and actions, in twenty tables in the order of the
-- source's arms, of which the first that fits is taken; an action is the body of an arm, with the
-- registers it names as arguments where several arms differ in them only.
--
-- Loops: `tick_cycles` of the clock runs on fuel, one more than the seconds in the accumulator, and
-- each turn takes a second out of it, so the fuel is never used up. The search of
-- sqrt_result upwards has a turn for each number up to its operand, and ends before they are used up;
-- advance of the NDS timers recurs on the channels that are left; the loop of a GBA timer has a turn for
-- each cycle in its accumulator and takes at least one out of it. The other loops are counted and
-- are structural recursion on their count. `read_byte` and `write_byte` of the memory map call
-- themselves for the echo of work RAM only, once.
--
-- A snapshot goes through one function for both directions, `Visitor → A → Visitor × A`, as `snap` does
-- with `&mut self` and a `dyn Visitor`. Messages of the source are constructors of Why. What every
-- traversal keeps is the record Snapshot.Lawful.Lawful, which a composition of traversals has when its
-- parts have it.
--
-- The bounds of the memory map of the Game Boy Color are stated by Gbc/Mmu/Padded, which puts more bytes
-- behind every memory: an access that reached past an end would see or change them.
--
-- Sound amplitudes are `f64` in the source, namely small integers divided by 15 (60 for the wave
-- channel, whose level is scaled by quarters); the model has the integers. The file system and the
-- system clock are parameters: a load takes what opening and reading the file gave, and the time.
--
-- Not modelled: the ARM processors, picture units, geometry engine and mixers of the three consoles, the
-- transfers of the GBA's DMA, the compiler to machine code, JSON save states, the resampler, and the
-- C++ frontend. Of core/src/rom.rs, paths, titles, the lines of text profiles and the writing of files
-- are left out; of core/src/gba/mmu.rs all
-- but the timers; of core/src/nds/mmu.rs the regions, the gamecard, the RTC, the DMA and the divider; of
-- core/src/nds/hle.rs the boot and the service calls.
pub mod Base
pub mod Battery
pub mod Gba
pub mod Gbc
pub mod Psg
pub mod Nds
pub mod Snapshot
pub mod Rom
