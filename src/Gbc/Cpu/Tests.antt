-- ===== src/Gbc/Cpu/Tests.antt =====
-- Witnesses and tests of the processor.
use emulator_app.Base.{
  ℕ, ◌+◌, ◌*◌, ◌/◌, ◌%◌, ◌^◌, ◌<◌, ◌≡◌, ◌∙◌, ap, refl, get_or-set, true, false, if◌then◌else◌,
  arith, List, [], ◌∷◌, some, none, set, get_or, length, length-set, length-replicate, replicate,
  bit_and, bit_or, ltb, ◌-◌,
}
use emulator_app.Gbc.Cpu.Registers.{CpuRegisters, get_flag, flag_c, flag_z, bit_of}
use emulator_app.Gbc.Cpu.Alu.{alu_add, alu_sub, daa, add_sp, ld_hl_sp}
use emulator_app.Gbc.Cpu.State.{Machine, boot_registers, new}
use emulator_app.Gbc.Cpu.Opcodes.{execute_opcode}
use emulator_app.Gbc.Cpu.Decode.{regular, execute_opcode-regular}
use emulator_app.Gbc.Cpu.Chains.{chain, value, firsts, seconds, scale, chain-alu_sub}
use emulator_app.Gbc.Cpu.Decimal.{bcd, daa-alu_add}
use emulator_app.Gbc.Cpu.Timers.{update_timers}
use emulator_app.Gbc.Cpu.Timers.Edges.{counts, advanced}
use emulator_app.Gbc.Cpu.Timers.Overflow.{update_timers-tima}
use emulator_app.Gbc.Cpu.Stack.{HasRoom}
use emulator_app.Gbc.Cpu.StackPointer.{add_sp-ld_hl_sp}
use emulator_app.Gbc.Cpu.Stopped.{steps, steps-stop_mode}
use emulator_app.Gbc.Cpu.Step.{check_interrupts}
use emulator_app.Gbc.Cpu.Actions.Control.{reti}
use emulator_app.Gbc.Cpu.Interrupts.{IsLowest, pending, check_interrupts-reti}
use emulator_app.Gbc.Mmu.{Mmu, read_io}
use emulator_app.Gbc.Mmu
use emulator_app.Gbc.Mmu.Sized.{IsSized, new-IsSized}

abbrev bus : Mmu
bus = Mmu.new (0x8E ∷ 0x00 ∷ []) none

abbrev machine : Machine
machine = record { cpu = new; mmu = bus }

execute_opcode-regular_example : execute_opcode 0x8E machine ≡ regular 0x8E machine
execute_opcode-regular_example =
    execute_opcode-regular 0x8E machine (omega arith) (omega arith) (omega arith)

-- 0x12FF and 0x3401, in bytes.
abbrev pairs : List (ℕ × ℕ)
pairs = (0xFF, 0x01) ∷ (0x12, 0x34) ∷ []

chain-alu_sub_example :
    value (chain (alu_sub true) boot_registers pairs).1
      + seconds pairs
      + bit_of (get_flag boot_registers flag_c)
    ≡ firsts pairs
      + (if get_flag (chain (alu_sub true) boot_registers pairs).0 flag_c then scale pairs else 0)
chain-alu_sub_example =
    chain-alu_sub boot_registers pairs
      ((omega arith, omega arith), ((omega arith, omega arith), tt))

-- The accumulator at 45, in decimal.
abbrev decimal : CpuRegisters
decimal = record boot_registers { a = 0x45 }

daa-alu_add_example :
    let after = daa (alu_add false decimal (bcd 38)) in
    (after.a ≡ bcd 83) × (get_flag after flag_c ≡ false) × (get_flag after flag_z ≡ false)
daa-alu_add_example = daa-alu_add false decimal 45 38 refl (omega arith) (omega arith)

put : (k v : ℕ) → k < 128 → get_or (set (replicate 128 0) k v) k 0 ≡ v
put k v h =
    let there = get_or-set (replicate 128 0) k k v 0 in
    let zeros : List ℕ = replicate 128 0 in
    let size : length zeros ≡ 128 = length-replicate 128 0 in ground (arith, there, size)

-- The timer on, at one count in 16 cycles, two counts before its overflow.
abbrev timed : Machine
timed = record machine {
  mmu = record bus { io = 0 ∷ 0 ∷ 0 ∷ 0 ∷ 0 ∷ 0xFE ∷ 0xF0 ∷ 0x05 ∷ replicate 120 0 };
}

timed_size : length timed.mmu.io ≡ 128
timed_size = omega (arith, length-replicate {A = ℕ} 120 0)

update_timers-tima_example :
    let k = counts 40 timed.cpu.div_counter (read_io timed.mmu 0x07) timed.cpu.double_speed in
    let t = read_io timed.mmu 0x05 in
    let tma = read_io timed.mmu 0x06 in
    let iflags = read_io timed.mmu 0x0F in
    let after = update_timers 40 timed in
    (read_io after.mmu 0x05
      ≡ (if ltb (t + k) 0x100 then t + k else tma + (t + k - 0x100) % (0x100 - tma)))
    × (read_io after.mmu 0x0F ≡ (if ltb (t + k) 0x100 then iflags else bit_or iflags 0x04))
    × (read_io after.mmu 0x40 ≡ read_io timed.mmu 0x40)
    × (after.cpu ≡ advanced timed.cpu 40)
update_timers-tima_example =
    update_timers-tima timed 40 0x40 (omega arith) (omega arith) timed_size (omega arith)
      (omega arith) (omega arith) (omega arith) (omega arith)

roomy : HasRoom 0xFFFE
roomy = (omega arith, omega arith, refl, refl)

add_sp-ld_hl_sp_example :
    let r = record boot_registers { sp = 0xC0F8 } in
    ((add_sp r 8).sp ≡ 0xC100)
    × ((ld_hl_sp r 8).h * 256 + (ld_hl_sp r 8).l ≡ 0xC100)
    × ((ld_hl_sp r 8).f ≡ 0x30)
    × ((add_sp r 8).f ≡ 0)
add_sp-ld_hl_sp_example =
    add_sp-ld_hl_sp (record boot_registers { sp = 0xC0F8 }) 8 (omega arith) refl (omega arith)

-- In stop mode, with ten cycles to go.
abbrev stopped : Machine
stopped = record machine { cpu = record new { stop_mode = true; stop_cycles_left = 10 } }

steps-stop_mode_example :
    ((steps 3 stopped).1 ≡ 10)
    × ((steps 3 stopped).0.cpu.stop_mode ≡ false)
    × ((steps 3 stopped).0.cpu.stop_cycles_left ≡ 0)
    × ((steps 3 stopped).0.cpu.registers ≡ boot_registers)
    × ((steps 2 stopped).0.cpu.stop_mode ≡ true)
steps-stop_mode_example = steps-stop_mode 2 stopped refl (omega arith) (omega arith)

-- The timer and the joypad ask, and both are enabled.
abbrev asked : Machine
asked = record machine {
  cpu = record new { ime = true; halted = true };
  mmu = record bus { ie = 0x0F; io = set (replicate 128 0) 0x0F 0x14 };
}

asked-IsSized : IsSized asked.mmu
asked-IsSized =
    let sized = new-IsSized (0x8E ∷ 0x00 ∷ []) none in
    record {
      vram = sized.vram;
      wram = sized.wram;
      oam = sized.oam;
      hram = sized.hram;
      bg_palette_ram = sized.bg_palette_ram;
      obj_palette_ram = sized.obj_palette_ram;
      io = length-set (replicate 128 0) 0x0F 0x14 ∙ length-replicate 128 0;
    }

asked-IsLowest : IsLowest 2 (pending asked)
asked-IsLowest =
    let request : bit_and 0x0F (read_io asked.mmu 0x0F) ≡ 4 =
      ap (bit_and 0x0F) (put 0x0F 0x14 (omega arith)) in
    (omega arith, omega (arith, request), omega (arith, request))

check_interrupts-reti_example :
    let served = (check_interrupts asked).0 in
    ((check_interrupts asked).1 ≡ some 20)
    × (served.cpu.registers.pc ≡ 0x40 + 8 * 2)
    × (served.cpu.ime ≡ false)
    × (served.cpu.halted ≡ false)
    × (read_io served.mmu 0x0F + read_io asked.mmu 0x0F / 2 ^ 2 % 2 * 2 ^ 2
        ≡ read_io asked.mmu 0x0F)
    × ((reti served).0.cpu ≡ record asked.cpu { ime = true; halted = false })
check_interrupts-reti_example =
    check_interrupts-reti asked 2 refl asked-IsLowest asked-IsSized
      (omega (arith, put 0x0F 0x14 (omega arith))) (omega arith) roomy
