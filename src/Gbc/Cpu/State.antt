-- ===== src/Gbc/Cpu/State.antt =====
-- gbc/cpu.rs: the processor, and its stack and immediate operands on the bus. Where the source has
-- `&mut self` and `mmu`, the model has a machine with both.
use emulator_app.Base.{ℕ, ◌+◌, Bool, false, bit_and, u8, u16, ◌>>◌}
use emulator_app.Gbc.Cpu.Registers.{CpuRegisters, word}
use emulator_app.Gbc.Mmu.{Mmu, read_byte, write_byte}

pub record Cpu : Type 0 where
  pub registers : CpuRegisters
  pub ime : Bool
  pub halted : Bool
  pub double_speed : Bool
  pub ei_delay : Bool
  pub stop_mode : Bool
  pub stop_cycles_left : ℕ
  pub div_counter : ℕ

abbrev pub boot_registers : CpuRegisters
boot_registers = record {
  a = 0x11;
  f = 0x80;
  b = 0x00;
  c = 0x00;
  d = 0xFF;
  e = 0x56;
  h = 0x00;
  l = 0x0D;
  sp = 0xFFFE;
  pc = 0x0100;
}

abbrev pub new : Cpu
new = record {
  registers = boot_registers;
  ime = false;
  halted = false;
  double_speed = false;
  ei_delay = false;
  stop_mode = false;
  stop_cycles_left = 0;
  div_counter = 0x1800;
}

-- Every field is assigned.
abbrev pub reset : Cpu → Cpu
reset self = new

pub record Machine : Type 0 where
  pub cpu : Cpu
  pub mmu : Mmu

abbrev pub with_registers : Machine → CpuRegisters → Machine
with_registers m r = record m { cpu = record m.cpu { registers = r } }

abbrev pub with_pc : Machine → ℕ → Machine
with_pc m pc = with_registers m (record m.cpu.registers { pc = pc })

abbrev pub with_sp : Machine → ℕ → Machine
with_sp m sp = with_registers m (record m.cpu.registers { sp = sp })

abbrev pub write : Machine → ℕ → ℕ → Machine
write m address value = record m { mmu = write_byte m.mmu address value }

unfoldable pub push_word : Machine → ℕ → Machine
push_word m val =
    let high_at = u16 (m.cpu.registers.sp + 65535) in
    let low_at = u16 (high_at + 65535) in
    with_sp (write (write m high_at (u8 (val >> 8))) low_at (bit_and val 0xFF)) low_at

unfoldable pub pop_word : Machine → Machine × ℕ
pop_word m =
    let sp = m.cpu.registers.sp in
    let low = read_byte m.mmu sp in
    let high = read_byte m.mmu (u16 (sp + 1)) in (with_sp m (u16 (u16 (sp + 1) + 1)), word high low)

unfoldable pub read_immediate_u8 : Machine → Machine × ℕ
read_immediate_u8 m = let pc = m.cpu.registers.pc in (with_pc m (u16 (pc + 1)), read_byte m.mmu pc)

unfoldable pub read_immediate_u16 : Machine → Machine × ℕ
unfolding read_immediate_u8
read_immediate_u16 m =
    let (m1, low) = read_immediate_u8 m in
    let (m2, high) = read_immediate_u8 m1 in (m2, word high low)
