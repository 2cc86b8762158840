-- ===== src/Gbc/Cpu/Actions/Control.antt =====
-- gbc/cpu.rs: jumps, calls, returns, interrupts, HALT and STOP, and the stack pointer.
use emulator_app.Base.{
  ℕ, ◌+◌, Bool, true, false, not, ◌==◌, ◌!=◌, if◌then◌else◌, bit_and, u16, ◌>>◌,
}
use emulator_app.Gbc.Cpu.Registers.{CpuRegisters, flag_z, flag_c, get_flag}
use emulator_app.Gbc.Cpu.Alu.{sign_extend}
use emulator_app.Gbc.Cpu.State.{
  Machine, with_registers, with_pc, write, push_word, pop_word, read_immediate_u8,
  read_immediate_u16,
}
use emulator_app.Gbc.Mmu.{read_io, write_io}
use emulator_app.Gbc.Cpu.Actions.{Action}

-- The condition of a jump: a flag and the value that it must have.
pub record Condition : Type 0 where
  pub mask : ℕ
  pub wanted : Bool

abbrev pub nz : Condition
nz = record { mask = flag_z; wanted = false }

abbrev pub zr : Condition
zr = record { mask = flag_z; wanted = true }

abbrev pub nc : Condition
nc = record { mask = flag_c; wanted = false }

abbrev pub cy : Condition
cy = record { mask = flag_c; wanted = true }

abbrev pub holds : Condition → CpuRegisters → Bool
holds k r = if k.wanted then get_flag r k.mask else not (get_flag r k.mask)

unfoldable pub jump : Action
jump m = let (m1, at) = read_immediate_u16 m in (with_pc m1 at, 16)

unfoldable pub jump_if : Condition → Action
jump_if k m =
    let (m1, at) = read_immediate_u16 m in
    if holds k m1.cpu.registers then (with_pc m1 at, 16) else (m1, 12)

abbrev pub relative : Machine → ℕ → Machine
relative m offset = with_pc m (u16 (m.cpu.registers.pc + sign_extend offset))

unfoldable pub jump_relative : Action
jump_relative m = let (m1, offset) = read_immediate_u8 m in (relative m1 offset, 12)

unfoldable pub jump_relative_if : Condition → Action
jump_relative_if k m =
    let (m1, offset) = read_immediate_u8 m in
    if holds k m1.cpu.registers then (relative m1 offset, 12) else (m1, 8)

unfoldable pub call : Action
call m = let (m1, at) = read_immediate_u16 m in (with_pc (push_word m1 m1.cpu.registers.pc) at, 24)

unfoldable pub call_if : Condition → Action
call_if k m =
    let (m1, at) = read_immediate_u16 m in
    if holds k m1.cpu.registers
    then (with_pc (push_word m1 m1.cpu.registers.pc) at, 24)
    else (m1, 12)

unfoldable pub ret : Action
ret m = let (m1, at) = pop_word m in (with_pc m1 at, 16)

unfoldable pub ret_if : Condition → Action
ret_if k m =
    let (m1, at) = pop_word m in if holds k m.cpu.registers then (with_pc m1 at, 20) else (m, 8)

unfoldable pub reti : Action
reti m =
    let (m1, at) = pop_word m in
    let m2 = with_pc m1 at in (record m2 { cpu = record m2.cpu { ime = true } }, 16)

unfoldable pub restart : ℕ → Action
restart vector m = (with_pc (push_word m m.cpu.registers.pc) vector, 16)

unfoldable pub disable_interrupts : Action
disable_interrupts m = (record m { cpu = record m.cpu { ime = false } }, 4)

unfoldable pub enable_interrupts : Action
enable_interrupts m = (record m { cpu = record m.cpu { ei_delay = true } }, 4)

unfoldable pub halt : Action
halt m = (record m { cpu = record m.cpu { halted = true } }, 4)

-- STOP, which switches the speed where KEY1 asks for it.
unfoldable pub stop : Action
stop m =
    let (m1, dummy) = read_immediate_u8 m in
    let key1 = read_io m1.mmu 0x4D in
    let new_speed = bit_and key1 0x80 == 0 in
    if bit_and key1 0x01 != 0
    then (
      record m1 {
        mmu = write_io m1.mmu 0x4D (if new_speed then 0x80 else 0x00);
        cpu = record m1.cpu {
          double_speed = new_speed;
          stop_mode = true;
          stop_cycles_left = 128000;
        };
      },
      4,
    )
    else (m1, 4)

-- LD HL, SP+e8 and ADD SP, e8.
unfoldable pub with_offset : (CpuRegisters → ℕ → CpuRegisters) → ℕ → Action
with_offset op cycles m =
    let (m1, offset) = read_immediate_u8 m in
    (with_registers m1 (op m1.cpu.registers offset), cycles)

-- LD [nn], SP; `addr + 1` wraps.
unfoldable pub store_sp : Action
store_sp m =
    let (m1, at) = read_immediate_u16 m in
    let sp = m1.cpu.registers.sp in
    (write (write m1 at (bit_and sp 0xFF)) (u16 (at + 1)) (sp >> 8), 20)
