-- ===== src/Gbc/Cpu/Actions/Loads.antt =====
-- gbc/cpu.rs: the loads, stores, pushes and pops.
use emulator_app.Base.{ℕ, ◌+◌, u16}
use emulator_app.Gbc.Cpu.Registers.{CpuRegisters, get_hl, set_hl}
use emulator_app.Gbc.Cpu.Operands.{R8, R16, get_r8, set_r8, get_r16, set_r16}
use emulator_app.Gbc.Cpu.State.{
  with_registers, write, push_word, pop_word, read_immediate_u8, read_immediate_u16,
}
use emulator_app.Gbc.Mmu.{read_byte}
use emulator_app.Gbc.Cpu.Actions.{Action, at_hl}

unfoldable pub load_immediate_16 : R16 → Action
load_immediate_16 dst m =
    let (m1, val) = read_immediate_u16 m in
    (with_registers m1 (set_r16 dst m1.cpu.registers val), 12)

unfoldable pub push : R16 → Action
push src m = (push_word m (get_r16 src m.cpu.registers), 16)

unfoldable pub pop : R16 → Action
pop dst m = let (m1, val) = pop_word m in (with_registers m1 (set_r16 dst m1.cpu.registers val), 12)

unfoldable pub load_immediate : R8 → Action
load_immediate dst m =
    let (m1, val) = read_immediate_u8 m in (with_registers m1 (set_r8 dst m1.cpu.registers val), 8)

unfoldable pub store_immediate : Action
store_immediate m =
    let (m1, val) = read_immediate_u8 m in (write m1 (get_hl m1.cpu.registers) val, 12)

unfoldable pub copy : R8 → R8 → Action
copy dst src m = (with_registers m (set_r8 dst m.cpu.registers (get_r8 src m.cpu.registers)), 4)

unfoldable pub load_hl : R8 → Action
load_hl dst m = (with_registers m (set_r8 dst m.cpu.registers (at_hl m)), 8)

unfoldable pub store_hl : R8 → Action
store_hl src m = (write m (get_hl m.cpu.registers) (get_r8 src m.cpu.registers), 8)

-- `mmu.write_byte(self.registers.get_rr(), self.registers.a)` and its converse.
unfoldable pub store_a : R16 → Action
store_a at m = (write m (get_r16 at m.cpu.registers) m.cpu.registers.a, 8)

unfoldable pub load_a : R16 → Action
load_a at m = (
  with_registers m (record m.cpu.registers { a = read_byte m.mmu (get_r16 at m.cpu.registers) }),
  8,
)

unfoldable pub store_a_absolute : Action
store_a_absolute m = let (m1, at) = read_immediate_u16 m in (write m1 at m1.cpu.registers.a, 16)

unfoldable pub load_a_absolute : Action
load_a_absolute m =
    let (m1, at) = read_immediate_u16 m in
    (with_registers m1 (record m1.cpu.registers { a = read_byte m1.mmu at }), 16)

unfoldable pub store_a_high : Action
store_a_high m =
    let (m1, offset) = read_immediate_u8 m in (write m1 (0xFF00 + offset) m1.cpu.registers.a, 12)

unfoldable pub load_a_high : Action
load_a_high m =
    let (m1, offset) = read_immediate_u8 m in
    (with_registers m1 (record m1.cpu.registers { a = read_byte m1.mmu (0xFF00 + offset) }), 12)

unfoldable pub store_a_c : Action
store_a_c m = (write m (0xFF00 + m.cpu.registers.c) m.cpu.registers.a, 8)

unfoldable pub load_a_c : Action
load_a_c m = (
  with_registers m (record m.cpu.registers { a = read_byte m.mmu (0xFF00 + m.cpu.registers.c) }),
  8,
)

-- LD [HL+], A and LD [HL-], A, with the step as a `u16`.
unfoldable pub store_a_step : ℕ → Action
store_a_step step m =
    let hl = get_hl m.cpu.registers in
    let m1 = write m hl m.cpu.registers.a in
    (with_registers m1 (set_hl m1.cpu.registers (u16 (hl + step))), 8)

unfoldable pub load_a_step : ℕ → Action
load_a_step step m =
    let hl = get_hl m.cpu.registers in
    let r : CpuRegisters = record m.cpu.registers { a = read_byte m.mmu hl } in
    (with_registers m (set_hl r (u16 (hl + step))), 8)
