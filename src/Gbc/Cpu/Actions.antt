-- ===== src/Gbc/Cpu/Actions.antt =====
-- gbc/cpu.rs: what the bodies of the arms of `execute_opcode` do, with the operands that the arms
-- differ in. An action gives the new machine and the cycles.
pub mod Loads
pub mod Arithmetic
pub mod Control
use emulator_app.Base.{
  ℕ, ◌+◌, ◌*◌, ◌/◌, ◌^◌, Bool, true, false, not, List, [], ◌∷◌, ◌==◌, ◌!=◌, if◌then◌else◌, bit_and,
  u8, u16, ◌>>◌,
}
use emulator_app.Gbc.Cpu.Registers.{CpuRegisters, flag_z, flag_c, get_hl, set_hl, get_flag}
use emulator_app.Gbc.Cpu.Alu.{inc_value, dec_value, alu_inc, alu_dec, alu_add_hl, sign_extend}
use emulator_app.Gbc.Cpu.Operands.{R8, R16, get_r8, set_r8, get_r16, set_r16}
use emulator_app.Gbc.Cpu.State.{
  Cpu, Machine, with_registers, with_pc, write, push_word, pop_word, read_immediate_u8,
  read_immediate_u16,
}
use emulator_app.Gbc.Mmu.{read_byte, read_io, write_io}

abbrev pub Action : Type 0
Action = Machine → Machine × ℕ

-- A `match` on the opcode: its arms in order, and the default.
unfoldable pub dispatch : List (ℕ × Action) → ℕ → Action → Action
dispatch [] opcode otherwise m = otherwise m
dispatch ((key, act) ∷ arms) opcode otherwise m =
    if opcode == key then act m else dispatch arms opcode otherwise m

-- A change of the registers alone.
unfoldable pub on_registers : (CpuRegisters → CpuRegisters) → ℕ → Action
on_registers g cycles m = (with_registers m (g m.cpu.registers), cycles)

abbrev pub at_hl : Machine → ℕ
at_hl m = read_byte m.mmu (get_hl m.cpu.registers)
