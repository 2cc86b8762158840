-- ===== src/Gbc/Cpu/Actions/Arithmetic.antt =====
-- gbc/cpu.rs: the arithmetic on 8 and 16 bits, with its operands.
use emulator_app.Base.{ℕ, ◌+◌, u16}
use emulator_app.Gbc.Cpu.Registers.{CpuRegisters, get_hl}
use emulator_app.Gbc.Cpu.Alu.{inc_value, dec_value, alu_inc, alu_dec, alu_add_hl}
use emulator_app.Gbc.Cpu.Operands.{R8, R16, get_r8, set_r8, get_r16, set_r16}
use emulator_app.Gbc.Cpu.State.{with_registers, write, read_immediate_u8}
use emulator_app.Gbc.Cpu.Actions.{Action, on_registers, at_hl}

-- An operation on the accumulator and a register, the byte at `HL`, or an immediate byte.
unfoldable pub alu_register : (CpuRegisters → ℕ → CpuRegisters) → R8 → Action
alu_register op src m = (with_registers m (op m.cpu.registers (get_r8 src m.cpu.registers)), 4)

unfoldable pub alu_hl : (CpuRegisters → ℕ → CpuRegisters) → Action
alu_hl op m = (with_registers m (op m.cpu.registers (at_hl m)), 8)

unfoldable pub alu_immediate : (CpuRegisters → ℕ → CpuRegisters) → Action
alu_immediate op m =
    let (m1, val) = read_immediate_u8 m in (with_registers m1 (op m1.cpu.registers val), 8)

unfoldable pub inc_r8 : R8 → Action
inc_r8 reg m =
    let val = get_r8 reg m.cpu.registers in
    (with_registers m (set_r8 reg (alu_inc m.cpu.registers val) (inc_value val)), 4)

unfoldable pub dec_r8 : R8 → Action
dec_r8 reg m =
    let val = get_r8 reg m.cpu.registers in
    (with_registers m (set_r8 reg (alu_dec m.cpu.registers val) (dec_value val)), 4)

unfoldable pub inc_hl : Action
inc_hl m =
    let val = at_hl m in
    let m1 = with_registers m (alu_inc m.cpu.registers val) in
    (write m1 (get_hl m.cpu.registers) (inc_value val), 12)

unfoldable pub dec_hl : Action
dec_hl m =
    let val = at_hl m in
    let m1 = with_registers m (alu_dec m.cpu.registers val) in
    (write m1 (get_hl m.cpu.registers) (dec_value val), 12)

unfoldable pub add_hl : R16 → Action
add_hl src = on_registers (λ r. alu_add_hl r (get_r16 src r)) 8

unfoldable pub step_r16 : R16 → ℕ → Action
step_r16 reg step = on_registers (λ r. set_r16 reg r (u16 (get_r16 reg r + step))) 8
