-- ===== src/Gbc/Cpu/Opcodes/Control.antt =====
-- gbc/cpu.rs: the arms of `execute_opcode` for jumps, calls, the flags and the processor, in its
-- order, and the instructions behind the prefix 0xCB.
use emulator_app.Base.{ℕ, List, [], ◌∷◌}
use emulator_app.Gbc.Cpu.Actions.{Action, on_registers}
use emulator_app.Gbc.Cpu.Registers.{get_hl}
use emulator_app.Gbc.Cpu.State.{with_pc}
use emulator_app.Gbc.Cpu.Alu.{daa, cpl, scf, ccf, ld_hl_sp, add_sp}
use emulator_app.Gbc.Cpu.Cb.{prefix_cb}
use emulator_app.Gbc.Cpu.Actions.Control.{
  nz, zr, nc, cy, jump, jump_if, jump_relative, jump_relative_if, call, call_if, ret, ret_if, reti,
  restart, disable_interrupts, enable_interrupts, halt, stop, with_offset, store_sp,
}

unfoldable pub jumps : List (ℕ × Action)
jumps =
    (0xC3, jump)
    ∷ (0xC2, jump_if nz)
    ∷ (0xCA, jump_if zr)
    ∷ (0xD2, jump_if nc)
    ∷ (0xDA, jump_if cy)
    ∷ (0xE9, λ m. (with_pc m (get_hl m.cpu.registers), 4))
    ∷ (0x18, jump_relative)
    ∷ (0x20, jump_relative_if nz)
    ∷ (0x28, jump_relative_if zr)
    ∷ (0x38, jump_relative_if cy)
    ∷ []

unfoldable pub calls : List (ℕ × Action)
calls =
    (0xCD, call)
    ∷ (0xC4, call_if nz)
    ∷ (0xCC, call_if zr)
    ∷ (0xD4, call_if nc)
    ∷ (0xDC, call_if cy)
    ∷ (0xC9, ret)
    ∷ (0xC0, ret_if nz)
    ∷ (0xC8, ret_if zr)
    ∷ (0xD0, ret_if nc)
    ∷ (0xD8, ret_if cy)
    ∷ (0xD9, reti)
    ∷ []

unfoldable pub restarts : List (ℕ × Action)
restarts =
    (0xC7, restart 0x00)
    ∷ (0xCF, restart 0x08)
    ∷ (0xD7, restart 0x10)
    ∷ (0xDF, restart 0x18)
    ∷ (0xE7, restart 0x20)
    ∷ (0xEF, restart 0x28)
    ∷ (0xF7, restart 0x30)
    ∷ (0xFF, restart 0x38)
    ∷ []

unfoldable pub control : List (ℕ × Action)
control =
    (0xCB, prefix_cb)
    ∷ (0xF3, disable_interrupts)
    ∷ (0xFB, enable_interrupts)
    ∷ (0x76, halt)
    ∷ (0x10, stop)
    ∷ []

unfoldable pub adjustments : List (ℕ × Action)
adjustments =
    (0x27, on_registers daa 4)
    ∷ (0x2F, on_registers cpl 4)
    ∷ (0x37, on_registers scf 4)
    ∷ (0x3F, on_registers ccf 4)
    ∷ []

unfoldable pub stack_arithmetic : List (ℕ × Action)
stack_arithmetic =
    (0xF8, with_offset ld_hl_sp 12)
    ∷ (0xF9, on_registers (λ r. record r { sp = get_hl r }) 8)
    ∷ (0xE8, with_offset add_sp 16)
    ∷ (0x08, store_sp)
    ∷ []
