-- ===== src/Gbc/Cpu/Opcodes/Arithmetic.antt =====
-- gbc/cpu.rs: the arms of `execute_opcode` for arithmetic and logic, in its order. JR NC stands among
-- the decrements in the source.
use emulator_app.Base.{ℕ, true, false, List, [], ◌∷◌}
use emulator_app.Gbc.Cpu.Actions.{Action, on_registers}
use emulator_app.Gbc.Cpu.Operands.{R8, R16}
use emulator_app.Gbc.Cpu.Alu.{
  alu_add, alu_sub, alu_and, alu_xor, alu_or, alu_cp, rlca, rla, rrca, rra,
}
use emulator_app.Gbc.Cpu.Actions.Arithmetic.{
  alu_register, alu_hl, alu_immediate, inc_r8, dec_r8, inc_hl, dec_hl, add_hl, step_r16,
}
use emulator_app.Gbc.Cpu.Actions.Control.{nc, jump_relative_if}

unfoldable pub additions : List (ℕ × Action)
additions =
    (0x87, alu_register (alu_add false) R8.a)
    ∷ (0x80, alu_register (alu_add false) R8.b)
    ∷ (0x81, alu_register (alu_add false) R8.c)
    ∷ (0x82, alu_register (alu_add false) R8.d)
    ∷ (0x83, alu_register (alu_add false) R8.e)
    ∷ (0x84, alu_register (alu_add false) R8.h)
    ∷ (0x85, alu_register (alu_add false) R8.l)
    ∷ (0x86, alu_hl (alu_add false))
    ∷ (0xC6, alu_immediate (alu_add false))
    ∷ (0x8F, alu_register (alu_add true) R8.a)
    ∷ (0x88, alu_register (alu_add true) R8.b)
    ∷ (0x89, alu_register (alu_add true) R8.c)
    ∷ (0x8A, alu_register (alu_add true) R8.d)
    ∷ (0x8B, alu_register (alu_add true) R8.e)
    ∷ (0x8C, alu_register (alu_add true) R8.h)
    ∷ (0x8D, alu_register (alu_add true) R8.l)
    ∷ (0x8E, alu_hl (alu_add true))
    ∷ (0xCE, alu_immediate (alu_add true))
    ∷ []

unfoldable pub subtractions : List (ℕ × Action)
subtractions =
    (0x97, alu_register (alu_sub false) R8.a)
    ∷ (0x90, alu_register (alu_sub false) R8.b)
    ∷ (0x91, alu_register (alu_sub false) R8.c)
    ∷ (0x92, alu_register (alu_sub false) R8.d)
    ∷ (0x93, alu_register (alu_sub false) R8.e)
    ∷ (0x94, alu_register (alu_sub false) R8.h)
    ∷ (0x95, alu_register (alu_sub false) R8.l)
    ∷ (0x96, alu_hl (alu_sub false))
    ∷ (0xD6, alu_immediate (alu_sub false))
    ∷ (0x9F, alu_register (alu_sub true) R8.a)
    ∷ (0x98, alu_register (alu_sub true) R8.b)
    ∷ (0x99, alu_register (alu_sub true) R8.c)
    ∷ (0x9A, alu_register (alu_sub true) R8.d)
    ∷ (0x9B, alu_register (alu_sub true) R8.e)
    ∷ (0x9C, alu_register (alu_sub true) R8.h)
    ∷ (0x9D, alu_register (alu_sub true) R8.l)
    ∷ (0x9E, alu_hl (alu_sub true))
    ∷ (0xDE, alu_immediate (alu_sub true))
    ∷ []

unfoldable pub ands_and_xors : List (ℕ × Action)
ands_and_xors =
    (0xA7, alu_register alu_and R8.a)
    ∷ (0xA0, alu_register alu_and R8.b)
    ∷ (0xA1, alu_register alu_and R8.c)
    ∷ (0xA2, alu_register alu_and R8.d)
    ∷ (0xA3, alu_register alu_and R8.e)
    ∷ (0xA4, alu_register alu_and R8.h)
    ∷ (0xA5, alu_register alu_and R8.l)
    ∷ (0xA6, alu_hl alu_and)
    ∷ (0xE6, alu_immediate alu_and)
    ∷ (0xAF, alu_register alu_xor R8.a)
    ∷ (0xA8, alu_register alu_xor R8.b)
    ∷ (0xA9, alu_register alu_xor R8.c)
    ∷ (0xAA, alu_register alu_xor R8.d)
    ∷ (0xAB, alu_register alu_xor R8.e)
    ∷ (0xAC, alu_register alu_xor R8.h)
    ∷ (0xAD, alu_register alu_xor R8.l)
    ∷ (0xAE, alu_hl alu_xor)
    ∷ (0xEE, alu_immediate alu_xor)
    ∷ []

unfoldable pub ors_and_compares : List (ℕ × Action)
ors_and_compares =
    (0xB7, alu_register alu_or R8.a)
    ∷ (0xB0, alu_register alu_or R8.b)
    ∷ (0xB1, alu_register alu_or R8.c)
    ∷ (0xB2, alu_register alu_or R8.d)
    ∷ (0xB3, alu_register alu_or R8.e)
    ∷ (0xB4, alu_register alu_or R8.h)
    ∷ (0xB5, alu_register alu_or R8.l)
    ∷ (0xB6, alu_hl alu_or)
    ∷ (0xF6, alu_immediate alu_or)
    ∷ (0xBF, alu_register alu_cp R8.a)
    ∷ (0xB8, alu_register alu_cp R8.b)
    ∷ (0xB9, alu_register alu_cp R8.c)
    ∷ (0xBA, alu_register alu_cp R8.d)
    ∷ (0xBB, alu_register alu_cp R8.e)
    ∷ (0xBC, alu_register alu_cp R8.h)
    ∷ (0xBD, alu_register alu_cp R8.l)
    ∷ (0xBE, alu_hl alu_cp)
    ∷ (0xFE, alu_immediate alu_cp)
    ∷ []

unfoldable pub increments : List (ℕ × Action)
increments =
    (0x3C, inc_r8 R8.a)
    ∷ (0x04, inc_r8 R8.b)
    ∷ (0x0C, inc_r8 R8.c)
    ∷ (0x14, inc_r8 R8.d)
    ∷ (0x1C, inc_r8 R8.e)
    ∷ (0x24, inc_r8 R8.h)
    ∷ (0x2C, inc_r8 R8.l)
    ∷ (0x34, inc_hl)
    ∷ []

unfoldable pub decrements : List (ℕ × Action)
decrements =
    (0x3D, dec_r8 R8.a)
    ∷ (0x05, dec_r8 R8.b)
    ∷ (0x0D, dec_r8 R8.c)
    ∷ (0x15, dec_r8 R8.d)
    ∷ (0x1D, dec_r8 R8.e)
    ∷ (0x25, dec_r8 R8.h)
    ∷ (0x2D, dec_r8 R8.l)
    ∷ (0x30, jump_relative_if nc)
    ∷ (0x35, dec_hl)
    ∷ []

unfoldable pub wide_arithmetic : List (ℕ × Action)
wide_arithmetic =
    (0x09, add_hl R16.bc)
    ∷ (0x19, add_hl R16.de)
    ∷ (0x29, add_hl R16.hl)
    ∷ (0x39, add_hl R16.sp)
    ∷ (0x03, step_r16 R16.bc 1)
    ∷ (0x13, step_r16 R16.de 1)
    ∷ (0x23, step_r16 R16.hl 1)
    ∷ (0x33, step_r16 R16.sp 1)
    ∷ (0x0B, step_r16 R16.bc 65535)
    ∷ (0x1B, step_r16 R16.de 65535)
    ∷ (0x2B, step_r16 R16.hl 65535)
    ∷ (0x3B, step_r16 R16.sp 65535)
    ∷ []

unfoldable pub rotates : List (ℕ × Action)
rotates =
    (0x07, on_registers rlca 4)
    ∷ (0x17, on_registers rla 4)
    ∷ (0x0F, on_registers rrca 4)
    ∷ (0x1F, on_registers rra 4)
    ∷ []
