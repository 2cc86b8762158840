-- ===== src/Gbc/Cpu/Opcodes/Loads.antt =====
-- gbc/cpu.rs: the arms of `execute_opcode` for loads, stores, pushes and pops, in its order.
use emulator_app.Base.{ℕ, List, [], ◌∷◌}
use emulator_app.Gbc.Cpu.Actions.{Action}
use emulator_app.Gbc.Cpu.Operands.{R8, R16}
use emulator_app.Gbc.Cpu.Actions.Loads.{
  load_immediate_16, push, pop, load_immediate, store_immediate, copy, load_hl, store_hl, store_a,
  load_a, store_a_absolute, load_a_absolute, store_a_high, load_a_high, store_a_c, load_a_c,
  store_a_step, load_a_step,
}

unfoldable pub wide_loads : List (ℕ × Action)
wide_loads =
    (0x00, λ m. (m, 4))
    ∷ (0x01, load_immediate_16 R16.bc)
    ∷ (0x11, load_immediate_16 R16.de)
    ∷ (0x21, load_immediate_16 R16.hl)
    ∷ (0x31, load_immediate_16 R16.sp)
    ∷ (0xC5, push R16.bc)
    ∷ (0xD5, push R16.de)
    ∷ (0xE5, push R16.hl)
    ∷ (0xF5, push R16.af)
    ∷ (0xC1, pop R16.bc)
    ∷ (0xD1, pop R16.de)
    ∷ (0xE1, pop R16.hl)
    ∷ (0xF1, pop R16.af)
    ∷ []

unfoldable pub immediate_loads : List (ℕ × Action)
immediate_loads =
    (0x06, load_immediate R8.b)
    ∷ (0x0E, load_immediate R8.c)
    ∷ (0x16, load_immediate R8.d)
    ∷ (0x1E, load_immediate R8.e)
    ∷ (0x26, load_immediate R8.h)
    ∷ (0x2E, load_immediate R8.l)
    ∷ (0x3E, load_immediate R8.a)
    ∷ (0x36, store_immediate)
    ∷ []

unfoldable pub copies_a_b_c : List (ℕ × Action)
copies_a_b_c =
    (0x7F, copy R8.a R8.a)
    ∷ (0x78, copy R8.a R8.b)
    ∷ (0x79, copy R8.a R8.c)
    ∷ (0x7A, copy R8.a R8.d)
    ∷ (0x7B, copy R8.a R8.e)
    ∷ (0x7C, copy R8.a R8.h)
    ∷ (0x7D, copy R8.a R8.l)
    ∷ (0x7E, load_hl R8.a)
    ∷ (0x40, copy R8.b R8.b)
    ∷ (0x41, copy R8.b R8.c)
    ∷ (0x42, copy R8.b R8.d)
    ∷ (0x43, copy R8.b R8.e)
    ∷ (0x44, copy R8.b R8.h)
    ∷ (0x45, copy R8.b R8.l)
    ∷ (0x46, load_hl R8.b)
    ∷ (0x48, copy R8.c R8.b)
    ∷ (0x49, copy R8.c R8.c)
    ∷ (0x4A, copy R8.c R8.d)
    ∷ (0x4B, copy R8.c R8.e)
    ∷ (0x4C, copy R8.c R8.h)
    ∷ (0x4D, copy R8.c R8.l)
    ∷ (0x4E, load_hl R8.c)
    ∷ []

unfoldable pub copies_d_e_h_l : List (ℕ × Action)
copies_d_e_h_l =
    (0x50, copy R8.d R8.b)
    ∷ (0x51, copy R8.d R8.c)
    ∷ (0x52, copy R8.d R8.d)
    ∷ (0x53, copy R8.d R8.e)
    ∷ (0x54, copy R8.d R8.h)
    ∷ (0x55, copy R8.d R8.l)
    ∷ (0x56, load_hl R8.d)
    ∷ (0x58, copy R8.e R8.b)
    ∷ (0x59, copy R8.e R8.c)
    ∷ (0x5A, copy R8.e R8.d)
    ∷ (0x5B, copy R8.e R8.e)
    ∷ (0x5C, copy R8.e R8.h)
    ∷ (0x5D, copy R8.e R8.l)
    ∷ (0x5E, load_hl R8.e)
    ∷ (0x60, copy R8.h R8.b)
    ∷ (0x61, copy R8.h R8.c)
    ∷ (0x62, copy R8.h R8.d)
    ∷ (0x63, copy R8.h R8.e)
    ∷ (0x64, copy R8.h R8.h)
    ∷ (0x65, copy R8.h R8.l)
    ∷ (0x66, load_hl R8.h)
    ∷ (0x68, copy R8.l R8.b)
    ∷ (0x69, copy R8.l R8.c)
    ∷ (0x6A, copy R8.l R8.d)
    ∷ (0x6B, copy R8.l R8.e)
    ∷ (0x6C, copy R8.l R8.h)
    ∷ (0x6D, copy R8.l R8.l)
    ∷ (0x6E, load_hl R8.l)
    ∷ []

unfoldable pub stores_and_copies_of_a : List (ℕ × Action)
stores_and_copies_of_a =
    (0x70, store_hl R8.b)
    ∷ (0x71, store_hl R8.c)
    ∷ (0x72, store_hl R8.d)
    ∷ (0x73, store_hl R8.e)
    ∷ (0x74, store_hl R8.h)
    ∷ (0x75, store_hl R8.l)
    ∷ (0x77, store_hl R8.a)
    ∷ (0x47, copy R8.b R8.a)
    ∷ (0x4F, copy R8.c R8.a)
    ∷ (0x57, copy R8.d R8.a)
    ∷ (0x5F, copy R8.e R8.a)
    ∷ (0x67, copy R8.h R8.a)
    ∷ (0x6F, copy R8.l R8.a)
    ∷ []

unfoldable pub memory_loads : List (ℕ × Action)
memory_loads =
    (0x02, store_a R16.bc)
    ∷ (0x12, store_a R16.de)
    ∷ (0x0A, load_a R16.bc)
    ∷ (0x1A, load_a R16.de)
    ∷ (0xEA, store_a_absolute)
    ∷ (0xFA, load_a_absolute)
    ∷ (0xE0, store_a_high)
    ∷ (0xF0, load_a_high)
    ∷ (0xE2, store_a_c)
    ∷ (0xF2, load_a_c)
    ∷ (0x22, store_a_step 1)
    ∷ (0x32, store_a_step 65535)
    ∷ (0x2A, load_a_step 1)
    ∷ (0x3A, load_a_step 65535)
    ∷ []
