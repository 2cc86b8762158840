-- ===== src/Gbc/Cpu/Operands.antt =====
-- gbc/cpu.rs: the register operands that the opcodes name.
use emulator_app.Base.{ℕ}
use emulator_app.Gbc.Cpu.Registers.{
  CpuRegisters, get_af, set_af, get_bc, set_bc, get_de, set_de, get_hl, set_hl,
}

pub data R8 : Type 0 where
  a b c d e h l : R8

pub data R16 : Type 0 where
  af bc de hl sp : R16

abbrev pub get_r8 : R8 → CpuRegisters → ℕ
get_r8 R8.a r = r.a
get_r8 R8.b r = r.b
get_r8 R8.c r = r.c
get_r8 R8.d r = r.d
get_r8 R8.e r = r.e
get_r8 R8.h r = r.h
get_r8 R8.l r = r.l

abbrev pub set_r8 : R8 → CpuRegisters → ℕ → CpuRegisters
set_r8 R8.a r val = record r { a = val }
set_r8 R8.b r val = record r { b = val }
set_r8 R8.c r val = record r { c = val }
set_r8 R8.d r val = record r { d = val }
set_r8 R8.e r val = record r { e = val }
set_r8 R8.h r val = record r { h = val }
set_r8 R8.l r val = record r { l = val }

abbrev pub get_r16 : R16 → CpuRegisters → ℕ
get_r16 R16.af r = get_af r
get_r16 R16.bc r = get_bc r
get_r16 R16.de r = get_de r
get_r16 R16.hl r = get_hl r
get_r16 R16.sp r = r.sp

abbrev pub set_r16 : R16 → CpuRegisters → ℕ → CpuRegisters
set_r16 R16.af r val = set_af r val
set_r16 R16.bc r val = set_bc r val
set_r16 R16.de r val = set_de r val
set_r16 R16.hl r val = set_hl r val
set_r16 R16.sp r val = record r { sp = val }
