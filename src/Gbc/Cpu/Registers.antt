-- ===== src/Gbc/Cpu/Registers.antt =====
-- gbc/cpu.rs: `CpuRegisters`, the register file and the flag register of the LR35902.
use emulator_app.Base.{ℕ, ◌-◌, Bool, ◌!=◌, if◌then◌else◌, bit_and, bit_or, u8, ◌<<◌, ◌>>◌}

abbrev pub flag_z : ℕ
flag_z = 0x80

abbrev pub flag_n : ℕ
flag_n = 0x40

abbrev pub flag_h : ℕ
flag_h = 0x20

abbrev pub flag_c : ℕ
flag_c = 0x10

pub record CpuRegisters : Type 0 where
  pub a : ℕ
  pub f : ℕ
  pub b : ℕ
  pub c : ℕ
  pub d : ℕ
  pub e : ℕ
  pub h : ℕ
  pub l : ℕ
  pub sp : ℕ
  pub pc : ℕ

-- `((high as u16) << 8) | low`
abbrev pub word : ℕ → ℕ → ℕ
word high low = bit_or (high << 8) low

abbrev pub get_af : CpuRegisters → ℕ
get_af r = word r.a r.f

abbrev pub set_af : CpuRegisters → ℕ → CpuRegisters
set_af r val = record r { a = u8 (val >> 8); f = bit_and val 0xF0 }

abbrev pub get_bc : CpuRegisters → ℕ
get_bc r = word r.b r.c

abbrev pub set_bc : CpuRegisters → ℕ → CpuRegisters
set_bc r val = record r { b = u8 (val >> 8); c = u8 val }

abbrev pub get_de : CpuRegisters → ℕ
get_de r = word r.d r.e

abbrev pub set_de : CpuRegisters → ℕ → CpuRegisters
set_de r val = record r { d = u8 (val >> 8); e = u8 val }

abbrev pub get_hl : CpuRegisters → ℕ
get_hl r = word r.h r.l

abbrev pub set_hl : CpuRegisters → ℕ → CpuRegisters
set_hl r val = record r { h = u8 (val >> 8); l = u8 val }

abbrev pub get_flag : CpuRegisters → ℕ → Bool
get_flag r mask = bit_and r.f mask != 0

-- The new flag byte of `set_flag`; `!mask` is on a `u8`.
unfoldable pub put_flag : ℕ → ℕ → Bool → ℕ
put_flag f mask val = if val then bit_or f mask else bit_and f (255 - mask)

abbrev pub set_flag : CpuRegisters → ℕ → Bool → CpuRegisters
set_flag r mask val = record r { f = put_flag r.f mask val }

-- `flag as u8`
abbrev pub bit_of : Bool → ℕ
bit_of val = if val then 1 else 0
