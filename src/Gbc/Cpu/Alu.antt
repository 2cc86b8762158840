-- ===== src/Gbc/Cpu/Alu.antt =====
-- gbc/cpu.rs: the arithmetic and logic of the accumulator, of `HL` and of the flags.
use emulator_app.Base.{
  ℕ, ◌+◌, ◌-◌, Bool, true, false, not, ◌||◌, ltb, ◌==◌, ◌!=◌, if◌then◌else◌, bit_and, bit_or,
  bit_xor, u8, u16, ◌<<◌, ◌>>◌,
}
use emulator_app.Gbc.Cpu.Registers.{
  CpuRegisters, flag_z, flag_n, flag_h, flag_c, get_hl, set_hl, get_flag, set_flag, bit_of,
}

-- The carry that an operation takes in.
abbrev pub carry_in : CpuRegisters → Bool → ℕ
carry_in r use_carry = if use_carry then bit_of (get_flag r flag_c) else 0

unfoldable pub alu_add : Bool → CpuRegisters → ℕ → CpuRegisters
alu_add use_carry r val =
    let carry = carry_in r use_carry in
    let res = u16 (r.a + val + carry) in
    let r0 : CpuRegisters = record r { f = 0 } in
    let r1 = set_flag r0 flag_z (bit_and res 0xFF == 0) in
    let r2 = set_flag r1 flag_h (ltb 0x0F (bit_and r.a 0x0F + bit_and val 0x0F + carry)) in
    let r3 = set_flag r2 flag_c (ltb 0xFF res) in record r3 { a = u8 res }

unfoldable pub alu_sub : Bool → CpuRegisters → ℕ → CpuRegisters
alu_sub use_carry r val =
    let carry = carry_in r use_carry in
    let res = u16 (u16 (r.a + 65536 - val) + 65536 - carry) in
    let r0 : CpuRegisters = record r { f = flag_n } in
    let r1 = set_flag r0 flag_z (bit_and res 0xFF == 0) in
    let r2 = set_flag r1 flag_h (ltb (bit_and r.a 0x0F) (bit_and val 0x0F + carry)) in
    let r3 = set_flag r2 flag_c (ltb r.a (val + carry)) in record r3 { a = u8 res }

unfoldable pub alu_and : CpuRegisters → ℕ → CpuRegisters
alu_and r val =
    let res = bit_and r.a val in set_flag (record r { a = res; f = flag_h }) flag_z (res == 0)

unfoldable pub alu_xor : CpuRegisters → ℕ → CpuRegisters
alu_xor r val =
    let res = bit_xor r.a val in set_flag (record r { a = res; f = 0 }) flag_z (res == 0)

unfoldable pub alu_or : CpuRegisters → ℕ → CpuRegisters
alu_or r val = let res = bit_or r.a val in set_flag (record r { a = res; f = 0 }) flag_z (res == 0)

unfoldable pub alu_cp : CpuRegisters → ℕ → CpuRegisters
alu_cp r val =
    let r0 : CpuRegisters = record r { f = flag_n } in
    let r1 = set_flag r0 flag_z (r.a == val) in
    let r2 = set_flag r1 flag_h (ltb (bit_and r.a 0x0F) (bit_and val 0x0F)) in
    set_flag r2 flag_c (ltb r.a val)

abbrev pub inc_value : ℕ → ℕ
inc_value val = u8 (val + 1)

abbrev pub dec_value : ℕ → ℕ
dec_value val = u8 (val + 255)

-- The flags of `alu_inc` and `alu_dec`; what they return is `inc_value` and `dec_value`.
unfoldable pub alu_inc : CpuRegisters → ℕ → CpuRegisters
alu_inc r val =
    let r1 = set_flag r flag_n false in
    let r2 = set_flag r1 flag_z (inc_value val == 0) in
    set_flag r2 flag_h (bit_and val 0x0F == 0x0F)

unfoldable pub alu_dec : CpuRegisters → ℕ → CpuRegisters
alu_dec r val =
    let r1 = set_flag r flag_n true in
    let r2 = set_flag r1 flag_z (dec_value val == 0) in
    set_flag r2 flag_h (bit_and val 0x0F == 0x00)

unfoldable pub alu_add_hl : CpuRegisters → ℕ → CpuRegisters
alu_add_hl r val =
    let hl = get_hl r in
    let r1 = set_flag r flag_n false in
    let r2 = set_flag r1 flag_h (ltb 0x0FFF (bit_and hl 0x0FFF + bit_and val 0x0FFF)) in
    let r3 = set_flag r2 flag_c (ltb 0xFFFF (hl + val)) in set_hl r3 (u16 (hl + val))

-- A rotate of the accumulator: what comes in at the free end, and the bit that goes out.
unfoldable pub rotate_left : CpuRegisters → ℕ → CpuRegisters
rotate_left r low =
    let bit7 = bit_and r.a 0x80 != 0 in
    set_flag (record r { a = bit_or (u8 (r.a << 1)) low; f = 0 }) flag_c bit7

unfoldable pub rotate_right : CpuRegisters → ℕ → CpuRegisters
rotate_right r high =
    let bit0 = bit_and r.a 0x01 != 0 in
    set_flag (record r { a = bit_or (r.a >> 1) (u8 (high << 7)); f = 0 }) flag_c bit0

abbrev pub rlca : CpuRegisters → CpuRegisters
rlca r = rotate_left r (bit_of (bit_and r.a 0x80 != 0))

abbrev pub rla : CpuRegisters → CpuRegisters
rla r = rotate_left r (bit_of (get_flag r flag_c))

abbrev pub rrca : CpuRegisters → CpuRegisters
rrca r = rotate_right r (bit_of (bit_and r.a 0x01 != 0))

abbrev pub rra : CpuRegisters → CpuRegisters
rra r = rotate_right r (bit_of (get_flag r flag_c))

-- `a` as a `u16` after the two corrections of DAA, and the carry flag that they set.
unfoldable pub daa_add : CpuRegisters → ℕ × Bool
daa_add r =
    let low = if get_flag r flag_h || ltb 9 (bit_and r.a 0x0F) then r.a + 0x06 else r.a in
    if get_flag r flag_c || ltb 0x9F low then (low + 0x60, true) else (low, get_flag r flag_c)

unfoldable pub daa_sub : CpuRegisters → ℕ
daa_sub r =
    let low = if get_flag r flag_h then bit_and (u16 (r.a + 65536 - 6)) 0xFF else r.a in
    if get_flag r flag_c then u16 (low + 65536 - 0x60) else low

unfoldable pub daa : CpuRegisters → CpuRegisters
unfolding daa_add daa_sub
daa r =
    let (up, carried) = daa_add r in
    let r1 = if carried then set_flag r flag_c true else r in
    let s : CpuRegisters =
      if not (get_flag r flag_n)
      then record r1 { a = u8 up }
      else record r { a = u8 (daa_sub r) } in
    set_flag (set_flag s flag_z (s.a == 0)) flag_h false

unfoldable pub cpl : CpuRegisters → CpuRegisters
cpl r = set_flag (set_flag (record r { a = 255 - r.a }) flag_n true) flag_h true

unfoldable pub scf : CpuRegisters → CpuRegisters
scf r = set_flag (set_flag (set_flag r flag_n false) flag_h false) flag_c true

unfoldable pub ccf : CpuRegisters → CpuRegisters
ccf r =
    let carry = get_flag r flag_c in
    set_flag (set_flag (set_flag r flag_n false) flag_h false) flag_c (not carry)

-- An `i8` with the bits of a byte, as a `u16`.
abbrev pub sign_extend : ℕ → ℕ
sign_extend offset = if ltb offset 128 then offset else offset + 0xFF00

-- The flags of LD HL, SP+e8 and of ADD SP, e8, from the low byte of `sp` and the bits of the offset.
unfoldable pub offset_flags : CpuRegisters → ℕ → ℕ → CpuRegisters
offset_flags r sp offset =
    let low = bit_and sp 0xFF in
    let r1 = set_flag (set_flag r flag_z false) flag_n false in
    let r2 = set_flag r1 flag_h (ltb 0x0F (bit_and low 0x0F + bit_and offset 0x0F)) in
    set_flag r2 flag_c (ltb 0xFF (low + offset))

unfoldable pub ld_hl_sp : CpuRegisters → ℕ → CpuRegisters
unfolding offset_flags
ld_hl_sp r offset =
    let r1 = set_hl r (u16 (r.sp + sign_extend offset)) in offset_flags r1 r1.sp offset

-- The flags are taken from the stack pointer as it is after the addition.
unfoldable pub add_sp : CpuRegisters → ℕ → CpuRegisters
unfolding offset_flags
add_sp r offset =
    let r1 : CpuRegisters = record r { sp = u16 (r.sp + sign_extend offset) } in
    offset_flags r1 r1.sp offset
