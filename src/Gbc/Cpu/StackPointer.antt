-- ===== src/Gbc/Cpu/StackPointer.antt =====
-- The two instructions of gbc/cpu.rs that add a signed byte to the stack pointer, and their flags.
use emulator_app.Base.{
  ℕ, ◌+◌, ◌*◌, ◌%◌, ◌<◌, ◌≡◌, refl, ap, ◌∙◌, Bool, false, ltb, arith, bit_and, bit_and_low, u16,
}
use emulator_app.Gbc.Cpu.Registers.{CpuRegisters, flag_z, flag_n, flag_h, flag_c, set_hl, put_flag}
use emulator_app.Gbc.Cpu.Flags.{flags, bit_at, flags_lem, put_flag_lem}
use emulator_app.Gbc.Cpu.Alu.{sign_extend, offset_flags, ld_hl_sp, add_sp}

-- The carries out of bits 3 and 7 of a sum of two bytes.
abbrev pub carries : ℕ → ℕ → ℕ
carries x y = flags false false (ltb 15 (x % 16 + y % 16)) (ltb 255 (x % 256 + y))

put_flags :
    (f : ℕ) (h c : Bool)
    → f < 256
    → f % 16 ≡ 0
    → put_flag (put_flag (put_flag (put_flag f flag_z false) flag_n false) flag_h h) flag_c c
      ≡ flags false false h c
put_flags f h c fits low =
    let z : Bool = bit_at f 7 in
    let n : Bool = bit_at f 6 in
    let was_h : Bool = bit_at f 5 in
    let was_c : Bool = bit_at f 4 in
    let first = put_flag_lem z n was_h was_c false in
    let second = put_flag_lem false n was_h was_c false in
    let third = put_flag_lem false false was_h was_c h in
    let fourth = put_flag_lem false false h was_c c in
    ap
      (λ x. put_flag (put_flag (put_flag (put_flag x flag_z false) flag_n false) flag_h h) flag_c c)
      (flags_lem f fits low)
    ∙ rw (first.0, second.1, third.2, fourth.3) refl

offset_flags_lem :
    (r : CpuRegisters) (sp offset : ℕ)
    → r.f < 256
    → r.f % 16 ≡ 0
    → offset < 256
    → (offset_flags r sp offset).f ≡ carries sp offset
unfolding offset_flags
offset_flags_lem r sp offset fits low small =
    let h = ltb 15 (sp % 16 + offset % 16) in
    let low_byte : bit_and sp 255 ≡ sp % 256 = bit_and_low 8 sp in
    let digit : bit_and (bit_and sp 255) 15 ≡ sp % 16 =
      omega (arith, low_byte, bit_and_low 4 (bit_and sp 255)) in
    let digit' : bit_and offset 15 ≡ offset % 16 = bit_and_low 4 offset in
    rw (digit, digit', low_byte) (put_flags r.f h (ltb 255 (sp % 256 + offset)) fits low)

-- ADD SP, e8 and LD HL, SP+e8 compute the same sum, but LD HL, SP+e8 reports the carries of adding the
-- offset to the low byte of the stack pointer, and ADD SP, e8 the carries of adding it to the low
-- byte of the sum; Z and N are off in both.
pub add_sp-ld_hl_sp :
    (r : CpuRegisters) (offset : ℕ)
    → r.f < 256
    → r.f % 16 ≡ 0
    → offset < 256
    → let sum = u16 (r.sp + sign_extend offset) in
      ((add_sp r offset).sp ≡ sum)
      × ((ld_hl_sp r offset).h * 256 + (ld_hl_sp r offset).l ≡ sum)
      × ((ld_hl_sp r offset).f ≡ carries r.sp offset)
      × ((add_sp r offset).f ≡ carries sum offset)
unfolding add_sp ld_hl_sp
add_sp-ld_hl_sp r offset fits low small =
    let sum = u16 (r.sp + sign_extend offset) in
    (
      refl,
      omega arith,
      offset_flags_lem (set_hl r sum) r.sp offset fits low small,
      offset_flags_lem (record r { sp = sum }) sum offset fits low small,
    )
