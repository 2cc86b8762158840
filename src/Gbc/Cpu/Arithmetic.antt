-- ===== src/Gbc/Cpu/Arithmetic.antt =====
-- The accumulator's arithmetic of gbc/cpu.rs as arithmetic on numbers: single bytes, multi-byte
-- chains through the carry flag, and decimal digits through DAA.
use emulator_app.Base.{
  ℕ, ◌+◌, ◌-◌, ◌%◌, ◌≤◌, ◌<◌, ◌≡◌, Bool, true, false, ◌==◌, ltb, arith, bit_and_low,
}
use emulator_app.Gbc.Cpu.Registers.{CpuRegisters, put_flag}
use emulator_app.Gbc.Cpu.Alu.{carry_in, alu_add, alu_sub}
use emulator_app.Gbc.Cpu.Flags.{flags}

-- The registers after an addition, with the sum written as one number.
pub alu_add_lem :
    (use_carry : Bool) (r : CpuRegisters) (val : ℕ)
    → r.a < 256
    → val < 256
    → let c = carry_in r use_carry in
      let s = r.a + val + c in
      alu_add use_carry r val ≡ record r {
        a = s % 256;
        f = flags (s % 256 == 0) false (ltb 15 (r.a % 16 + val % 16 + c)) (ltb 255 s);
      }
unfolding alu_add put_flag
alu_add_lem use_carry r val ha hv =
    let c = carry_in r use_carry in
    let s = r.a + val + c in
    let small : c ≤ 1 = ground arith in
    ground (arith, bit_and_low 8 (s % 65536), bit_and_low 4 r.a, bit_and_low 4 val)

pub alu_sub_lem :
    (use_carry : Bool) (r : CpuRegisters) (val : ℕ)
    → r.a < 256
    → val < 256
    → let c = carry_in r use_carry in
      let d = r.a + 512 - val - c in
      alu_sub use_carry r val ≡ record r {
        a = d % 256;
        f = flags (d % 256 == 0) true (ltb (r.a % 16) (val % 16 + c)) (ltb r.a (val + c));
      }
unfolding alu_sub put_flag
alu_sub_lem use_carry r val ha hv =
    let c = carry_in r use_carry in
    let w = ((r.a + 65536 - val) % 65536 + 65536 - c) % 65536 in
    let small : c ≤ 1 = ground arith in
    ground (arith, bit_and_low 8 w, bit_and_low 4 r.a, bit_and_low 4 val)
