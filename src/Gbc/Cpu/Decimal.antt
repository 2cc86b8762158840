-- ===== src/Gbc/Cpu/Decimal.antt =====
-- Decimal arithmetic of gbc/cpu.rs: an addition or subtraction of two-digit numbers, then DAA.
use emulator_app.Base.{
  ℕ, ◌+◌, ◌-◌, ◌*◌, ◌/◌, ◌%◌, ◌≤◌, ◌<◌, ◌≡◌, refl, ap, ◌∙◌, Bool, true, false, ◌||◌, ◌==◌, ltb,
  if◌then◌else◌, arith, bit_and_low,
}
use emulator_app.Gbc.Cpu.Registers.{CpuRegisters, get_flag, put_flag, flag_c, flag_z}
use emulator_app.Gbc.Cpu.Alu.{carry_in, alu_add, alu_sub, daa}
use emulator_app.Gbc.Cpu.Flags.{flags, get_flag_lem}
use emulator_app.Gbc.Cpu.Arithmetic.{alu_add_lem, alu_sub_lem}

-- Two decimal digits in a byte.
abbrev pub bcd : ℕ → ℕ
bcd n = n / 10 * 16 + n % 10

-- DAA on registers whose flags are known.
daa-flags :
    (r : CpuRegisters) (z n h c : Bool)
    → r.a < 256
    → r.f ≡ flags z n h c
    → let low = if h || ltb 9 (r.a % 16) then r.a + 6 else r.a in
      let up = if c || ltb 0x9F low then low + 0x60 else low in
      let down = if h then (r.a + 65536 - 6) % 256 else r.a in
      let res = if n then (if c then (down + 65536 - 0x60) % 65536 else down) % 256 else up % 256 in
      daa r
      ≡ record r { a = res; f = flags (res == 0) n false (if n then c else c || ltb 0x9F low) }
unfolding daa put_flag
daa-flags r z n h c ha e =
    ground
      (arith, get_flag_lem z n h c, bit_and_low 4 r.a, bit_and_low 8 ((r.a + 65536 - 6) % 65536))

digits_add :
    (a x y c : ℕ)
    → a ≡ bcd x
    → x < 100
    → y < 100
    → c ≤ 1
    → let s = a + bcd y + c in
      let low =
        if ltb 15 (a % 16 + bcd y % 16 + c) || ltb 9 (s % 256 % 16) then s % 256 + 6 else s % 256 in
      let up = if ltb 255 s || ltb 0x9F low then low + 0x60 else low in
      (up % 256 ≡ bcd ((x + y + c) % 100)) × ((ltb 255 s || ltb 0x9F low) ≡ ltb 99 (x + y + c))
digits_add a x y c e hx hy hc = ground arith

digits_sub :
    (a x y c : ℕ)
    → a ≡ bcd x
    → x < 100
    → y < 100
    → c ≤ 1
    → let d = (a + 512 - bcd y - c) % 256 in
      let down = if ltb (a % 16) (bcd y % 16 + c) then (d + 65536 - 6) % 256 else d in
      ((if ltb a (bcd y + c) then (down + 65536 - 0x60) % 65536 else down) % 256
        ≡ bcd ((x + 100 - y - c) % 100))
      × (ltb a (bcd y + c) ≡ ltb x (y + c))
digits_sub a x y c e hx hy hc = ground arith

bcd-zero : (n : ℕ) → n < 100 → (bcd n == 0) ≡ (n == 0)
bcd-zero n h = ground arith

-- What a known register file shows.
shown :
    (r r' : CpuRegisters) (v : ℕ) (n c : Bool)
    → r ≡ record r' { a = v; f = flags (v == 0) n false c }
    → (r.a ≡ v) × (get_flag r flag_c ≡ c) × (get_flag r flag_z ≡ (v == 0))
shown r r' v n c e =
    let got = get_flag_lem (v == 0) n false c in
    (ap (λ t. t.a) e, ap (λ t. get_flag t flag_c) e ∙ got.3, ap (λ t. get_flag t flag_z) e ∙ got.0)

-- ADD or ADC of two two-digit decimal numbers and then DAA gives the two low digits of their sum,
-- the carry flag is its hundred, and the zero flag is set exactly when both digits are 0.
pub daa-alu_add :
    (use_carry : Bool) (r : CpuRegisters) (x y : ℕ)
    → r.a ≡ bcd x
    → x < 100
    → y < 100
    → let sum = x + y + carry_in r use_carry in
      let after = daa (alu_add use_carry r (bcd y)) in
      (after.a ≡ bcd (sum % 100))
      × (get_flag after flag_c ≡ ltb 99 sum)
      × (get_flag after flag_z ≡ (sum % 100 == 0))
daa-alu_add use_carry r x y e hx hy =
    let c = carry_in r use_carry in
    let small : c ≤ 1 = ground arith in
    let s = r.a + bcd y + c in
    let h = ltb 15 (r.a % 16 + bcd y % 16 + c) in
    let r1 : CpuRegisters = record r {
      a = s % 256;
      f = flags (s % 256 == 0) false h (ltb 255 s);
    } in
    let low = if h || ltb 9 (s % 256 % 16) then s % 256 + 6 else s % 256 in
    let carried = ltb 255 s || ltb 0x9F low in
    let up = if carried then low + 0x60 else low in
    let known = digits_add r.a x y c e hx hy small in
    let got = shown (daa (alu_add use_carry r (bcd y))) r1 (up % 256) false carried (
      ap daa (alu_add_lem use_carry r (bcd y) (omega arith) (omega arith))
      ∙ daa-flags r1 (s % 256 == 0) false h (ltb 255 s) (omega arith) refl) in
    (
      got.0 ∙ known.0,
      got.1 ∙ known.1,
      got.2 ∙ ap (λ t. t == 0) known.0 ∙ bcd-zero ((x + y + c) % 100) (omega arith),
    )

-- SUB or SBC of two two-digit decimal numbers and then DAA gives the two digits of their difference,
-- taken from the next hundred where it is negative, which the carry flag tells.
pub daa-alu_sub :
    (use_carry : Bool) (r : CpuRegisters) (x y : ℕ)
    → r.a ≡ bcd x
    → x < 100
    → y < 100
    → let taken = y + carry_in r use_carry in
      let after = daa (alu_sub use_carry r (bcd y)) in
      (after.a ≡ bcd ((x + 100 - y - carry_in r use_carry) % 100))
      × (get_flag after flag_c ≡ ltb x taken)
daa-alu_sub use_carry r x y e hx hy =
    let c = carry_in r use_carry in
    let small : c ≤ 1 = ground arith in
    let d = r.a + 512 - bcd y - c in
    let h = ltb (r.a % 16) (bcd y % 16 + c) in
    let b = ltb r.a (bcd y + c) in
    let r1 : CpuRegisters = record r { a = d % 256; f = flags (d % 256 == 0) true h b } in
    let down = if h then (d % 256 + 65536 - 6) % 256 else d % 256 in
    let full = if b then (down + 65536 - 0x60) % 65536 else down in
    let known = digits_sub r.a x y c e hx hy small in
    let got = shown (daa (alu_sub use_carry r (bcd y))) r1 (full % 256) true b (
      ap daa (alu_sub_lem use_carry r (bcd y) (omega arith) (omega arith))
      ∙ daa-flags r1 (d % 256 == 0) true h b (omega arith) refl) in
    (got.0 ∙ known.0, got.1 ∙ known.1)
