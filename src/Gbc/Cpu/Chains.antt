-- ===== src/Gbc/Cpu/Chains.antt =====
-- Numbers of several bytes, through the carry flag of gbc/cpu.rs.
use emulator_app.Base.{
  ℕ, ◌+◌, ◌-◌, ◌*◌, ◌%◌, ◌<◌, ◌≡◌, ap, ◌∙◌, true, false, ◌==◌, ltb, if◌then◌else◌, arith, List, [],
  ◌∷◌, All,
}
use emulator_app.Gbc.Cpu.Registers.{CpuRegisters, get_flag, bit_of, flag_c}
use emulator_app.Gbc.Cpu.Alu.{alu_add, alu_sub}
use emulator_app.Gbc.Cpu.Flags.{get_flag_lem}
use emulator_app.Gbc.Cpu.Arithmetic.{alu_add_lem, alu_sub_lem}

-- LD A, x; ADC A, y for each pair of bytes, the lowest first, and the results; likewise with SBC.
unfoldable pub chain :
    (CpuRegisters → ℕ → CpuRegisters) → CpuRegisters → List (ℕ × ℕ) → CpuRegisters × List ℕ
chain op r [] = (r, [])
chain op r ((x, y) ∷ pairs) =
    let r1 = op (record r { a = x }) y in
    let (last, results) = chain op r1 pairs in (last, r1.a ∷ results)

-- Little-endian values, of the first and of the second components, and of a list.
abbrev pub firsts : List (ℕ × ℕ) → ℕ
firsts [] = 0
firsts ((x, y) ∷ pairs) = x + 256 * firsts pairs

abbrev pub seconds : List (ℕ × ℕ) → ℕ
seconds [] = 0
seconds ((x, y) ∷ pairs) = y + 256 * seconds pairs

abbrev pub value : List ℕ → ℕ
value [] = 0
value (x ∷ xs) = x + 256 * value xs

-- One past the largest number of as many bytes.
abbrev pub scale : List (ℕ × ℕ) → ℕ
scale [] = 1
scale (p ∷ pairs) = 256 * scale pairs

abbrev pub ArePairs : List (ℕ × ℕ) → Type 0
ArePairs = All (λ p. (p.0 < 256) × (p.1 < 256))

-- Adding two numbers of any number of bytes, with ADC from the lowest byte up, gives their sum: the
-- carry in counts as one, and the carry out as one past the largest number of so many bytes.
pub chain-alu_add :
    (r : CpuRegisters) (pairs : List (ℕ × ℕ))
    → ArePairs pairs
    → let after = chain (alu_add true) r pairs in
      value after.1 + (if get_flag after.0 flag_c then scale pairs else 0)
      ≡ firsts pairs + seconds pairs + bit_of (get_flag r flag_c)
unfolding chain
chain-alu_add r [] h = ground arith
chain-alu_add r ((x, y) ∷ pairs) h =
    let c = bit_of (get_flag r flag_c) in
    let s = x + y + c in
    let one = alu_add_lem true (record r { a = x }) y h.0.0 h.0.1 in
    let carry : get_flag (alu_add true (record r { a = x }) y) flag_c ≡ ltb 255 s =
      ap (λ t. get_flag t flag_c) one
      ∙ (get_flag_lem (s % 256 == 0) false (ltb 15 (x % 16 + y % 16 + c)) (ltb 255 s)).3 in
    let low : (alu_add true (record r { a = x }) y).a ≡ s % 256 = ap (λ t. t.a) one in
    ground (arith, carry, low, chain-alu_add (alu_add true (record r { a = x }) y) pairs h.1)

-- Subtracting two numbers of any number of bytes, with SBC from the lowest byte up, gives their
-- difference: the borrow in counts as one, and the borrow out as one past the largest number of so many
-- bytes.
pub chain-alu_sub :
    (r : CpuRegisters) (pairs : List (ℕ × ℕ))
    → ArePairs pairs
    → let after = chain (alu_sub true) r pairs in
      value after.1 + seconds pairs + bit_of (get_flag r flag_c)
      ≡ firsts pairs + (if get_flag after.0 flag_c then scale pairs else 0)
unfolding chain
chain-alu_sub r [] h = ground arith
chain-alu_sub r ((x, y) ∷ pairs) h =
    let c = bit_of (get_flag r flag_c) in
    let d = x + 512 - y - c in
    let one = alu_sub_lem true (record r { a = x }) y h.0.0 h.0.1 in
    let carry : get_flag (alu_sub true (record r { a = x }) y) flag_c ≡ ltb x (y + c) =
      ap (λ t. get_flag t flag_c) one
      ∙ (get_flag_lem (d % 256 == 0) true (ltb (x % 16) (y % 16 + c)) (ltb x (y + c))).3 in
    let low : (alu_sub true (record r { a = x }) y).a ≡ d % 256 = ap (λ t. t.a) one in
    ground (arith, carry, low, chain-alu_sub (alu_sub true (record r { a = x }) y) pairs h.1)
