-- ===== src/Gbc/Cpu/Decode.antt =====
-- The regular part of the instruction set of gbc/cpu.rs, decoded from the bits of the opcode.
use emulator_app.Base.{
  ℕ, zero, suc, ◌+◌, ◌/◌, ◌%◌, ◌≤◌, ◌<◌, ◌≡◌, ◌≢◌, true, false, ◌==◌, ltb, if◌then◌else◌, arith,
  List, [], ◌∷◌, All, ◌⊎◌, inl, inr,
}
use emulator_app.Gbc.Cpu.Registers.{CpuRegisters}
use emulator_app.Gbc.Cpu.State.{Machine, with_registers}
use emulator_app.Gbc.Cpu.Actions.{Action, dispatch}
use emulator_app.Gbc.Cpu.Actions.Loads.{copy, load_hl, store_hl}
use emulator_app.Gbc.Cpu.Actions.Arithmetic.{alu_register, alu_hl}
use emulator_app.Gbc.Cpu.Alu.{alu_add, alu_sub, alu_and, alu_xor, alu_or, alu_cp}
use emulator_app.Gbc.Cpu.Cb.{cb_read, cb_write}
use emulator_app.Gbc.Cpu.Opcodes.{
  execute_opcode, wide_loads, immediate_loads, copies_a_b_c, copies_d_e_h_l, stores_and_copies_of_a,
  memory_loads, additions, subtractions, ands_and_xors, ors_and_compares,
}

-- The operation in the bits 3 to 5 of an opcode between 0x80 and 0xBF.
abbrev pub operation : ℕ → CpuRegisters → ℕ → CpuRegisters
operation y r val =
    if y == 0
    then alu_add false r val
    else if y == 1
    then alu_add true r val
    else if y == 2
    then alu_sub false r val
    else if y == 3
    then alu_sub true r val
    else if y == 4
    then alu_and r val
    else if y == 5
    then alu_xor r val
    else if y == 6
    then alu_or r val
    else alu_cp r val

-- Between 0x40 and 0x7F a load from the operand in the low three bits to that in the next three, and
-- above an operation on the accumulator; the operand 6 is the byte at `HL`, which costs four cycles.
unfoldable pub regular : ℕ → Action
unfolding cb_read cb_write
regular opcode m =
    let y = opcode / 8 % 8 in
    let z = opcode % 8 in
    if ltb opcode 0x80
    then (cb_write y m (cb_read z m), if y == 6 then 8 else if z == 6 then 8 else 4)
    else (with_registers m (operation y m.cpu.registers (cb_read z m)), if z == 6 then 8 else 4)

abbrev upto : ℕ → ℕ → List ℕ
upto zero from = []
upto (suc n) from = from ∷ upto n (from + 1)

covers : (n from : ℕ) (P : ℕ → Type 0) (x : ℕ) → All P (upto n from) → from ≤ x → x < from + n → P x
covers zero from P x all lo hi = absurd (omega arith)
covers (suc n) from P x all lo hi = elim (split from x lo) [
  | inl e ↦ rw (e) (all.0)
  | inr more ↦ covers n (from + 1) P x all.1 more (omega arith)
]
  where
    split : (i j : ℕ) → i ≤ j → (j ≡ i) ⊎ (i + 1 ≤ j)
    split i j h = ground arith

loads : (m : Machine) → All (λ op. execute_opcode op m ≡ regular op m) (upto 54 0x40)
unfolding execute_opcode dispatch regular copy load_hl store_hl wide_loads immediate_loads
    copies_a_b_c copies_d_e_h_l stores_and_copies_of_a
loads m = ground arith

loads_of_a : (m : Machine) → All (λ op. execute_opcode op m ≡ regular op m) (upto 9 0x77)
unfolding execute_opcode dispatch regular copy load_hl store_hl wide_loads immediate_loads
    copies_a_b_c copies_d_e_h_l stores_and_copies_of_a
loads_of_a m = ground arith

arithmetic : (m : Machine) → All (λ op. execute_opcode op m ≡ regular op m) (upto 64 0x80)
unfolding execute_opcode dispatch regular alu_register alu_hl wide_loads immediate_loads
    copies_a_b_c copies_d_e_h_l stores_and_copies_of_a memory_loads additions subtractions
    ands_and_xors ors_and_compares
arithmetic m = ground arith

-- Every opcode from 0x40 to 0xBF but HALT does what its bits say, in every state of the machine: the
-- register or byte that is loaded, the operation, the operand, the flags and the cycles.
pub execute_opcode-regular :
    (opcode : ℕ) (m : Machine)
    → 0x40 ≤ opcode
    → opcode < 0xC0
    → opcode ≢ 0x76
    → execute_opcode opcode m ≡ regular opcode m
execute_opcode-regular opcode m lo hi ne = elim (part opcode) [
  | inl early ↦ covers 54 0x40 (λ op. execute_opcode op m ≡ regular op m) opcode (loads m) lo early
  | inr (inl mid) ↦
      covers 9 0x77 (λ op. execute_opcode op m ≡ regular op m) opcode (loads_of_a m) (omega arith)
        mid.1
  | inr (inr late) ↦
      covers 64 0x80 (λ op. execute_opcode op m ≡ regular op m) opcode (arithmetic m) late hi
]
  where
    part : (op : ℕ) → (op < 0x76) ⊎ ((0x76 ≤ op) × (op < 0x80)) ⊎ (0x80 ≤ op)
    part op = ground arith
