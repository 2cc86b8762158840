-- ===== src/Gbc/Cpu/Cb.antt =====
-- gbc/cpu.rs: `execute_cb_opcode`, the rotates, shifts and bit operations behind the prefix 0xCB.
use emulator_app.Base.{
  ℕ, ◌+◌, ◌-◌, ◌^◌, Bool, true, false, not, ◌==◌, ◌!=◌, ltb, if◌then◌else◌, bit_and, bit_or, u8,
  ◌<<◌, ◌>>◌,
}
use emulator_app.Gbc.Cpu.Registers.{
  CpuRegisters, flag_z, flag_n, flag_h, flag_c, get_hl, get_flag, set_flag, bit_of,
}
use emulator_app.Gbc.Cpu.State.{Machine, with_registers, write, read_immediate_u8}
use emulator_app.Gbc.Cpu.Actions.{Action, at_hl}

unfoldable pub cb_read : ℕ → Machine → ℕ
cb_read reg_idx m =
    let r = m.cpu.registers in
    if reg_idx == 0
    then r.b
    else if reg_idx == 1
    then r.c
    else if reg_idx == 2
    then r.d
    else if reg_idx == 3
    then r.e
    else if reg_idx == 4
    then r.h
    else if reg_idx == 5
    then r.l
    else if reg_idx == 6
    then at_hl m
    else r.a

unfoldable pub cb_write : ℕ → Machine → ℕ → Machine
cb_write reg_idx m val =
    let r = m.cpu.registers in
    if reg_idx == 0
    then with_registers m (record r { b = val })
    else if reg_idx == 1
    then with_registers m (record r { c = val })
    else if reg_idx == 2
    then with_registers m (record r { d = val })
    else if reg_idx == 3
    then with_registers m (record r { e = val })
    else if reg_idx == 4
    then with_registers m (record r { h = val })
    else if reg_idx == 5
    then with_registers m (record r { l = val })
    else if reg_idx == 6
    then write m (get_hl r) val
    else with_registers m (record r { a = val })

-- The value and the carry of the eight shifts, from the value and the carry flag.
unfoldable pub shift : ℕ → ℕ → ℕ → ℕ × Bool
shift op c val =
    let high = bit_and val 0x80 != 0 in
    let low = bit_and val 0x01 != 0 in
    if op == 0
    then (bit_or (u8 (val << 1)) (bit_of high), high)
    else if op == 1
    then (bit_or (val >> 1) (u8 (bit_of low << 7)), low)
    else if op == 2
    then (bit_or (u8 (val << 1)) c, high)
    else if op == 3
    then (bit_or (val >> 1) (u8 (c << 7)), low)
    else if op == 4
    then (u8 (val << 1), high)
    else if op == 5
    then (if ltb val 128 then val >> 1 else (val >> 1) + 128, low)
    else if op == 6
    then (bit_or (val >> 4) (u8 (val << 4)), false)
    else (val >> 1, low)

unfoldable pub shift_flags : ℕ → CpuRegisters → ℕ → Bool → CpuRegisters
shift_flags op r val carry =
    let cleared : CpuRegisters = record r { f = 0 } in
    let carried = if op != 6 then set_flag cleared flag_c carry else cleared in
    set_flag carried flag_z (val == 0)

unfoldable pub test_bit : CpuRegisters → ℕ → ℕ → CpuRegisters
test_bit r bit val =
    let bit_val = bit_and val (2 ^ bit) != 0 in
    set_flag (set_flag (set_flag r flag_z (not bit_val)) flag_n false) flag_h true

unfoldable pub execute_cb_opcode : ℕ → Action
unfolding cb_read cb_write shift shift_flags test_bit
execute_cb_opcode cb_opcode m =
    let mode = cb_opcode >> 6 in
    let bit = bit_and (cb_opcode >> 3) 0x07 in
    let reg_idx = bit_and cb_opcode 0x07 in
    let r = m.cpu.registers in
    let val = cb_read reg_idx m in
    let cycles = if reg_idx == 6 then 16 else 8 in
    let shifted = shift bit (bit_of (get_flag r flag_c)) val in
    let flagged = with_registers m (shift_flags bit r shifted.0 shifted.1) in
    if mode == 0
    then (cb_write reg_idx flagged shifted.0, cycles)
    else if mode == 1
    then (with_registers m (test_bit r bit val), if reg_idx == 6 then 12 else cycles)
    else if mode == 2
    then (cb_write reg_idx m (bit_and val (255 - 2 ^ bit)), cycles)
    else (cb_write reg_idx m (bit_or val (2 ^ bit)), cycles)

unfoldable pub prefix_cb : Action
prefix_cb m = let (m1, cb_opcode) = read_immediate_u8 m in execute_cb_opcode cb_opcode m1
