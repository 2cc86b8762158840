-- ===== src/Gbc/Cpu/Step.antt =====
-- gbc/cpu.rs: `check_interrupts` and `step`.
use emulator_app.Base.{
  ℕ, zero, suc, ◌+◌, ◌-◌, ◌^◌, true, false, ◌==◌, ◌!=◌, ltb, if◌then◌else◌, bit_and, u16, Option,
  none, some,
}
use emulator_app.Gbc.Cpu.State.{Machine, with_pc, push_word}
use emulator_app.Gbc.Cpu.Timers.{update_timers}
use emulator_app.Gbc.Cpu.Opcodes.{execute_opcode}
use emulator_app.Gbc.Mmu.{read_io, write_io, read_byte}

unfoldable pub vector_of : ℕ → ℕ
vector_of bit =
    if bit == 0
    then 0x0040
    else if bit == 1
    then 0x0048
    else if bit == 2
    then 0x0050
    else if bit == 3
    then 0x0058
    else 0x0060

-- What is done for the bit that is served.
unfoldable pub serve : ℕ → Machine → Machine
serve bit m =
    let acknowledged : Machine = record m {
      cpu = record m.cpu { ime = false };
      mmu = write_io m.mmu 0x0F (bit_and (read_io m.mmu 0x0F) (255 - 2 ^ bit));
    } in
    with_pc (push_word acknowledged m.cpu.registers.pc) (vector_of bit)

-- `for bit in 0..5`: `n` bits are left, `bit` is the next.
unfoldable pub serve_first : ℕ → ℕ → ℕ → Machine → Machine × Option ℕ
serve_first zero bit pending m = (m, none)
serve_first (suc n) bit pending m =
    let rest = serve_first n (bit + 1) pending m in
    if bit_and pending (2 ^ bit) != 0 then (serve bit m, some 20) else rest

unfoldable pub check_interrupts : Machine → Machine × Option ℕ
check_interrupts m =
    let pending = bit_and m.mmu.ie (read_io m.mmu 0x0F) in
    let awake : Machine = record m { cpu = record m.cpu { halted = false } } in
    if pending != 0
    then if m.cpu.ime then serve_first 5 0 pending awake else (awake, none)
    else (m, none)

-- A step in stop mode.
unfoldable pub stop_step : Machine → Machine × ℕ
stop_step m =
    let left = m.cpu.stop_cycles_left in
    let running : Machine = record m { cpu = record m.cpu { stop_cycles_left = left - 4 } } in
    let over : Machine = record m {
      cpu = record m.cpu { stop_cycles_left = 0; stop_mode = false };
    } in
    if ltb 4 left then (update_timers 4 running, 4) else (update_timers left over, left)

-- Fetch, the delayed effect of EI, and execution.
unfoldable pub fetch_execute : Machine → Machine × ℕ
fetch_execute m =
    let pc = m.cpu.registers.pc in
    let opcode = read_byte m.mmu pc in
    let m1 = with_pc m (u16 (pc + 1)) in
    let enabled : Machine = record m1 { cpu = record m1.cpu { ime = true; ei_delay = false } } in
    let (m2, cycles) = execute_opcode opcode (if m.cpu.ei_delay then enabled else m1) in
    (update_timers cycles m2, cycles)

abbrev pub unless_served : Machine → Option ℕ → Machine × ℕ
unless_served m (some cycles) = (update_timers cycles m, cycles)
unless_served m none = if m.cpu.halted then (update_timers 4 m, 4) else fetch_execute m

unfoldable pub step : Machine → Machine × ℕ
unfolding check_interrupts
step m =
    let (m1, served) = check_interrupts m in
    if m.cpu.stop_mode then stop_step m else unless_served m1 served
