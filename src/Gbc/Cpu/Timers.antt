-- ===== src/Gbc/Cpu/Timers.antt =====
-- gbc/cpu.rs: `update_timers`, the divider and the timer, which counts the falling edges of one of
-- the divider's bits.
pub mod Edges
pub mod Overflow
use emulator_app.Base.{
  ℕ, zero, suc, ◌+◌, ◌*◌, ◌/◌, ◌^◌, Bool, true, false, not, ◌&&◌, ◌==◌, ◌!=◌, if◌then◌else◌,
  bit_and, bit_or, u8, u16, ◌>>◌,
}
use emulator_app.Gbc.Cpu.State.{Cpu, Machine}
use emulator_app.Gbc.Mmu.{read_io, write_io}

-- The divider bit that TAC selects.
unfoldable pub bit_index : ℕ → Bool → ℕ
bit_index tac double_speed =
    let select = bit_and tac 0x03 in
    if select == 0
    then if double_speed then 10 else 9
    else if select == 1
    then if double_speed then 4 else 3
    else if select == 2
    then if double_speed then 6 else 5
    else if double_speed
    then 8
    else 7

unfoldable pub get_timer_signal : ℕ → ℕ → Bool → Bool
get_timer_signal div_counter tac double_speed =
    if bit_and tac 0x04 == 0
    then false
    else bit_and (div_counter >> bit_index tac double_speed) 1 != 0

-- TIMA after a falling edge: past 0xFF it is reloaded and the interrupt is requested.
unfoldable pub count_edge : Machine → Machine
count_edge m =
    let tima = read_io m.mmu 0x05 in
    let reloaded = read_io m.mmu 0x06 in
    let requested = write_io m.mmu 0x0F (bit_or (read_io m.mmu 0x0F) 0x04) in
    if tima == 0xFF
    then record m { mmu = write_io requested 0x05 reloaded }
    else record m { mmu = write_io m.mmu 0x05 (u8 (tima + 1)) }

-- One round of the loop.
unfoldable pub timer_cycle : ℕ → Machine → Machine
timer_cycle tac m =
    let fast = m.cpu.double_speed in
    let prev_signal = get_timer_signal m.cpu.div_counter tac fast in
    let div_counter = u16 (m.cpu.div_counter + 1) in
    let current_signal = get_timer_signal div_counter tac fast in
    let div_reg_val = u8 (if fast then div_counter >> 9 else div_counter >> 8) in
    let m1 : Machine = record m {
      cpu = record m.cpu { div_counter = div_counter };
      mmu = write_io m.mmu 0x04 div_reg_val;
    } in
    if prev_signal && not current_signal then count_edge m1 else m1

unfoldable pub timer_cycles : ℕ → ℕ → Machine → Machine
timer_cycles zero tac m = m
timer_cycles (suc cycles) tac m = timer_cycles cycles tac (timer_cycle tac m)

unfoldable pub update_timers : ℕ → Machine → Machine
update_timers cycles m = timer_cycles cycles (read_io m.mmu 0x07) m
