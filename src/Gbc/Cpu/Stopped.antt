-- ===== src/Gbc/Cpu/Stopped.antt =====
-- Stop mode of gbc/cpu.rs, which a speed switch enters.
use emulator_app.Base.{
  ℕ, zero, suc, ◌+◌, ◌-◌, ◌*◌, ◌≤◌, ◌<◌, ◌≡◌, refl, ap, ◌∙◌, true, false, ltb, arith, u16,
}
use emulator_app.Gbc.Cpu.State.{Cpu, Machine}
use emulator_app.Gbc.Cpu.Timers.{
  count_edge, timer_cycle, timer_cycles, update_timers, get_timer_signal,
}
use emulator_app.Gbc.Cpu.Step.{stop_step, step}

-- `n` steps, and the cycles they took.
unfoldable pub steps : ℕ → Machine → Machine × ℕ
steps zero m = (m, 0)
steps (suc n) m = let (m1, cycles) = step m in let (m2, more) = steps n m1 in (m2, cycles + more)

-- The processor without its divider.
abbrev at_rest : Cpu → Cpu
at_rest c = record c { div_counter = 0 }

timer_cycle-at_rest : (tac : ℕ) (m : Machine) → at_rest (timer_cycle tac m).cpu ≡ at_rest m.cpu
unfolding timer_cycle count_edge
timer_cycle-at_rest tac m =
    let counted = get_timer_signal m.cpu.div_counter tac m.cpu.double_speed in
    let next = get_timer_signal (u16 (m.cpu.div_counter + 1)) tac m.cpu.double_speed in ground arith

timer_cycles-at_rest :
    (n tac : ℕ) (m : Machine) → at_rest (timer_cycles n tac m).cpu ≡ at_rest m.cpu
unfolding timer_cycles
timer_cycles-at_rest zero tac m = refl
timer_cycles-at_rest (suc n) tac m =
    timer_cycles-at_rest n tac (timer_cycle tac m) ∙ timer_cycle-at_rest tac m

update_timers-at_rest : (n : ℕ) (m : Machine) → at_rest (update_timers n m).cpu ≡ at_rest m.cpu
unfolding update_timers
update_timers-at_rest n m = timer_cycles-at_rest n _ m

abbrev running : Machine → Machine
running m = record m { cpu = record m.cpu { stop_cycles_left = m.cpu.stop_cycles_left - 4 } }

abbrev over : Machine → Machine
over m = record m { cpu = record m.cpu { stop_cycles_left = 0; stop_mode = false } }

step-running :
    (m : Machine)
    → m.cpu.stop_mode ≡ true
    → ltb 4 m.cpu.stop_cycles_left ≡ true
    → step m ≡ (update_timers 4 (running m), 4)
unfolding step stop_step
step-running m on more = rw (on, more) refl

step-over :
    (m : Machine)
    → m.cpu.stop_mode ≡ true
    → ltb 4 m.cpu.stop_cycles_left ≡ false
    → step m ≡ (update_timers m.cpu.stop_cycles_left (over m), m.cpu.stop_cycles_left)
unfolding step stop_step
step-over m on last = rw (on, last) refl

-- A machine in stop mode with `left` cycles to go leaves it in `n + 1` steps of four cycles or fewer,
-- and not before, taking `left` cycles, with its registers as they were.
pub steps-stop_mode :
    (n : ℕ) (m : Machine)
    → m.cpu.stop_mode ≡ true
    → 4 * n < m.cpu.stop_cycles_left
    → m.cpu.stop_cycles_left ≤ 4 * n + 4
    → let after = steps (suc n) m in
      (after.1 ≡ m.cpu.stop_cycles_left)
      × (after.0.cpu.stop_mode ≡ false)
      × (after.0.cpu.stop_cycles_left ≡ 0)
      × (after.0.cpu.registers ≡ m.cpu.registers)
      × ((steps n m).0.cpu.stop_mode ≡ true)
unfolding steps
steps-stop_mode zero m on lo hi =
    let kept = update_timers-at_rest m.cpu.stop_cycles_left (over m) in
    rw (step-over m on (ground arith)) (
      omega arith,
      ap (λ c. c.stop_mode) kept,
      ap (λ c. c.stop_cycles_left) kept,
      ap (λ c. c.registers) kept,
      on,
    )
steps-stop_mode (suc n) m on lo hi =
    let next = update_timers 4 (running m) in
    let kept = update_timers-at_rest 4 (running m) in
    let left : next.cpu.stop_cycles_left ≡ m.cpu.stop_cycles_left - 4 =
      ap (λ c. c.stop_cycles_left) kept in
    let rest =
      steps-stop_mode n next (ap (λ c. c.stop_mode) kept ∙ on) (omega arith) (omega arith) in
    rw (step-running m on (ground arith))
      (omega (arith, rest.0), rest.1, rest.2, rest.3 ∙ ap (λ c. c.registers) kept, rest.4)
