-- ===== src/Gbc/Rtc/Tick.antt =====
-- The cycle counter of gbc/mbc3.rs: `tick_cycles` counts whole seconds and keeps the rest.
use emulator_app.Base.{
  ℕ, zero, suc, ◌+◌, ◌-◌, ◌/◌, ◌%◌, ◌≤◌, ◌<◌, ◌≡◌, refl, ap, ◌∙◌, Bool, arith, if◌then◌else◌, u64,
  ◌^◌,
}
use native.Mathlib.Decide.{dec_lt}
use emulator_app.Gbc.Rtc.{
  RealTimeClock, increment_second, cycles_per_second, drain_cycles, tick_cycles,
}
use emulator_app.Gbc.Rtc.Advance.{seconds_later}

abbrev pub with_cycles : RealTimeClock → ℕ → RealTimeClock
with_cycles r a = record r { cycle_accumulator = a }

increment-with_cycles :
    (r : RealTimeClock) (a : ℕ)
    → increment_second (with_cycles r a) ≡ with_cycles (increment_second r) a
unfolding increment_second
increment-with_cycles r a = ground arith

seconds_later_front :
    (n : ℕ) (r : RealTimeClock) → seconds_later n (increment_second r) ≡ seconds_later (suc n) r
unfolding seconds_later
seconds_later_front zero r = refl
seconds_later_front (suc n) r = ap increment_second (seconds_later_front n r)

drain_more :
    (fuel : ℕ) (r : RealTimeClock) (a : ℕ)
    → cycles_per_second ≤ a
    → drain_cycles (suc fuel) (with_cycles r a)
      ≡ drain_cycles fuel (increment_second (with_cycles r (a - cycles_per_second)))
unfolding drain_cycles
drain_more fuel r a h = ground arith

drain_done :
    (fuel : ℕ) (r : RealTimeClock) (a : ℕ)
    → a < cycles_per_second
    → drain_cycles (suc fuel) (with_cycles r a) ≡ with_cycles r a
unfolding drain_cycles
drain_done fuel r a h = ground arith

drain_steps :
    (fuel : ℕ) (r : RealTimeClock) (a : ℕ)
    → a / cycles_per_second < fuel
    → drain_cycles fuel (with_cycles r a)
      ≡ with_cycles (seconds_later (a / cycles_per_second) r) (a % cycles_per_second)
drain_steps zero r a h = elim h [ ]
drain_steps (suc fuel) r a h = elim (dec_lt a cycles_per_second) [
  | no more ↦
      let rest = a - cycles_per_second in
      let q : a / cycles_per_second ≡ suc (rest / cycles_per_second) = omega arith in
      let m : a % cycles_per_second ≡ rest % cycles_per_second = omega arith in
      rw (q, m)
        (drain_more fuel r a (omega arith)
          ∙ ap (drain_cycles fuel) (increment-with_cycles r rest)
          ∙ drain_steps fuel (increment_second r) rest (omega arith)
          ∙ ap (λ x. with_cycles x (rest % cycles_per_second))
              (seconds_later_front (rest / cycles_per_second) r))
  | yes done ↦
      let q : a / cycles_per_second ≡ 0 = omega arith in
      let m : a % cycles_per_second ≡ a = omega arith in
      rw (q, m) (drain_done fuel r a done ∙ (unfold seconds_later in refl))
]

-- The cycles that a call of `tick_cycles` adds: half in double-speed mode.
abbrev pub normalized : ℕ → Bool → ℕ
normalized cycles double_speed = if double_speed then cycles / 2 else cycles

-- Ticking a running clock by any number of cycles whose total fits 64 bits counts one second for
-- each whole 4 194 304 cycles of the total, and keeps the remainder: the loop ends and loses no
-- cycle. A halted clock stays as it is.
pub tick_cycles-seconds_later :
    (r : RealTimeClock) (cycles : ℕ) (double_speed : Bool)
    → r.cycle_accumulator + cycles < 2 ^ 64
    → let total = r.cycle_accumulator + normalized cycles double_speed in
      tick_cycles r cycles double_speed ≡ (
        if r.halt
        then r
        else with_cycles (seconds_later (total / cycles_per_second) r) (total % cycles_per_second))
unfolding tick_cycles
tick_cycles-seconds_later r cycles double_speed fits =
    let total = r.cycle_accumulator + normalized cycles double_speed in
    let e : u64 total ≡ total = ground arith in
    ground (arith, e, drain_steps (total / cycles_per_second + 1) r total)
