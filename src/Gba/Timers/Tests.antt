-- ===== src/Gba/Timers/Tests.antt =====
-- Witnesses and tests of the timers.
use emulator_app.Base.{
  ◌+◌, ◌-◌, ◌*◌, leb, ◌/◌, ◌≡◌, refl, arith, false, ◌==◌, ◌&&◌, ◌!=◌, ◌^◌, ◌++◌, bit_and, bit_or,
  if◌then◌else◌, [], ◌∷◌, some,
}
use emulator_app.Gba.Timers.{
  GbaTimer, get_prescaler, Outputs, tick_timer, tick_timers, timer_cycles_to_overflow,
}
use emulator_app.Gba.Timers.Exact.{tick_timer-exact}
use emulator_app.Gba.Timers.Reached.{tick_timer-reached}

-- Two ticks of 64 cycles before its overflow, 3 cycles into the first.
abbrev late : GbaTimer
late = record {
  counter = 0xFFFE;
  reload = 0xFF00;
  control = 0xC1;
  cycle_accumulator = 3;
  overflowed = false;
}

abbrev silence : Outputs
silence = record { r_if = 0; overflows = [] }

late_cycles : timer_cycles_to_overflow late ≡ some 125
unfolding timer_cycles_to_overflow
late_cycles = refl

cascaded :
    (tick_timers 125 (late ∷ record late { control = 0xC4 } ∷ []) silence).1
    ≡ record { r_if = 8; overflows = 0 ∷ [] }
unfolding tick_timers
cascaded = refl

tick_timer-exact_example :
    let after = tick_timer 125 2 false late silence in
    (after.signal ≡ (125 == 125))
    × (after.timer.counter ≡ (
        if 125 == 125
        then late.reload
        else late.counter + (late.cycle_accumulator + 125) / get_prescaler late))
    × (after.outputs.overflows
        ≡ (if 125 == 125 then silence.overflows ++ (2 ∷ []) else silence.overflows))
    × (after.outputs.r_if ≡ (
        if 125 == 125 && (bit_and late.control 0x40 != 0)
        then bit_or silence.r_if (2 ^ (3 + 2))
        else silence.r_if))
tick_timer-exact_example =
    tick_timer-exact 125 125 2 false late silence late_cycles (omega arith) (omega arith)
      (omega arith)

-- Before the prescaler was set to 64, 200 cycles were in the accumulator: the clamp answers 65 cycles,
-- past the overflow, which the first cycle reaches.
abbrev stale : GbaTimer
stale = record late { cycle_accumulator = 200 }

stale_cycles : timer_cycles_to_overflow stale ≡ some 65
unfolding timer_cycles_to_overflow
stale_cycles = refl

tick_timer-reached_example :
    (tick_timer 1 0 false stale silence).signal
    ≡ leb ((0x10000 - stale.counter) * get_prescaler stale) (stale.cycle_accumulator + 1)
tick_timer-reached_example =
    tick_timer-reached 1 0 false stale silence (omega arith) refl (omega arith) (omega arith)
      (omega arith)
