-- ===== src/Gbc/Rtc/Tests.antt =====
-- Witnesses and tests of the clock.
use emulator_app.Base.{◌+◌, ◌/◌, ◌%◌, ◌≡◌, refl, true, false, arith, if◌then◌else◌}
use emulator_app.Gbc.Rtc.{RealTimeClock, cycles_per_second, advance, advance_seconds, tick_cycles}
use emulator_app.Gbc.Rtc.Advance.{seconds_later, IsCounting, advance_seconds-seconds_later}
use emulator_app.Gbc.Rtc.Tick.{with_cycles, normalized, tick_cycles-seconds_later}

-- 63 seconds, as a register write may leave them, at the end of a day.
abbrev odd : RealTimeClock
odd = record {
  seconds = 63;
  minutes = 59;
  hours = 23;
  days = 511;
  halt = false;
  day_overflow = false;
  latched_seconds = 0;
  latched_minutes = 0;
  latched_hours = 0;
  latched_days_low = 0;
  latched_days_high = 0;
  cycle_accumulator = 4194303;
}

odd-IsCounting : IsCounting odd
odd-IsCounting = ground arith

advance_seconds-seconds_later_example : advance_seconds odd 3 ≡ seconds_later 3 odd
advance_seconds-seconds_later_example = advance_seconds-seconds_later odd 3 odd-IsCounting

odd_wraps : ((advance_seconds odd 3).seconds ≡ 2) × ((advance_seconds odd 3).day_overflow ≡ true)
unfolding advance_seconds advance
odd_wraps = (refl, refl)

tick_cycles-seconds_later_example :
    let total = 4194303 + normalized 10 true in
    tick_cycles odd 10 true ≡ (
      if false
      then odd
      else with_cycles (seconds_later (total / cycles_per_second) odd) (total % cycles_per_second))
tick_cycles-seconds_later_example = tick_cycles-seconds_later odd 10 true (omega arith)
