-- ===== src/Gbc/Rtc.antt =====
-- core/src/gbc/mbc3.rs: `RealTimeClock`. Arithmetic on `u8`, `u16` and `u64` wraps, as in a release
-- build.
pub mod Advance
pub mod Tick
pub mod Registers
mod Tests
use emulator_app.Base.{
  ℕ, zero, suc, ◌+◌, ◌-◌, ◌/◌, ◌%◌, max, Bool, true, false, ◌||◌, ltb, leb, ◌==◌, ◌!=◌,
  if◌then◌else◌, bit_and, bit_or, u8, u16, u64,
}

pub record RealTimeClock : Type 0 where
  pub seconds : ℕ
  pub minutes : ℕ
  pub hours : ℕ
  pub days : ℕ
  pub halt : Bool
  pub day_overflow : Bool
  pub latched_seconds : ℕ
  pub latched_minutes : ℕ
  pub latched_hours : ℕ
  pub latched_days_low : ℕ
  pub latched_days_high : ℕ
  pub cycle_accumulator : ℕ

unfoldable pub new : RealTimeClock
new = record {
  seconds = 0;
  minutes = 0;
  hours = 0;
  days = 0;
  halt = false;
  day_overflow = false;
  latched_seconds = 0;
  latched_minutes = 0;
  latched_hours = 0;
  latched_days_low = 0;
  latched_days_high = 0;
  cycle_accumulator = 0;
}

-- The four nested carries of `increment_second`, innermost first.
abbrev increment_day : RealTimeClock → RealTimeClock
increment_day r =
    let days = u16 (r.days + 1) in
    if leb 512 days then record r { days = 0; day_overflow = true } else record r { days = days }

abbrev increment_hour : RealTimeClock → RealTimeClock
increment_hour r =
    let hours = u8 (r.hours + 1) in
    if leb 24 hours then increment_day (record r { hours = 0 }) else record r { hours = hours }

abbrev increment_minute : RealTimeClock → RealTimeClock
increment_minute r =
    let minutes = u8 (r.minutes + 1) in
    if leb 60 minutes
    then increment_hour (record r { minutes = 0 })
    else record r { minutes = minutes }

unfoldable pub increment_second : RealTimeClock → RealTimeClock
increment_second r =
    let seconds = u8 (r.seconds + 1) in
    if leb 60 seconds
    then increment_minute (record r { seconds = 0 })
    else record r { seconds = seconds }

abbrev pub cycles_per_second : ℕ
cycles_per_second = 4194304

-- The `while` of `tick_cycles`, on fuel.
unfoldable pub drain_cycles : ℕ → RealTimeClock → RealTimeClock
drain_cycles zero r = r
drain_cycles (suc fuel) r = elim (leb cycles_per_second r.cycle_accumulator) [
  | true ↦
      drain_cycles fuel (
        increment_second (record r { cycle_accumulator = r.cycle_accumulator - cycles_per_second }))
  | false ↦ r
]

unfoldable pub tick_cycles : RealTimeClock → ℕ → Bool → RealTimeClock
tick_cycles r cycles double_speed =
    let normalized = if double_speed then cycles / 2 else cycles in
    let total = u64 (r.cycle_accumulator + normalized) in
    if r.halt
    then r
    else drain_cycles (total / cycles_per_second + 1) (record r { cycle_accumulator = total })

-- The inner function of `advance_seconds`: a counter and the carries that it gives.
unfoldable pub advance : ℕ → ℕ → ℕ → ℕ × ℕ
advance value limit ticks =
    let until_carry = max (limit - value) 1 in
    let remaining = ticks - until_carry in
    if ltb ticks until_carry then (value + ticks, 0) else (remaining % limit, 1 + remaining / limit)

unfoldable pub advance_seconds : RealTimeClock → ℕ → RealTimeClock
advance_seconds r elapsed =
    let s = advance r.seconds 60 elapsed in
    let m = advance r.minutes 60 s.1 in
    let h = advance r.hours 24 m.1 in
    let d = advance r.days 512 h.1 in
    if r.halt || elapsed == 0 then r else record r {
      seconds = u8 s.0;
      minutes = u8 m.0;
      hours = u8 h.0;
      days = u16 d.0;
      day_overflow = r.day_overflow || d.1 != 0;
    }

abbrev or_if : Bool → ℕ → ℕ → ℕ
or_if b bit dh = if b then bit_or dh bit else dh

unfoldable pub latch : RealTimeClock → RealTimeClock
latch r = record r {
  latched_seconds = r.seconds;
  latched_minutes = r.minutes;
  latched_hours = r.hours;
  latched_days_low = u8 (bit_and r.days 0xFF);
  latched_days_high = or_if r.day_overflow 0x80 (or_if r.halt 0x40 (or_if (ltb 255 r.days) 0x01 0));
}

unfoldable pub write_register : RealTimeClock → ℕ → ℕ → RealTimeClock
write_register r reg val =
    if reg == 0x08
    then record r { seconds = bit_and val 0x3F }
    else if reg == 0x09
    then record r { minutes = bit_and val 0x3F }
    else if reg == 0x0A
    then record r { hours = bit_and val 0x1F }
    else if reg == 0x0B
    then record r { days = bit_or (bit_and r.days 0x100) val }
    else if reg == 0x0C
    then record r {
      days = if bit_and val 0x01 != 0 then bit_or r.days 0x100 else bit_and r.days 0x0FF;
      halt = bit_and val 0x40 != 0;
      day_overflow = bit_and val 0x80 != 0;
    }
    else r

unfoldable pub read_register : RealTimeClock → ℕ → ℕ
read_register r reg =
    if reg == 0x08
    then r.latched_seconds
    else if reg == 0x09
    then r.latched_minutes
    else if reg == 0x0A
    then r.latched_hours
    else if reg == 0x0B
    then r.latched_days_low
    else if reg == 0x0C
    then r.latched_days_high
    else 0xFF
