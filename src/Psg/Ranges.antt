-- ===== src/Psg/Ranges.antt =====
-- The hardware ranges of the channel fields of psg.rs, for the parts that the channels share.
use emulator_app.Base.{
  ℕ, ◌+◌, ◌-◌, ◌*◌, ◌/◌, ◌%◌, ◌≤◌, ◌<◌, ◌≡◌, Bool, arith, bit_and, bit_and_low, bit_and-le,
  bit_or-lt, bit_or_add, bit_and_field, u16, ◌<<◌, bit_or_add_high,
}
use native.Mathlib.Nat.{mod-lt, mul-le-mul_right}
use emulator_app.Psg.Units.{
  Phase, advance_phase, Length, length_step, Envelope, envelope_step, reload_value,
}
use emulator_app.Psg.Frame.{low_period, high_period}

pub length_step-counter-le : (on : Bool) (s : Length) → (length_step on s).counter ≤ s.counter
unfolding length_step
length_step-counter-le on s = ground arith

pub envelope_step-volume-le :
    (p : ℕ) (up : Bool) (s : Envelope)
    → s.volume ≤ 15
    → s.env_timer ≤ 7
    → p ≤ 7
    → ((envelope_step p up s).volume ≤ 15) × ((envelope_step p up s).env_timer ≤ 7)
unfolding envelope_step
envelope_step-volume-le p up s h t k = ground arith

pub reload_value-le : (period scale : ℕ) → reload_value period scale ≤ 2048 * scale
unfolding reload_value
reload_value-le period scale = mul-le-mul_right scale (omega arith)

pub advance_phase_range :
    (top p n cycles : ℕ) (s : Phase)
    → p ≤ top
    → 0 < n
    → n ≤ 32
    → s.timer ≤ top
    → s.step < n
    → ((advance_phase p n cycles s).timer ≤ top) × ((advance_phase p n cycles s).step < n)
unfolding advance_phase
advance_phase_range top p n cycles s hp h0 hn ht hs =
    ground (arith, mod-lt (s.step + (1 + (cycles - s.timer) / p)) h0)

pub low_period-lt : (period val : ℕ) → val < 256 → low_period period val < 2048
unfolding low_period
low_period-lt period val h =
    bit_or-lt 11 (bit_and period 0x0700) val (omega (arith, bit_and-le period 0x0700)) (omega arith)

pub high_period-lt : (period val : ℕ) → high_period period val < 2048
unfolding high_period
high_period-lt period val =
    bit_or-lt 11 (bit_and period 0x00FF) (u16 (bit_and val 0x07 << 8))
      (omega (arith, bit_and-le period 0x00FF)) (omega (arith, bit_and-le val 0x07))

pub low_period_lem :
    (period low : ℕ) → low < 256 → low_period period low ≡ period / 256 % 8 * 256 + low
unfolding low_period
low_period_lem period low h =
    rw (bit_and_field 8 3 period) (bit_or_add 8 (period / 256 % 8 * 256) low (omega arith) h)

pub high_period_lem : (period high : ℕ) → high_period period high ≡ high % 8 * 256 + period % 256
unfolding high_period
high_period_lem period high =
    let fits : high % 8 * 256 % 65536 ≡ high % 8 * 256 = omega arith in
    rw (bit_and_low 8 period, bit_and_low 3 high, fits)
      (bit_or_add_high 8 (period % 256) (high % 8 * 256) (omega arith) (omega arith))
