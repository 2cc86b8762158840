-- ===== src/Psg/Noise.antt =====
-- psg.rs: `NoiseChannel`.
use emulator_app.Base.{
  ℕ, zero, suc, ◌+◌, ◌-◌, ◌*◌, ◌/◌, ◌%◌, Bool, true, not, ◌||◌, ltb, ◌==◌, if◌then◌else◌, bit_and,
  bit_or, bit_xor, u16, u32, ◌>>◌, ◌<<◌, min,
}
use emulator_app.Base.Int.{ℤ, pos}
use emulator_app.Psg.Units.{noise_shift_mask, length_step, envelope_step, level}

pub record NoiseChannel : Type 0 where
  pub enabled : Bool
  pub length_enabled : Bool
  pub length_counter : ℕ
  pub volume : ℕ
  pub env_enabled : Bool
  pub env_period : ℕ
  pub env_timer : ℕ
  pub env_direction : Bool
  pub env_initial_volume : ℕ
  pub lfsr : ℕ
  pub divisor : ℕ
  pub shift_clock : ℕ
  pub width_7bit : Bool
  pub period_timer : ℕ

unfoldable pub get_period : NoiseChannel → ℕ
get_period c =
    let div = if c.divisor == 0 then 8 else c.divisor * 16 in
    u32 (div << bit_and c.shift_clock noise_shift_mask)

unfoldable pub trigger : NoiseChannel → NoiseChannel
trigger c = record c {
  enabled = true;
  length_counter = if c.length_counter == 0 then 64 else c.length_counter;
  lfsr = 0x7FFF;
  env_timer = c.env_period;
  volume = c.env_initial_volume;
  env_enabled = ltb 0 c.env_period;
  period_timer = get_period c;
}

-- One clock of the shift register: `!(1 << 6)` is 0xFFBF on `u16`.
unfoldable pub shift_lfsr : Bool → ℕ → ℕ
shift_lfsr width_7bit lfsr =
    let feed = bit_xor (bit_and lfsr 1) (bit_and (lfsr >> 1) 1) in
    let shifted = bit_or (lfsr >> 1) (u16 (feed << 14)) in
    if width_7bit then bit_or (bit_and shifted 0xFFBF) (u16 (feed << 6)) else shifted

unfoldable pub shift_times : ℕ → Bool → ℕ → ℕ
shift_times zero width_7bit lfsr = lfsr
shift_times (suc n) width_7bit lfsr = shift_times n width_7bit (shift_lfsr width_7bit lfsr)

unfoldable pub tick_period : NoiseChannel → ℕ → NoiseChannel
tick_period c cycles =
    let period = get_period c in
    let overflow = cycles - c.period_timer in
    let steps = min (1 + overflow / period) 512 in
    if not c.enabled
    then c
    else if ltb cycles c.period_timer
    then record c { period_timer = c.period_timer - cycles }
    else record c {
      lfsr = shift_times steps c.width_7bit c.lfsr;
      period_timer = period - overflow % period;
    }

unfoldable pub get_amplitude : NoiseChannel → ℤ
get_amplitude c =
    if not c.enabled || c.volume == 0
    then pos 0
    else level (bit_xor (bit_and c.lfsr 1) 1 == 1) c.volume

unfoldable pub tick_length : NoiseChannel → NoiseChannel
tick_length c =
    let s =
      length_step c.length_enabled (record { enabled = c.enabled; counter = c.length_counter }) in
    record c { enabled = s.enabled; length_counter = s.counter }

unfoldable pub tick_envelope : NoiseChannel → NoiseChannel
tick_envelope c =
    let s =
      envelope_step c.env_period c.env_direction
        (record { volume = c.volume; env_enabled = c.env_enabled; env_timer = c.env_timer }) in
    record c { volume = s.volume; env_enabled = s.env_enabled; env_timer = s.env_timer }
