-- ===== src/Psg/Valid/Others.antt =====
-- The hardware ranges of the wave and the noise channel of psg.rs, and that each operation keeps
-- them.
use emulator_app.Base.{
  ℕ, zero, suc, ◌+◌, ◌-◌, ◌*◌, ◌==◌, if◌then◌else◌, ◌/◌, ◌^◌, ◌≤◌, ◌<◌, ◌≡◌, Bool, true, false,
  arith, bit_and, bit_and-le, ◌!=◌, min, length, length-set, IsBytes, IsBytes-set,
}
use native.Mathlib.Nat.{mul-le-mul, pow-le-pow_right}
use emulator_app.Psg.Units.{reload_value, noise_shift_mask}
use emulator_app.Psg.Ranges.{
  length_step-counter-le, envelope_step-volume-le, reload_value-le, advance_phase_range,
  low_period-lt, high_period-lt,
}
use emulator_app.Psg.Lfsr.{shifted_lem, narrow_lem, feed_lem}
use emulator_app.Psg.Wave
use emulator_app.Psg.Wave.{WaveChannel}
use emulator_app.Psg.Noise
use emulator_app.Psg.Noise.{NoiseChannel, get_period, shift_lfsr, shift_times}
use emulator_app.Psg.Frame.{high_period, write_wave, write_noise}

pub record IsWave (c : WaveChannel) : Type 0 where
  pub length_counter : c.length_counter ≤ 256
  pub period : c.period < 2048
  pub period_timer : c.period_timer ≤ 4096
  pub volume_shift : c.volume_shift ≤ 3
  pub wave_size : length c.wave_ram ≡ 16
  pub wave_bytes : IsBytes c.wave_ram
  pub sample_pointer : c.sample_pointer < 32

pub record IsNoise (c : NoiseChannel) : Type 0 where
  pub length_counter : c.length_counter ≤ 64
  pub volume : c.volume ≤ 15
  pub env_period : c.env_period ≤ 7
  pub env_timer : c.env_timer ≤ 7
  pub env_initial_volume : c.env_initial_volume ≤ 15
  pub lfsr : c.lfsr < 32768
  pub divisor : c.divisor ≤ 7
  pub shift_clock : c.shift_clock ≤ 15
  pub period_timer : c.period_timer ≤ 7 * 16 * 2 ^ 15

pub trigger-IsWave : (c : WaveChannel) → IsWave c → IsWave (Wave.trigger c)
unfolding Wave.trigger
trigger-IsWave c h = ground (arith, reload_value-le c.period 2)

pub tick_period-IsWave :
    (c : WaveChannel) (cycles : ℕ) → IsWave c → IsWave (Wave.tick_period c cycles)
unfolding Wave.tick_period
tick_period-IsWave c cycles h = ground (
  arith,
  reload_value-le c.period 2,
  advance_phase_range 4096 (reload_value c.period 2) 32 cycles
      (record { timer = c.period_timer; step = c.sample_pointer }),
)

pub tick_length-IsWave : (c : WaveChannel) → IsWave c → IsWave (Wave.tick_length c)
unfolding Wave.tick_length
tick_length-IsWave c h = ground (
  arith,
  length_step-counter-le c.length_enabled
      (record { enabled = c.enabled; counter = c.length_counter }),
)

pub write_wave-IsWave :
    (c : WaveChannel) (offset val : ℕ) → val < 256 → IsWave c → IsWave (write_wave c offset val)
unfolding write_wave
write_wave-IsWave c offset val hv h = ground (
  arith,
  low_period-lt c.period val,
  high_period-lt c.period val,
  bit_and-le (val / 32) 0x03,
  length-set c.wave_ram (offset - 0x30) val,
  IsBytes-set c.wave_ram (offset - 0x30) val h.wave_bytes hv,
  trigger-IsWave
      (record c { period = high_period c.period val; length_enabled = bit_and val 0x40 != 0 }),
)

shift_lfsr-lt : (w : Bool) (l : ℕ) → l < 32768 → shift_lfsr w l < 32768
shift_lfsr-lt true l h = omega (arith, narrow_lem l h)
shift_lfsr-lt false l h = unfold shift_lfsr in rw (feed_lem l, shifted_lem l h) (omega arith)

shift_times-lt : (n : ℕ) (w : Bool) (l : ℕ) → l < 32768 → shift_times n w l < 32768
unfolding shift_times
shift_times-lt zero w l h = h
shift_times-lt (suc n) w l h = shift_times-lt n w (shift_lfsr w l) (shift_lfsr-lt w l h)

get_period-le : (c : NoiseChannel) → c.divisor ≤ 7 → get_period c ≤ 7 * 16 * 2 ^ 15
unfolding get_period
get_period-le c h =
    let div : ℕ = if c.divisor == 0 then 8 else c.divisor * 16 in
    let small : div ≤ 7 * 16 = ground arith in
    let k = bit_and c.shift_clock noise_shift_mask in
    let scale : 2 ^ k ≤ 2 ^ 15 = pow-le-pow_right (omega arith) (bit_and-le c.shift_clock 15).1 in
    let bound : div * 2 ^ k ≤ 7 * 16 * 2 ^ 15 = mul-le-mul small scale in omega arith

pub trigger-IsNoise : (c : NoiseChannel) → IsNoise c → IsNoise (Noise.trigger c)
unfolding Noise.trigger
trigger-IsNoise c h = ground (arith, get_period-le c h.divisor)

pub tick_period-IsNoise :
    (c : NoiseChannel) (cycles : ℕ) → IsNoise c → IsNoise (Noise.tick_period c cycles)
unfolding Noise.tick_period
tick_period-IsNoise c cycles h =
    let steps = min (1 + (cycles - c.period_timer) / get_period c) 512 in
    ground (arith, get_period-le c h.divisor, shift_times-lt steps c.width_7bit c.lfsr)

pub tick_length-IsNoise : (c : NoiseChannel) → IsNoise c → IsNoise (Noise.tick_length c)
unfolding Noise.tick_length
tick_length-IsNoise c h = ground (
  arith,
  length_step-counter-le c.length_enabled
      (record { enabled = c.enabled; counter = c.length_counter }),
)

pub tick_envelope-IsNoise : (c : NoiseChannel) → IsNoise c → IsNoise (Noise.tick_envelope c)
unfolding Noise.tick_envelope
tick_envelope-IsNoise c h = ground (
  arith,
  envelope_step-volume-le c.env_period c.env_direction
      (record { volume = c.volume; env_enabled = c.env_enabled; env_timer = c.env_timer }),
)

pub write_noise-IsNoise :
    (c : NoiseChannel) (offset val : ℕ) → val < 256 → IsNoise c → IsNoise (write_noise c offset val)
unfolding write_noise
write_noise-IsNoise c offset val hv h = ground (
  arith,
  bit_and-le val 0x07,
  trigger-IsNoise (record c { length_enabled = bit_and val 0x40 != 0 }),
)
