-- ===== src/Psg/Square1.antt =====
-- psg.rs: `Square1Channel`, the square channel with a frequency sweep.
use emulator_app.Base.{
  ℕ, ◌+◌, ◌-◌, Bool, true, false, not, ◌||◌, ltb, ◌==◌, if◌then◌else◌, bit_and, u16, ◌>>◌,
}
use emulator_app.Base.Int.{ℤ}
use emulator_app.Psg.Units.{
  sweep_shift_mask, reload_value, advance_phase, length_step, envelope_step, square_amplitude,
}

pub record Square1Channel : Type 0 where
  pub enabled : Bool
  pub duty : ℕ
  pub duty_pointer : ℕ
  pub length_enabled : Bool
  pub length_counter : ℕ
  pub period : ℕ
  pub period_timer : ℕ
  pub volume : ℕ
  pub env_enabled : Bool
  pub env_period : ℕ
  pub env_timer : ℕ
  pub env_direction : Bool
  pub env_initial_volume : ℕ
  pub sweep_enabled : Bool
  pub sweep_period : ℕ
  pub sweep_timer : ℕ
  pub sweep_shift : ℕ
  pub sweep_direction : Bool
  pub shadow_frequency : ℕ

unfoldable pub trigger : Square1Channel → Square1Channel
trigger c = record c {
  enabled = true;
  length_counter = if c.length_counter == 0 then 64 else c.length_counter;
  period_timer = reload_value c.period 4;
  env_timer = c.env_period;
  volume = c.env_initial_volume;
  env_enabled = ltb 0 c.env_period;
  shadow_frequency = c.period;
  sweep_timer = c.sweep_period;
  sweep_enabled = ltb 0 c.sweep_period || ltb 0 c.sweep_shift;
}

unfoldable pub tick_period : Square1Channel → ℕ → Square1Channel
tick_period c cycles =
    let s =
      advance_phase (reload_value c.period 4) 8 cycles
        (record { timer = c.period_timer; step = c.duty_pointer }) in
    if not c.enabled then c else record c { period_timer = s.timer; duty_pointer = s.step }

unfoldable pub get_amplitude : Square1Channel → ℤ
get_amplitude c = square_amplitude c.enabled c.volume c.duty c.duty_pointer

unfoldable pub tick_length : Square1Channel → Square1Channel
tick_length c =
    let s =
      length_step c.length_enabled (record { enabled = c.enabled; counter = c.length_counter }) in
    record c { enabled = s.enabled; length_counter = s.counter }

unfoldable pub tick_envelope : Square1Channel → Square1Channel
tick_envelope c =
    let s =
      envelope_step c.env_period c.env_direction
        (record { volume = c.volume; env_enabled = c.env_enabled; env_timer = c.env_timer }) in
    record c { volume = s.volume; env_enabled = s.env_enabled; env_timer = s.env_timer }

-- `wrapping_sub` and `wrapping_add` on `u16`.
unfoldable pub swept : Square1Channel → ℕ
swept c =
    let delta = c.shadow_frequency >> bit_and c.sweep_shift sweep_shift_mask in
    if c.sweep_direction
    then u16 (c.shadow_frequency + 65536 - delta)
    else u16 (c.shadow_frequency + delta)

unfoldable pub tick_sweep : Square1Channel → Square1Channel
unfolding swept
tick_sweep c =
    let left = c.sweep_timer - 1 in
    let new_freq = swept c in
    let fired : Square1Channel = record c { sweep_timer = c.sweep_period } in
    if not c.sweep_enabled || c.sweep_period == 0
    then c
    else if ltb 0 c.sweep_timer
    then if left == 0
      then if ltb 2047 new_freq
        then record fired { enabled = false; sweep_enabled = false }
        else if ltb 0 c.sweep_shift
        then record fired { shadow_frequency = new_freq; period = new_freq }
        else fired
      else record c { sweep_timer = left }
    else c
