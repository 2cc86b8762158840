-- ===== src/Psg/Square2.antt =====
-- psg.rs: `Square2Channel`.
use emulator_app.Base.{ℕ, Bool, true, not, ltb, ◌==◌, if◌then◌else◌}
use emulator_app.Base.Int.{ℤ}
use emulator_app.Psg.Units.{
  reload_value, advance_phase, length_step, envelope_step, square_amplitude,
}

pub record Square2Channel : Type 0 where
  pub enabled : Bool
  pub duty : ℕ
  pub duty_pointer : ℕ
  pub length_enabled : Bool
  pub length_counter : ℕ
  pub period : ℕ
  pub period_timer : ℕ
  pub volume : ℕ
  pub env_enabled : Bool
  pub env_period : ℕ
  pub env_timer : ℕ
  pub env_direction : Bool
  pub env_initial_volume : ℕ

unfoldable pub trigger : Square2Channel → Square2Channel
trigger c = record c {
  enabled = true;
  length_counter = if c.length_counter == 0 then 64 else c.length_counter;
  period_timer = reload_value c.period 4;
  env_timer = c.env_period;
  volume = c.env_initial_volume;
  env_enabled = ltb 0 c.env_period;
}

unfoldable pub tick_period : Square2Channel → ℕ → Square2Channel
tick_period c cycles =
    let s =
      advance_phase (reload_value c.period 4) 8 cycles
        (record { timer = c.period_timer; step = c.duty_pointer }) in
    if not c.enabled then c else record c { period_timer = s.timer; duty_pointer = s.step }

unfoldable pub get_amplitude : Square2Channel → ℤ
get_amplitude c = square_amplitude c.enabled c.volume c.duty c.duty_pointer

unfoldable pub tick_length : Square2Channel → Square2Channel
tick_length c =
    let s =
      length_step c.length_enabled (record { enabled = c.enabled; counter = c.length_counter }) in
    record c { enabled = s.enabled; length_counter = s.counter }

unfoldable pub tick_envelope : Square2Channel → Square2Channel
tick_envelope c =
    let s =
      envelope_step c.env_period c.env_direction
        (record { volume = c.volume; env_enabled = c.env_enabled; env_timer = c.env_timer }) in
    record c { volume = s.volume; env_enabled = s.env_enabled; env_timer = s.env_timer }
