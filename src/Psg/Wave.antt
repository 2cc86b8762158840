-- ===== src/Psg/Wave.antt =====
-- psg.rs: `WaveChannel`.
use emulator_app.Base.{
  ℕ, ◌*◌, ◌/◌, ◌%◌, Bool, true, false, not, ◌||◌, List, ◌==◌, if◌then◌else◌, bit_and, get_or,
  replicate, ◌>>◌,
}
use emulator_app.Base.Int.{ℤ, pos, sub_ℕ}
use emulator_app.Psg.Units.{wave_step_mask, reload_value, advance_phase, length_step}

pub record WaveChannel : Type 0 where
  pub enabled : Bool
  pub dac_enabled : Bool
  pub length_enabled : Bool
  pub length_counter : ℕ
  pub period : ℕ
  pub period_timer : ℕ
  pub volume_shift : ℕ
  pub wave_ram : List ℕ
  pub sample_pointer : ℕ

unfoldable pub default : WaveChannel
default = record {
  enabled = false;
  dac_enabled = false;
  length_enabled = false;
  length_counter = 0;
  period = 0;
  period_timer = 0;
  volume_shift = 0;
  wave_ram = replicate 16 0;
  sample_pointer = 0;
}

unfoldable pub trigger : WaveChannel → WaveChannel
trigger c = record c {
  enabled = true;
  length_counter = if c.length_counter == 0 then 256 else c.length_counter;
  period_timer = reload_value c.period 2;
  sample_pointer = 0;
}

unfoldable pub tick_period : WaveChannel → ℕ → WaveChannel
tick_period c cycles =
    let s =
      advance_phase (reload_value c.period 2) 32 cycles
        (record { timer = c.period_timer; step = c.sample_pointer }) in
    if not c.enabled || not c.dac_enabled
    then c
    else record c { period_timer = s.timer; sample_pointer = s.step }

-- The four-bit sample under the pointer. `wave_ram` has 16 bytes and the index is below 16.
unfoldable pub sample : WaveChannel → ℕ
sample c =
    let step = bit_and c.sample_pointer wave_step_mask in
    let byte = get_or c.wave_ram (step / 2) 0 in
    if step % 2 == 0 then byte >> 4 else bit_and byte 0x0F

-- An amplitude `n / 60`, as the integer `n`: the source computes it in `f64`, with the volumes 1,
-- 0.5 and 0.25.
unfoldable pub get_amplitude : WaveChannel → ℤ
get_amplitude c =
    let quarters =
      if c.volume_shift == 1
      then 4
      else if c.volume_shift == 2
      then 2
      else if c.volume_shift == 3
      then 1
      else 0 in
    if not c.enabled || not c.dac_enabled || c.volume_shift == 0
    then pos 0
    else sub_ℕ (2 * sample c * quarters) (15 * quarters)

unfoldable pub tick_length : WaveChannel → WaveChannel
tick_length c =
    let s =
      length_step c.length_enabled (record { enabled = c.enabled; counter = c.length_counter }) in
    record c { enabled = s.enabled; length_counter = s.counter }
