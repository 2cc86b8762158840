-- ===== src/Psg/Frame.antt =====
-- psg.rs: `frame_sequencer_step` and `write_channel_register`. The four `&mut` channels, which the
-- source passes as distinct objects, are the fields of one record.
use emulator_app.Base.{
  ℕ, ◌-◌, Bool, false, ◌&&◌, ◌||◌, leb, ◌==◌, ◌!=◌, if◌then◌else◌, bit_and, bit_or, set, u16, ◌>>◌,
  ◌<<◌,
}
use emulator_app.Psg.Square1
use emulator_app.Psg.Square1.{Square1Channel}
use emulator_app.Psg.Square2
use emulator_app.Psg.Square2.{Square2Channel}
use emulator_app.Psg.Wave
use emulator_app.Psg.Wave.{WaveChannel}
use emulator_app.Psg.Noise
use emulator_app.Psg.Noise.{NoiseChannel}

pub record Channels : Type 0 where
  pub ch1 : Square1Channel
  pub ch2 : Square2Channel
  pub ch3 : WaveChannel
  pub ch4 : NoiseChannel

-- The derived `Default` of the four channels.
unfoldable pub silent : Channels
silent = record {
  ch1 = record {
    enabled = false;
    duty = 0;
    duty_pointer = 0;
    length_enabled = false;
    length_counter = 0;
    period = 0;
    period_timer = 0;
    volume = 0;
    env_enabled = false;
    env_period = 0;
    env_timer = 0;
    env_direction = false;
    env_initial_volume = 0;
    sweep_enabled = false;
    sweep_period = 0;
    sweep_timer = 0;
    sweep_shift = 0;
    sweep_direction = false;
    shadow_frequency = 0;
  };
  ch2 = record {
    enabled = false;
    duty = 0;
    duty_pointer = 0;
    length_enabled = false;
    length_counter = 0;
    period = 0;
    period_timer = 0;
    volume = 0;
    env_enabled = false;
    env_period = 0;
    env_timer = 0;
    env_direction = false;
    env_initial_volume = 0;
  };
  ch3 = Wave.default;
  ch4 = record {
    enabled = false;
    length_enabled = false;
    length_counter = 0;
    volume = 0;
    env_enabled = false;
    env_period = 0;
    env_timer = 0;
    env_direction = false;
    env_initial_volume = 0;
    lfsr = 0;
    divisor = 0;
    shift_clock = 0;
    width_7bit = false;
    period_timer = 0;
  };
}

unfoldable pub tick_lengths : Channels → Channels
tick_lengths s = record {
  ch1 = Square1.tick_length s.ch1;
  ch2 = Square2.tick_length s.ch2;
  ch3 = Wave.tick_length s.ch3;
  ch4 = Noise.tick_length s.ch4;
}

unfoldable pub tick_envelopes : Channels → Channels
tick_envelopes s = record s {
  ch1 = Square1.tick_envelope s.ch1;
  ch2 = Square2.tick_envelope s.ch2;
  ch4 = Noise.tick_envelope s.ch4;
}

unfoldable pub tick_sweeps : Channels → Channels
tick_sweeps s = record s { ch1 = Square1.tick_sweep s.ch1 }

unfoldable pub frame_sequencer_step : ℕ → Channels → Channels
frame_sequencer_step step s =
    let s1 = if step == 0 || step == 2 || step == 4 || step == 6 then tick_lengths s else s in
    let s2 = if step == 2 || step == 6 then tick_sweeps s1 else s1 in
    if step == 7 then tick_envelopes s2 else s2

-- `(period & 0x0700) | val` and `(period & 0x00FF) | ((val & 0x07) << 8)`
unfoldable pub low_period : ℕ → ℕ → ℕ
low_period period val = bit_or (bit_and period 0x0700) val

unfoldable pub high_period : ℕ → ℕ → ℕ
high_period period val = bit_or (bit_and period 0x00FF) (u16 (bit_and val 0x07 << 8))

abbrev short_length : ℕ → ℕ
short_length val = 64 - bit_and val 0x3F

abbrev triggers : ℕ → Bool
triggers val = bit_and val 0x80 != 0

unfoldable pub write_square1 : Square1Channel → ℕ → ℕ → Square1Channel
write_square1 c offset val =
    let noted : Square1Channel = record c {
      period = high_period c.period val;
      length_enabled = bit_and val 0x40 != 0;
    } in
    if offset == 0x10
    then record c {
      sweep_period = bit_and (val >> 4) 0x07;
      sweep_direction = bit_and val 0x08 != 0;
      sweep_shift = bit_and val 0x07;
    }
    else if offset == 0x11
    then record c { duty = val >> 6; length_counter = short_length val }
    else if offset == 0x12
    then record c {
      env_initial_volume = val >> 4;
      env_direction = bit_and val 0x08 != 0;
      env_period = bit_and val 0x07;
    }
    else if offset == 0x13
    then record c { period = low_period c.period val }
    else if offset == 0x14
    then if triggers val then Square1.trigger noted else noted
    else c

unfoldable pub write_square2 : Square2Channel → ℕ → ℕ → Square2Channel
write_square2 c offset val =
    let noted : Square2Channel = record c {
      period = high_period c.period val;
      length_enabled = bit_and val 0x40 != 0;
    } in
    if offset == 0x16
    then record c { duty = val >> 6; length_counter = short_length val }
    else if offset == 0x17
    then record c {
      env_initial_volume = val >> 4;
      env_direction = bit_and val 0x08 != 0;
      env_period = bit_and val 0x07;
    }
    else if offset == 0x18
    then record c { period = low_period c.period val }
    else if offset == 0x19
    then if triggers val then Square2.trigger noted else noted
    else c

unfoldable pub write_wave : WaveChannel → ℕ → ℕ → WaveChannel
write_wave c offset val =
    let dac = bit_and val 0x80 != 0 in
    let noted : WaveChannel = record c {
      period = high_period c.period val;
      length_enabled = bit_and val 0x40 != 0;
    } in
    if offset == 0x1A
    then record c { dac_enabled = dac; enabled = if dac then c.enabled else false }
    else if offset == 0x1B
    then record c { length_counter = 256 - val }
    else if offset == 0x1C
    then record c { volume_shift = bit_and (val >> 5) 0x03 }
    else if offset == 0x1D
    then record c { period = low_period c.period val }
    else if offset == 0x1E
    then if triggers val then Wave.trigger noted else noted
    else if leb 0x30 offset && leb offset 0x3F
    then record c { wave_ram = set c.wave_ram (offset - 0x30) val }
    else c

unfoldable pub write_noise : NoiseChannel → ℕ → ℕ → NoiseChannel
write_noise c offset val =
    let noted : NoiseChannel = record c { length_enabled = bit_and val 0x40 != 0 } in
    if offset == 0x20
    then record c { length_counter = short_length val }
    else if offset == 0x21
    then record c {
      env_initial_volume = val >> 4;
      env_direction = bit_and val 0x08 != 0;
      env_period = bit_and val 0x07;
    }
    else if offset == 0x22
    then record c {
      shift_clock = val >> 4;
      width_7bit = bit_and val 0x08 != 0;
      divisor = bit_and val 0x07;
    }
    else if offset == 0x23
    then if triggers val then Noise.trigger noted else noted
    else c

-- The arms of the one `match` touch one channel each, so they are grouped by channel.
unfoldable pub write_channel_register : Channels → ℕ → ℕ → Channels
write_channel_register s offset val = record {
  ch1 = write_square1 s.ch1 offset val;
  ch2 = write_square2 s.ch2 offset val;
  ch3 = write_wave s.ch3 offset val;
  ch4 = write_noise s.ch4 offset val;
}
