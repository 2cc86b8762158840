-- ===== src/Psg/Valid/Squares.antt =====
-- The hardware ranges of the two square channels of psg.rs, and that each operation keeps them.
use emulator_app.Base.{ℕ, ◌/◌, ◌≤◌, ◌<◌, arith, bit_and, bit_and-le, ◌!=◌}
use emulator_app.Psg.Units.{reload_value}
use emulator_app.Psg.Ranges.{
  length_step-counter-le, envelope_step-volume-le, reload_value-le, advance_phase_range,
  low_period-lt, high_period-lt,
}
use emulator_app.Psg.Square1
use emulator_app.Psg.Square1.{Square1Channel}
use emulator_app.Psg.Square2
use emulator_app.Psg.Square2.{Square2Channel}
use emulator_app.Psg.Frame.{high_period, write_square1, write_square2}

pub record IsSquare1 (c : Square1Channel) : Type 0 where
  pub duty : c.duty < 4
  pub duty_pointer : c.duty_pointer < 8
  pub length_counter : c.length_counter ≤ 64
  pub period : c.period < 2048
  pub period_timer : c.period_timer ≤ 8192
  pub volume : c.volume ≤ 15
  pub env_period : c.env_period ≤ 7
  pub env_timer : c.env_timer ≤ 7
  pub env_initial_volume : c.env_initial_volume ≤ 15
  pub sweep_period : c.sweep_period ≤ 7
  pub sweep_timer : c.sweep_timer ≤ 7
  pub sweep_shift : c.sweep_shift ≤ 7
  pub shadow_frequency : c.shadow_frequency < 2048

pub record IsSquare2 (c : Square2Channel) : Type 0 where
  pub duty : c.duty < 4
  pub duty_pointer : c.duty_pointer < 8
  pub length_counter : c.length_counter ≤ 64
  pub period : c.period < 2048
  pub period_timer : c.period_timer ≤ 8192
  pub volume : c.volume ≤ 15
  pub env_period : c.env_period ≤ 7
  pub env_timer : c.env_timer ≤ 7
  pub env_initial_volume : c.env_initial_volume ≤ 15

pub trigger-IsSquare1 : (c : Square1Channel) → IsSquare1 c → IsSquare1 (Square1.trigger c)
unfolding Square1.trigger
trigger-IsSquare1 c h = ground (arith, reload_value-le c.period 4)

pub tick_period-IsSquare1 :
    (c : Square1Channel) (cycles : ℕ) → IsSquare1 c → IsSquare1 (Square1.tick_period c cycles)
unfolding Square1.tick_period
tick_period-IsSquare1 c cycles h = ground (
  arith,
  reload_value-le c.period 4,
  advance_phase_range 8192 (reload_value c.period 4) 8 cycles
      (record { timer = c.period_timer; step = c.duty_pointer }),
)

pub tick_length-IsSquare1 : (c : Square1Channel) → IsSquare1 c → IsSquare1 (Square1.tick_length c)
unfolding Square1.tick_length
tick_length-IsSquare1 c h = ground (
  arith,
  length_step-counter-le c.length_enabled
      (record { enabled = c.enabled; counter = c.length_counter }),
)

pub tick_envelope-IsSquare1 :
    (c : Square1Channel) → IsSquare1 c → IsSquare1 (Square1.tick_envelope c)
unfolding Square1.tick_envelope
tick_envelope-IsSquare1 c h = ground (
  arith,
  envelope_step-volume-le c.env_period c.env_direction
      (record { volume = c.volume; env_enabled = c.env_enabled; env_timer = c.env_timer }),
)

pub tick_sweep-IsSquare1 : (c : Square1Channel) → IsSquare1 c → IsSquare1 (Square1.tick_sweep c)
unfolding Square1.tick_sweep
tick_sweep-IsSquare1 c h = ground arith

pub write_square1-IsSquare1 :
    (c : Square1Channel) (offset val : ℕ)
    → val < 256
    → IsSquare1 c
    → IsSquare1 (write_square1 c offset val)
unfolding write_square1
write_square1-IsSquare1 c offset val hv h = ground (
  arith,
  low_period-lt c.period val,
  high_period-lt c.period val,
  bit_and-le val 0x07,
  bit_and-le (val / 16) 0x07,
  trigger-IsSquare1
      (record c { period = high_period c.period val; length_enabled = bit_and val 0x40 != 0 }),
)

pub trigger-IsSquare2 : (c : Square2Channel) → IsSquare2 c → IsSquare2 (Square2.trigger c)
unfolding Square2.trigger
trigger-IsSquare2 c h = ground (arith, reload_value-le c.period 4)

pub tick_period-IsSquare2 :
    (c : Square2Channel) (cycles : ℕ) → IsSquare2 c → IsSquare2 (Square2.tick_period c cycles)
unfolding Square2.tick_period
tick_period-IsSquare2 c cycles h = ground (
  arith,
  reload_value-le c.period 4,
  advance_phase_range 8192 (reload_value c.period 4) 8 cycles
      (record { timer = c.period_timer; step = c.duty_pointer }),
)

pub tick_length-IsSquare2 : (c : Square2Channel) → IsSquare2 c → IsSquare2 (Square2.tick_length c)
unfolding Square2.tick_length
tick_length-IsSquare2 c h = ground (
  arith,
  length_step-counter-le c.length_enabled
      (record { enabled = c.enabled; counter = c.length_counter }),
)

pub tick_envelope-IsSquare2 :
    (c : Square2Channel) → IsSquare2 c → IsSquare2 (Square2.tick_envelope c)
unfolding Square2.tick_envelope
tick_envelope-IsSquare2 c h = ground (
  arith,
  envelope_step-volume-le c.env_period c.env_direction
      (record { volume = c.volume; env_enabled = c.env_enabled; env_timer = c.env_timer }),
)

pub write_square2-IsSquare2 :
    (c : Square2Channel) (offset val : ℕ)
    → val < 256
    → IsSquare2 c
    → IsSquare2 (write_square2 c offset val)
unfolding write_square2
write_square2-IsSquare2 c offset val hv h = ground (
  arith,
  low_period-lt c.period val,
  high_period-lt c.period val,
  bit_and-le val 0x07,
  trigger-IsSquare2
      (record c { period = high_period c.period val; length_enabled = bit_and val 0x40 != 0 }),
)
