-- ===== src/Psg/Valid.antt =====
-- The invariant of the four channels of psg.rs over whole runs: every field stays within its
-- hardware range. It holds of channels whose state comes from register writes; a save state may
-- hold others.
mod Squares
mod Others
pub use Squares.{IsSquare1, IsSquare2}
pub use Others.{IsWave, IsNoise}
use Squares.{
  tick_period-IsSquare1, tick_length-IsSquare1, tick_envelope-IsSquare1, tick_sweep-IsSquare1,
  write_square1-IsSquare1, tick_period-IsSquare2, tick_length-IsSquare2, tick_envelope-IsSquare2,
  write_square2-IsSquare2,
}
use Others.{
  tick_period-IsWave, tick_length-IsWave, write_wave-IsWave, tick_period-IsNoise,
  tick_length-IsNoise, tick_envelope-IsNoise, write_noise-IsNoise,
}
use emulator_app.Base.{
  ℕ, ◌<◌, ◌≤◌, ◌≡◌, ◌*◌, ◌/◌, ◌%◌, ◌^◌, ◌&&◌, Bool, true, false, List, [], ◌∷◌, arith, All,
  length-replicate, IsBytes-replicate, IsBytes, get_or, bit_and-le, bit_and_low, length, ◌==◌,
  if◌then◌else◌,
}
use emulator_app.Base.Int.{ℤ, pos_part, neg_part}
use emulator_app.Psg.Units.{square_amplitude}
use emulator_app.Psg.Square1
use emulator_app.Psg.Square2
use emulator_app.Psg.Wave
use emulator_app.Psg.Noise
use emulator_app.Psg.Frame.{
  Channels, silent, tick_lengths, tick_envelopes, tick_sweeps, frame_sequencer_step,
  write_channel_register,
}

pub record IsValid (s : Channels) : Type 0 where
  pub ch1 : IsSquare1 s.ch1
  pub ch2 : IsSquare2 s.ch2
  pub ch3 : IsWave s.ch3
  pub ch4 : IsNoise s.ch4

-- What a sound unit does with its channels.
pub data Event : Type 0 where
  write : ℕ → ℕ → Event
  sequence : ℕ → Event
  advance : ℕ → Event

-- The four calls of `tick_period` with the same cycles.
unfoldable pub tick_periods : ℕ → Channels → Channels
tick_periods cycles s = record {
  ch1 = Square1.tick_period s.ch1 cycles;
  ch2 = Square2.tick_period s.ch2 cycles;
  ch3 = Wave.tick_period s.ch3 cycles;
  ch4 = Noise.tick_period s.ch4 cycles;
}

unfoldable pub act : Channels → Event → Channels
act s (write offset val) = write_channel_register s offset val
act s (sequence step) = frame_sequencer_step step s
act s (advance cycles) = tick_periods cycles s

unfoldable pub run : Channels → List Event → Channels
run s [] = s
run s (e ∷ es) = run (act s e) es

abbrev pub IsByteWrite : Event → Type 0
IsByteWrite (write offset val) = val < 256
IsByteWrite (sequence step) = Unit
IsByteWrite (advance cycles) = Unit

tick_lengths-IsValid : (s : Channels) → IsValid s → IsValid (tick_lengths s)
unfolding tick_lengths
tick_lengths-IsValid s h = record {
  ch1 = tick_length-IsSquare1 s.ch1 h.ch1;
  ch2 = tick_length-IsSquare2 s.ch2 h.ch2;
  ch3 = tick_length-IsWave s.ch3 h.ch3;
  ch4 = tick_length-IsNoise s.ch4 h.ch4;
}

tick_envelopes-IsValid : (s : Channels) → IsValid s → IsValid (tick_envelopes s)
unfolding tick_envelopes
tick_envelopes-IsValid s h = record {
  ch1 = tick_envelope-IsSquare1 s.ch1 h.ch1;
  ch2 = tick_envelope-IsSquare2 s.ch2 h.ch2;
  ch3 = h.ch3;
  ch4 = tick_envelope-IsNoise s.ch4 h.ch4;
}

tick_sweeps-IsValid : (s : Channels) → IsValid s → IsValid (tick_sweeps s)
unfolding tick_sweeps
tick_sweeps-IsValid s h = record {
  ch1 = tick_sweep-IsSquare1 s.ch1 h.ch1;
  ch2 = h.ch2;
  ch3 = h.ch3;
  ch4 = h.ch4;
}

if-IsValid : (b : Bool) (s t : Channels) → IsValid s → IsValid t → IsValid (if b then s else t)
if-IsValid true s t hs ht = hs
if-IsValid false s t hs ht = ht

frame_sequencer_step-IsValid :
    (step : ℕ) (s : Channels) → IsValid s → IsValid (frame_sequencer_step step s)
unfolding frame_sequencer_step
frame_sequencer_step-IsValid step s h =
    let h1 = if-IsValid _ (tick_lengths s) s (tick_lengths-IsValid s h) h in
    let h2 = if-IsValid _ _ _ (tick_sweeps-IsValid _ h1) h1 in
    if-IsValid _ _ _ (tick_envelopes-IsValid _ h2) h2

act-IsValid : (s : Channels) (e : Event) → IsByteWrite e → IsValid s → IsValid (act s e)
unfolding act
act-IsValid s (write offset val) b h =
    unfold write_channel_register in
    record {
      ch1 = write_square1-IsSquare1 s.ch1 offset val b h.ch1;
      ch2 = write_square2-IsSquare2 s.ch2 offset val b h.ch2;
      ch3 = write_wave-IsWave s.ch3 offset val b h.ch3;
      ch4 = write_noise-IsNoise s.ch4 offset val b h.ch4;
    }
act-IsValid s (sequence step) b h = frame_sequencer_step-IsValid step s h
act-IsValid s (advance cycles) b h =
    unfold tick_periods in
    record {
      ch1 = tick_period-IsSquare1 s.ch1 cycles h.ch1;
      ch2 = tick_period-IsSquare2 s.ch2 cycles h.ch2;
      ch3 = tick_period-IsWave s.ch3 cycles h.ch3;
      ch4 = tick_period-IsNoise s.ch4 cycles h.ch4;
    }

silent-IsValid : IsValid silent
unfolding silent Wave.default
silent-IsValid = record {
  ch1 = omega arith;
  ch2 = omega arith;
  ch3 = record {
    length_counter = omega arith;
    period = omega arith;
    period_timer = omega arith;
    volume_shift = omega arith;
    wave_size = length-replicate 16 0;
    wave_bytes = IsBytes-replicate 16 0 (omega arith);
    sample_pointer = omega arith;
  };
  ch4 = omega arith;
}

run_from-IsValid :
    (s : Channels) (es : List Event) → All IsByteWrite es → IsValid s → IsValid (run s es)
unfolding run
run_from-IsValid s [] b h = h
run_from-IsValid s (e ∷ es) b h = run_from-IsValid (act s e) es b.1 (act-IsValid s e b.0 h)

-- From the default channels, any sequence of byte-wide register writes, sequencer steps and period
-- ticks keeps the fields of the four channels within these ranges: duties below 4 and their pointers
-- below 8, length counters up to 64 (wave 256), periods and the shadow frequency below 2048, period
-- timers up to 8192 (wave 4096, noise 7 * 16 * 2 ^ 15), volumes up to 15, envelope and sweep settings
-- and timers up to 7, sixteen bytes of wave memory with a pointer below 32, a shift register below
-- 32768, noise divisor up to 7 and shift up to 15.
pub run-IsValid : (es : List Event) → All IsByteWrite es → IsValid (run silent es)
run-IsValid es b = run_from-IsValid silent es b silent-IsValid
