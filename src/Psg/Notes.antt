-- ===== src/Psg/Notes.antt =====
-- How long a note of psg.rs sounds, and how loud.
use emulator_app.Base.{
  ℕ, zero, suc, ◌+◌, ◌-◌, ◌/◌, ◌%◌, ◌≤◌, ◌<◌, ◌≡◌, Bool, true, ltb, ◌==◌, if◌then◌else◌, arith,
  bit_and, bit_and_low, bit_and_bit, bit_and-le, get_or, List, [], ◌∷◌,
}
use emulator_app.Base.Int.{ℤ, pos_part, neg_part}
use emulator_app.Psg.Units.{length_step, square_amplitude}
use emulator_app.Psg.Square1
use emulator_app.Psg.Square1.{Square1Channel}
use emulator_app.Psg.Square2
use emulator_app.Psg.Square2.{Square2Channel}
use emulator_app.Psg.Wave
use emulator_app.Psg.Wave.{WaveChannel, sample}
use emulator_app.Psg.Noise
use emulator_app.Psg.Noise.{NoiseChannel}
use emulator_app.Psg.Frame.{
  Channels, tick_lengths, tick_envelopes, tick_sweeps, frame_sequencer_step, write_square2,
  write_channel_register,
}
use emulator_app.Psg.Valid.{IsValid, IsWave}

-- `n` sequencer steps from a given one, as both sound units run them.
unfoldable pub sequencer : ℕ → ℕ → Channels → Channels
sequencer zero step s = s
sequencer (suc n) step s = sequencer n ((step + 1) % 8) (frame_sequencer_step step s)

-- The length ticks among them: one at each even step.
abbrev pub length_ticks : ℕ → ℕ → ℕ
length_ticks n step = if step % 2 == 0 then (n + 1) / 2 else n / 2

-- A note of channel 2 that its length counter governs: it sounds as long as the counter is not 0.
record IsTimed (s : Channels) : Type 0 where
  timed : s.ch2.length_enabled ≡ true
  sounding : s.ch2.enabled ≡ ltb 0 s.ch2.length_counter

step-IsTimed :
    (step : ℕ) (s : Channels)
    → step < 8
    → IsTimed s
    → IsTimed (frame_sequencer_step step s)
      × ((frame_sequencer_step step s).ch2.length_counter
          ≡ s.ch2.length_counter - (if step % 2 == 0 then 1 else 0))
unfolding frame_sequencer_step tick_lengths tick_envelopes tick_sweeps Square2.tick_length
    Square2.tick_envelope length_step
step-IsTimed step s lim h = ground arith

sequencer_timed :
    (n step : ℕ) (s : Channels)
    → step < 8
    → IsTimed s
    → (sequencer n step s).ch2.enabled ≡ ltb (length_ticks n step) s.ch2.length_counter
unfolding sequencer
sequencer_timed zero step s lim h = ground arith
sequencer_timed (suc n) step s lim h =
    let one = step-IsTimed step s lim h in
    ground (
      arith,
      sequencer_timed n ((step + 1) % 8) (frame_sequencer_step step s) (omega arith) one.0,
      one.1,
    )

started :
    (s : Channels) (v high : ℕ)
    → v < 256
    → high / 64 % 4 ≡ 3
    → let t = write_channel_register (write_channel_register s 0x16 v) 0x19 high in
      IsTimed t × (t.ch2.length_counter ≡ 64 - v % 64)
unfolding write_channel_register write_square2 Square2.trigger
started s v high hv hh = ground (arith, bit_and_low 6 v, bit_and_bit 7 high, bit_and_bit 6 high)

-- A note of channel 2 that is started with its length enabled (bits 6 and 7 of NR24), after the
-- length `v` was written to NR21, sounds for exactly `64 - v % 64` length ticks of the sequencer: it
-- is on after `n` steps from step 0 while the even steps among them are fewer, and off from then on.
pub note_duration :
    (s : Channels) (v high n : ℕ)
    → v < 256
    → high / 64 % 4 ≡ 3
    → (sequencer n 0
        (write_channel_register (write_channel_register s 0x16 v) 0x19 high)).ch2.enabled
      ≡ ltb ((n + 1) / 2) (64 - v % 64)
note_duration s v high n hv hh =
    let t = write_channel_register (write_channel_register s 0x16 v) 0x19 high in
    let begun = started s v high hv hh in
    ground (arith, sequencer_timed n 0 t (omega arith) begun.0, begun.1)

abbrev pub Within : ℕ → ℤ → Type 0
Within n a = (pos_part a ≤ n) × (neg_part a ≤ n)

square_amplitude-Within :
    (on : Bool) (volume duty at : ℕ) → volume ≤ 15 → Within 15 (square_amplitude on volume duty at)
unfolding square_amplitude
square_amplitude-Within on volume duty at h = ground arith

sample-le : (c : WaveChannel) → IsWave c → sample c ≤ 15
unfolding sample
sample-le c h =
    let i = bit_and c.sample_pointer 0x1F / 2 in
    ground (arith, in_wave c i h, bit_and-le (get_or c.wave_ram i 0) 0x0F)
  where
    in_wave : (d : WaveChannel) (i : ℕ) → IsWave d → get_or d.wave_ram i 0 < 256
    in_wave d i k = default_free d.wave_ram i (k.wave_bytes i)
      where
        default_free : (xs : List ℕ) (j : ℕ) → get_or xs j 0xFF < 256 → get_or xs j 0 < 256
        default_free [] j b = omega arith
        default_free (x ∷ xs) zero b = b
        default_free (x ∷ xs) (suc j) b = default_free xs j b

wave_amplitude-Within : (c : WaveChannel) → IsWave c → Within 60 (Wave.get_amplitude c)
unfolding Wave.get_amplitude
wave_amplitude-Within c h = ground (arith, sample-le c h)

noise_amplitude-Within : (c : NoiseChannel) → c.volume ≤ 15 → Within 15 (Noise.get_amplitude c)
unfolding Noise.get_amplitude
noise_amplitude-Within c h = ground arith

-- Each channel within its hardware ranges puts out an amplitude between -1 and 1: at most 15
-- fifteenths for the squares and the noise, and 60 sixtieths for the wave.
pub get_amplitude-Within :
    (s : Channels)
    → IsValid s
    → Within 15 (Square1.get_amplitude s.ch1)
      × Within 15 (Square2.get_amplitude s.ch2)
      × Within 60 (Wave.get_amplitude s.ch3)
      × Within 15 (Noise.get_amplitude s.ch4)
get_amplitude-Within s h = (
  unfold Square1.get_amplitude in square_amplitude-Within _ _ _ _ h.ch1.volume,
  unfold Square2.get_amplitude in square_amplitude-Within _ _ _ _ h.ch2.volume,
  wave_amplitude-Within s.ch3 h.ch3,
  noise_amplitude-Within s.ch4 h.ch4.volume,
)
