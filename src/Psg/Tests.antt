-- ===== src/Psg/Tests.antt =====
-- Witnesses and tests of the sound channels.
use emulator_app.Base.{◌+◌, ◌-◌, ◌/◌, ◌%◌, ◌≡◌, List, [], ◌∷◌, arith, ltb}
use emulator_app.Psg.Square1
use emulator_app.Psg.Square2
use emulator_app.Psg.Wave
use emulator_app.Psg.Frame.{silent, write_channel_register}
use emulator_app.Psg.Chunks.{ticks, total, tick_period-chunks}
use emulator_app.Psg.Valid.{Event, write, sequence, advance, run, IsValid, run-IsValid}
use emulator_app.Psg.Notes.{sequencer, note_duration}

tick_period-chunks_example :
    (ticks Square1.tick_period (Square1.tick_period silent.ch1 5) (7 ∷ 300 ∷ [])
      ≡ Square1.tick_period silent.ch1 (5 + total (7 ∷ 300 ∷ [])))
    × (ticks Square2.tick_period (Square2.tick_period silent.ch2 5) (7 ∷ 300 ∷ [])
        ≡ Square2.tick_period silent.ch2 (5 + total (7 ∷ 300 ∷ [])))
    × (ticks Wave.tick_period (Wave.tick_period silent.ch3 5) (7 ∷ 300 ∷ [])
        ≡ Wave.tick_period silent.ch3 (5 + total (7 ∷ 300 ∷ [])))
unfolding silent Wave.default
tick_period-chunks_example =
    tick_period-chunks silent.ch1 silent.ch2 silent.ch3 5 (7 ∷ 300 ∷ []) (omega arith) (omega arith)
      (omega arith)

abbrev melody : List Event
melody = write 0x12 0xF3 ∷ write 0x14 0x87 ∷ advance 4000 ∷ sequence 7 ∷ []

run-IsValid_example : IsValid (run silent melody)
run-IsValid_example = run-IsValid melody (omega arith)

note_duration_example :
    (sequencer 9 0
      (write_channel_register (write_channel_register silent 0x16 0x3C) 0x19 0xC7)).ch2.enabled
    ≡ ltb ((9 + 1) / 2) (64 - 0x3C % 64)
note_duration_example = note_duration silent 0x3C 0xC7 9 (omega arith) (omega arith)
