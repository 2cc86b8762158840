-- ===== src/Nds/Timers/Tests.antt =====
-- Witnesses and tests of the timers.
use emulator_app.Base.{◌≡◌, refl, arith, [], ◌∷◌}
use emulator_app.Nds.Timers.{Channel, advance, tick}
use emulator_app.Nds.Timers.Steps.{bumps}
use emulator_app.Nds.Timers.Batches.{advance-bumps}

-- A timer of period 16 with its interrupt, and one that counts its overflows.
abbrev fast : Channel
fast = record { reload = 0xFFF0; counter = 0xFFFE; control = 0xC0; acc = 0 }

abbrev counting : Channel
counting = record { reload = 0; counter = 0xFFFD; control = 0xC4; acc = 0 }

advanced :
    advance 0 (fast ∷ counting ∷ []) 40 0
    ≡ (record fast { counter = 0xFFF6 } ∷ record counting { counter = 0 } ∷ [], 24)
unfolding advance
advanced = refl

ticked : tick (fast ∷ counting ∷ []) 40 0 ≡ advance 0 (fast ∷ counting ∷ []) 40 0
unfolding tick
ticked = refl

advance-bumps_example : advance 0 (fast ∷ counting ∷ []) 40 0 ≡ bumps 40 0 (fast ∷ counting ∷ []) 0
advance-bumps_example = advance-bumps 40 0 (fast ∷ counting ∷ []) 0 (omega arith)
