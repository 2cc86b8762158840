-- ===== src/Psg/Chunks.antt =====
-- The channels of psg.rs advance alike however the caller cuts the elapsed cycles.
use emulator_app.Base.{ℕ, ◌+◌, ◌<◌, ◌≡◌, ◌∙◌, ap, sym, List, [], ◌∷◌, arith}
use native.Mathlib.Nat.{add_assoc, add-zero}
use emulator_app.Psg.Units.{Phase, reload_value}
use emulator_app.Psg.Phase.{
  advance_phase-add, steps_eight, steps_thirty_two, reload_value_bounds, advance_phase-timer-lt,
}
use emulator_app.Psg.Square1
use emulator_app.Psg.Square1.{Square1Channel}
use emulator_app.Psg.Square2
use emulator_app.Psg.Square2.{Square2Channel}
use emulator_app.Psg.Wave
use emulator_app.Psg.Wave.{WaveChannel}

square1-add :
    (c : Square1Channel) (a b : ℕ)
    → c.period_timer < 65536
    → Square1.tick_period c (a + b) ≡ Square1.tick_period (Square1.tick_period c a) b
unfolding Square1.tick_period
square1-add c a b h =
    let s : Phase = record { timer = c.period_timer; step = c.duty_pointer } in
    let p = reload_value c.period 4 in
    let range = reload_value_bounds c.period 4 (omega arith) (omega arith) in
    ground (arith, advance_phase-add 8 steps_eight p a b s range.0 range.1 h)

square2-add :
    (c : Square2Channel) (a b : ℕ)
    → c.period_timer < 65536
    → Square2.tick_period c (a + b) ≡ Square2.tick_period (Square2.tick_period c a) b
unfolding Square2.tick_period
square2-add c a b h =
    let s : Phase = record { timer = c.period_timer; step = c.duty_pointer } in
    let p = reload_value c.period 4 in
    let range = reload_value_bounds c.period 4 (omega arith) (omega arith) in
    ground (arith, advance_phase-add 8 steps_eight p a b s range.0 range.1 h)

wave-add :
    (c : WaveChannel) (a b : ℕ)
    → c.period_timer < 65536
    → Wave.tick_period c (a + b) ≡ Wave.tick_period (Wave.tick_period c a) b
unfolding Wave.tick_period
wave-add c a b h =
    let s : Phase = record { timer = c.period_timer; step = c.sample_pointer } in
    let p = reload_value c.period 2 in
    let range = reload_value_bounds c.period 2 (omega arith) (omega arith) in
    ground (arith, advance_phase-add 32 steps_thirty_two p a b s range.0 range.1 h)

-- A run of ticks, one for each chunk of cycles.
abbrev pub ticks {ℓ} : {C : Type ℓ} → (C → ℕ → C) → C → List ℕ → C
ticks tick c [] = c
ticks tick c (x ∷ xs) = ticks tick (tick c x) xs

abbrev pub total : List ℕ → ℕ
total [] = 0
total (x ∷ xs) = x + total xs

-- Additive ticks that keep a property add up over any list of chunks.
ticks-total {ℓ κ} :
    {C : Type ℓ} (P : C → Type κ) (tick : C → ℕ → C)
    → ((c : C) (a b : ℕ) → P c → tick c (a + b) ≡ tick (tick c a) b)
    → ((c : C) (a : ℕ) → P c → P (tick c a))
    → (c : C) (x : ℕ) (xs : List ℕ) → P c
    → ticks tick (tick c x) xs ≡ tick c (x + total xs)
ticks-total P tick add keep c x [] h = rw add-zero
ticks-total P tick add keep c x (y ∷ ys) h =
    ap (λ d. ticks tick d ys) (sym (add c x y h))
    ∙ ticks-total P tick add keep c (x + y) ys h
    ∙ ap (tick c) (add_assoc x y (total ys))

-- For each of the two square channels and the wave channel: ticking it chunk by chunk, for any cut
-- of the elapsed cycles into one or more chunks, gives the channel that one tick of their sum gives.
pub tick_period-chunks :
    (c1 : Square1Channel) (c2 : Square2Channel) (c3 : WaveChannel) (x : ℕ) (xs : List ℕ)
    → c1.period_timer < 65536
    → c2.period_timer < 65536
    → c3.period_timer < 65536
    → (ticks Square1.tick_period (Square1.tick_period c1 x) xs
        ≡ Square1.tick_period c1 (x + total xs))
      × (ticks Square2.tick_period (Square2.tick_period c2 x) xs
          ≡ Square2.tick_period c2 (x + total xs))
      × (ticks Wave.tick_period (Wave.tick_period c3 x) xs ≡ Wave.tick_period c3 (x + total xs))
unfolding Square1.tick_period Square2.tick_period Wave.tick_period
tick_period-chunks c1 c2 c3 x xs h1 h2 h3 = (
  ticks-total (λ c. c.period_timer < 65536) Square1.tick_period square1-add keep1 c1 x xs h1,
  ticks-total (λ c. c.period_timer < 65536) Square2.tick_period square2-add keep2 c2 x xs h2,
  ticks-total (λ c. c.period_timer < 65536) Wave.tick_period wave-add keep3 c3 x xs h3,
)
  where
    keep1 :
        (c : Square1Channel) (a : ℕ)
        → c.period_timer < 65536
        → (Square1.tick_period c a).period_timer < 65536
    keep1 c a h = ground (
      arith,
      advance_phase-timer-lt (reload_value c.period 4) 8 a
          (record { timer = c.period_timer; step = c.duty_pointer }),
    )

    keep2 :
        (c : Square2Channel) (a : ℕ)
        → c.period_timer < 65536
        → (Square2.tick_period c a).period_timer < 65536
    keep2 c a h = ground (
      arith,
      advance_phase-timer-lt (reload_value c.period 4) 8 a
          (record { timer = c.period_timer; step = c.duty_pointer }),
    )

    keep3 :
        (c : WaveChannel) (a : ℕ)
        → c.period_timer < 65536
        → (Wave.tick_period c a).period_timer < 65536
    keep3 c a h = ground (
      arith,
      advance_phase-timer-lt (reload_value c.period 2) 32 a
          (record { timer = c.period_timer; step = c.sample_pointer }),
    )
