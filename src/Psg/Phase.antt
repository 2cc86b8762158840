-- ===== src/Psg/Phase.antt =====
-- The period timers of psg.rs do not depend on how the elapsed cycles are cut into chunks.
use native.Mathlib.Nat.{mod-lt}
use native.Mathlib.Decide.{dec_lt}
use emulator_app.Base.{ℕ, ◌+◌, ◌-◌, ◌/◌, ◌%◌, ◌≤◌, ◌<◌, ◌≡◌, arith, bit_and_low, u8, u16}
use emulator_app.Base.Division.{carried, uncarried}
use emulator_app.Psg.Units.{Phase, advance_phase, reload_value}

-- The timer and the position after `a + b` cycles are those after `a` and then `b`, for a waveform of
-- `n` positions on which the steps of the two parts add up.
pub advance_phase-add :
    (n : ℕ)
    → ((x y z : ℕ) → u8 ((u8 ((x + y) % n) + z) % n) ≡ u8 ((x + (y + z)) % n))
    → (p a b : ℕ) (s : Phase) → 0 < p
    → p < 65536
    → s.timer < 65536
    → advance_phase p n (a + b) s ≡ advance_phase p n b (advance_phase p n a s)
unfolding advance_phase
advance_phase-add n steps p a b s h lim t = elim (dec_lt a s.timer) [
  | yes early ↦
      let same : a + b - s.timer ≡ b - (s.timer - a) = omega arith in
      let kept : u16 (s.timer - a) ≡ s.timer - a = omega arith in ground (arith, same, kept)
  | no late ↦
      let o = a - s.timer in
      let whole : a + b - s.timer ≡ o + b = omega arith in
      let left : u16 (p - o % p) ≡ p - o % p = omega (arith, mod-lt o h) in
      let moved = steps s.step (1 + o / p) (1 + (b - (p - o % p)) / p) in
      elim (dec_lt b (p - o % p)) [
        | yes short ↦ ground (arith, whole, left, uncarried p o b h short, mod-lt o h)
        | no long ↦ ground (arith, whole, left, moved, carried p o b h (omega arith), mod-lt o h)
      ]
]

pub steps_eight : (x y z : ℕ) → u8 ((u8 ((x + y) % 8) + z) % 8) ≡ u8 ((x + (y + z)) % 8)
steps_eight x y z = omega arith

pub steps_thirty_two : (x y z : ℕ) → u8 ((u8 ((x + y) % 32) + z) % 32) ≡ u8 ((x + (y + z)) % 32)
steps_thirty_two x y z = omega arith

pub reload_value_bounds :
    (period scale : ℕ)
    → 0 < scale
    → scale ≤ 4
    → (0 < reload_value period scale) × (reload_value period scale < 65536)
unfolding reload_value
reload_value_bounds period scale pos lim = grind (arith, bit_and_low 11 period)

pub advance_phase-timer-lt :
    (p n cycles : ℕ) (s : Phase) → (advance_phase p n cycles s).timer < 65536
unfolding advance_phase
advance_phase-timer-lt p n cycles s = ground arith
