-- ===== src/Psg/Lfsr.antt =====
-- The shift register of the noise channel in psg.rs.
use emulator_app.Base.{
  ℕ, zero, suc, ◌+◌, ◌*◌, ◌/◌, ◌%◌, ◌^◌, ◌<◌, ◌≡◌, ◌∙◌, refl, Bool, true, false, arith, bit_and,
  bit_or, bit_xor, bit_and_low, bit_and-one, bit_and_cut, bit_or_cut, bit_or_add, bit_or_add_high,
  bit_or-zero, Bool-cases, inl, inr, ltb, List, [], ◌∷◌,
}
use emulator_app.Psg.Noise.{NoiseChannel, shift_lfsr, shift_times, trigger, tick_period}

-- The bit that is fed back: the sum of the two lowest.
abbrev pub feedback : ℕ → ℕ
feedback lfsr = (lfsr % 2 + lfsr / 2 % 2) % 2

xor_bits : (x y : ℕ) → x < 2 → y < 2 → bit_xor x y ≡ (x + y) % 2
xor_bits zero zero hx hy = refl
xor_bits zero (suc zero) hx hy = refl
xor_bits (suc zero) zero hx hy = refl
xor_bits (suc zero) (suc zero) hx hy = refl
xor_bits (suc (suc x)) y hx hy = absurd (omega arith)
xor_bits zero (suc (suc y)) hx hy = absurd (omega arith)
xor_bits (suc zero) (suc (suc y)) hx hy = absurd (omega arith)

pub feed_lem : (l : ℕ) → bit_xor (bit_and l 1) (bit_and (l / 2) 1) ≡ feedback l
feed_lem l =
    rw (bit_and-one l, bit_and-one (l / 2))
      (xor_bits (l % 2) (l / 2 % 2) (omega arith) (omega arith))

pub shifted_lem :
    (l : ℕ) → l < 2 ^ 15 → bit_or (l / 2) (feedback l * 16384 % 65536) ≡ l / 2 + feedback l * 16384
shifted_lem l h =
    let fits : feedback l * 16384 % 65536 ≡ feedback l * 16384 = omega arith in
    rw fits
      (bit_or_add_high 14 (l / 2) (feedback l * 16384) (omega arith) (omega arith) ∙ omega arith)

-- `sh & !(1 << 6)`
cleared_lem : (sh : ℕ) → sh < 65536 → bit_and sh 65471 ≡ sh / 128 * 128 + sh % 64
cleared_lem sh h =
    ground (arith, bit_and_cut 7 sh 65471, bit_and_low 9 (sh / 128), bit_and_low 6 (sh % 128))

put_bit6 :
    (hi lo b : ℕ) → lo < 64 → b < 2 → bit_or (hi * 128 + lo) (b * 64) ≡ hi * 128 + b * 64 + lo
put_bit6 hi lo b hl hb =
    ground (arith, bit_or_cut 6 (hi * 128 + lo) (b * 64), bit_or_add 1 (hi * 2) b, bit_or-zero lo)

pub narrow_lem :
    (l : ℕ)
    → l < 2 ^ 15
    → shift_lfsr true l
      ≡ let sh = l / 2 + feedback l * 16384 in sh / 128 * 128 + feedback l * 64 + sh % 64
unfolding shift_lfsr
narrow_lem l h =
    let sh = l / 2 + feedback l * 16384 in
    let fits : feedback l * 64 % 65536 ≡ feedback l * 64 = omega arith in
    rw (feed_lem l, shifted_lem l h, cleared_lem sh (omega arith), fits)
      (put_bit6 (sh / 128) (sh % 64) (feedback l) (omega arith) (omega arith))

-- In 15-bit mode one clock halves the register and feeds the sum of its two lowest bits back at the
-- top. In 7-bit mode the low seven bits are a shift register of their own in the same way, whatever
-- the upper bits hold.
pub shift_lfsr-feedback :
    (l : ℕ)
    → l < 2 ^ 15
    → (shift_lfsr false l ≡ l / 2 + feedback l * 2 ^ 14)
      × (shift_lfsr true l % 2 ^ 7 ≡ l % 2 ^ 7 / 2 + feedback (l % 2 ^ 7) * 2 ^ 6)
shift_lfsr-feedback l h =
    (unfold shift_lfsr in rw (feed_lem l) (shifted_lem l h), omega (arith, narrow_lem l h))

-- A register that the channel can still sound with: it stays within 15 bits, and is not stuck at
-- zero, in 7-bit mode in its low seven bits.
abbrev pub IsAlive : Bool → ℕ → Type 0
IsAlive false l = (0 < l) × (l < 2 ^ 15)
IsAlive true l = (0 < l % 128) × (l < 2 ^ 15)

shift_lfsr-IsAlive : (w : Bool) (l : ℕ) → IsAlive w l → IsAlive w (shift_lfsr w l)
shift_lfsr-IsAlive false l h = omega (arith, shift_lfsr-feedback l h.1)
shift_lfsr-IsAlive true l h = omega (arith, narrow_lem l h.1)

shift_times-IsAlive : (n : ℕ) (w : Bool) (l : ℕ) → IsAlive w l → IsAlive w (shift_times n w l)
unfolding shift_times
shift_times-IsAlive zero w l h = h
shift_times-IsAlive (suc n) w l h =
    shift_times-IsAlive n w (shift_lfsr w l) (shift_lfsr-IsAlive w l h)

tick_period-IsAlive :
    (c : NoiseChannel) (cycles : ℕ)
    → IsAlive c.width_7bit c.lfsr
    → IsAlive (tick_period c cycles).width_7bit (tick_period c cycles).lfsr
unfolding tick_period
tick_period-IsAlive c cycles h = elim (Bool-cases c.enabled) [
  | inr off ↦ rw off h
  | inl on ↦ elim (Bool-cases (ltb cycles c.period_timer)) [
    | inl early ↦ rw (on, early) h
    | inr late ↦ rw (on, late) (shift_times-IsAlive _ c.width_7bit c.lfsr h)
  ]
]

pub tick_periods : NoiseChannel → List ℕ → NoiseChannel
tick_periods c [] = c
tick_periods c (x ∷ xs) = tick_periods (tick_period c x) xs

tick_periods-IsAlive :
    (c : NoiseChannel) (xs : List ℕ)
    → IsAlive c.width_7bit c.lfsr
    → IsAlive (tick_periods c xs).width_7bit (tick_periods c xs).lfsr
unfolding tick_periods
tick_periods-IsAlive c [] h = h
tick_periods-IsAlive c (x ∷ xs) h =
    tick_periods-IsAlive (tick_period c x) xs (tick_period-IsAlive c x h)

-- After a trigger, in either width, no run of period ticks locks the noise register up at zero.
pub trigger-IsAlive :
    (c : NoiseChannel) (xs : List ℕ)
    → IsAlive (tick_periods (trigger c) xs).width_7bit (tick_periods (trigger c) xs).lfsr
trigger-IsAlive c xs = tick_periods-IsAlive (trigger c) xs (start c)
  where
    start : (d : NoiseChannel) → IsAlive (trigger d).width_7bit (trigger d).lfsr
    start d = unfold trigger in alive d.width_7bit
      where
        alive : (w : Bool) → IsAlive w 0x7FFF
        alive true = omega arith
        alive false = omega arith
