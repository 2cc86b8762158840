-- ===== src/Psg/NoiseChunks.antt =====
-- The noise channel of psg.rs: its cap on the clocks of one tick, and ticks cut into chunks.
use native.Mathlib.Nat.{pow-le-pow_right, one-le-pow, mul-le-mul, mul-le-mul_left, div-mul-le_self}
use native.Mathlib.Decide.{dec_lt}
use emulator_app.Base.{
  ℕ, zero, suc, ◌+◌, ◌-◌, ◌*◌, ◌/◌, ◌%◌, ◌≤◌, ◌<◌, ◌≡◌, ◌∙◌, ap, refl, Bool, true, false,
  if◌then◌else◌, arith, bit_and, bit_and_low, Bool-cases, inl, inr, ◌==◌,
}
use emulator_app.Psg.Noise.{NoiseChannel, get_period, shift_lfsr, shift_times, tick_period}
use emulator_app.Base.Division.{carried, uncarried}

shift_times-add :
    (m n : ℕ) (w : Bool) (l : ℕ) → shift_times (m + n) w l ≡ shift_times n w (shift_times m w l)
unfolding shift_times
shift_times-add zero n w l = let e : zero + n ≡ n = omega arith in ap (λ k. shift_times k w l) e
shift_times-add (suc m) n w l =
    let e : suc m + n ≡ suc (m + n) = omega arith in
    ap (λ k. shift_times k w l) e ∙ shift_times-add m n w (shift_lfsr w l)

-- The period of a channel whose divisor is a byte: at least 8 cycles.
pub get_period-ge : (c : NoiseChannel) → c.divisor < 256 → 8 ≤ get_period c
unfolding get_period
get_period-ge c h =
    let e = bit_and c.shift_clock 0x0F in
    let big =
      pow-le-pow_right {n = 2} (omega arith) {i = e} {j = 15}
        (omega (arith, bit_and_low 4 c.shift_clock)) in
    let div : ℕ = if c.divisor == 0 then 8 else c.divisor * 16 in
    let low : 8 ≤ div = ground arith in
    let high : div ≤ 4080 = ground arith in
    let least = mul-le-mul low (one-le-pow e 2 (omega arith)) in
    let most = mul-le-mul high big in omega (arith, least, most)

steps-le : (p o : ℕ) → 8 ≤ p → o < 4096 → 1 + o / p ≤ 512
steps-le p o h lim = omega (arith, div-mul-le_self o p, mul-le-mul_left (o / p) h)

tick_off : (c : NoiseChannel) (n : ℕ) → c.enabled ≡ false → tick_period c n ≡ c
unfolding tick_period
tick_off c n h = ground arith

tick_early :
    (c : NoiseChannel) (n : ℕ)
    → c.enabled ≡ true
    → n < c.period_timer
    → tick_period c n ≡ record c { period_timer = c.period_timer - n }
unfolding tick_period
tick_early c n on h = ground arith

-- The cap takes no part in a tick of fewer than 4096 cycles.
tick_late :
    (c : NoiseChannel) (n : ℕ)
    → c.enabled ≡ true
    → c.divisor < 256
    → c.period_timer ≤ n
    → n < 4096
    → let o = n - c.period_timer in
      tick_period c n ≡ record c {
        lfsr = shift_times (1 + o / get_period c) c.width_7bit c.lfsr;
        period_timer = get_period c - o % get_period c;
      }
unfolding tick_period
tick_late c n on hd h lim =
    let o = n - c.period_timer in
    ground (arith, steps-le (get_period c) o (get_period-ge c hd) (omega arith))

-- A tick of fewer than 4096 cycles, on which the cap of 512 clocks takes no part, is the same as its
-- cycles in two parts.
pub tick_period-add :
    (c : NoiseChannel) (a b : ℕ)
    → c.divisor < 256
    → a + b < 4096
    → tick_period c (a + b) ≡ tick_period (tick_period c a) b
tick_period-add c a b h lim = elim (Bool-cases c.enabled) [
  | inr off ↦ rw (tick_off c a off, tick_off c (a + b) off, tick_off c b off)
  | inl on ↦ elim (dec_lt a c.period_timer) [
    | yes early ↦
        let d : NoiseChannel = record c { period_timer = c.period_timer - a } in
        let e : get_period d ≡ get_period c = unfold get_period in refl in
        let same : a + b - c.period_timer ≡ b - (c.period_timer - a) = omega arith in
        rw (tick_early c a on early) elim (dec_lt (a + b) c.period_timer) [
          | yes short ↦
              ground (arith, tick_early c (a + b) on short, tick_early d b on (omega arith))
          | no long ↦ ground (
            arith,
            same,
            e,
            tick_late c (a + b) on h (omega arith) lim,
            tick_late d b on h (omega arith) (omega arith),
          )
        ]
    | no late ↦
        let o = a - c.period_timer in
        let p = get_period c in
        let least = get_period-ge c h in
        let d : NoiseChannel = record c {
          lfsr = shift_times (1 + o / p) c.width_7bit c.lfsr;
          period_timer = p - o % p;
        } in
        let e : get_period d ≡ p = unfold get_period in refl in
        let whole : a + b - c.period_timer ≡ o + b = omega arith in
        rw (tick_late c a on h (omega arith) (omega arith)) elim (dec_lt b (p - o % p)) [
          | yes short ↦ ground (
            arith,
            whole,
            uncarried p o b (omega arith) short,
            tick_late c (a + b) on h (omega arith) lim,
            tick_early d b on short,
          )
          | no long ↦ ground (
            arith,
            whole,
            e,
            carried p o b (omega arith) (omega arith),
            tick_late c (a + b) on h (omega arith) lim,
            tick_late d b on h (omega arith) (omega arith),
            shift_times-add (1 + o / p) (1 + (b - (p - o % p)) / p) c.width_7bit c.lfsr,
          )
        ]
  ]
]
