-- ===== src/Gbc/Rtc/Advance.antt =====
-- Catching up in one step is counting second by second (`advance_seconds` of gbc/mbc3.rs).
use emulator_app.Base.{
  ℕ, zero, suc, ◌+◌, ◌<◌, ◌≡◌, ap, ◌∙◌, false, ◌||◌, arith, leb, ◌!=◌, if◌then◌else◌,
}
use emulator_app.Gbc.Rtc.{RealTimeClock, increment_second, advance, advance_seconds}

-- `n` seconds, one at a time.
unfoldable pub seconds_later : ℕ → RealTimeClock → RealTimeClock
seconds_later zero r = r
seconds_later (suc n) r = increment_second (seconds_later n r)

-- One more tick of a counter: it carries where it reaches the limit.
abbrev Ticks : ℕ → ℕ → ℕ → Type 0
Ticks value limit n = advance value limit (suc n) ≡ (
    if leb limit ((advance value limit n).0 + 1)
    then (0, (advance value limit n).1 + 1)
    else ((advance value limit n).0 + 1, (advance value limit n).1))

advance_suc_60 : (v n : ℕ) → Ticks v 60 n
unfolding advance
advance_suc_60 v n = ground arith

advance_suc_24 : (v n : ℕ) → Ticks v 24 n
unfolding advance
advance_suc_24 v n = ground arith

advance_suc_512 : (v n : ℕ) → Ticks v 512 n
unfolding advance
advance_suc_512 v n = ground arith

advance-lt_60 : (v n : ℕ) → v < 255 → (advance v 60 n).0 < 255
unfolding advance
advance-lt_60 v n h = ground arith

advance-lt_24 : (v n : ℕ) → v < 255 → (advance v 24 n).0 < 255
unfolding advance
advance-lt_24 v n h = ground arith

advance-lt_512 : (v n : ℕ) → v < 65535 → (advance v 512 n).0 < 65535
unfolding advance
advance-lt_512 v n h = ground arith

-- No counter at the top of its type, so that one more second cannot wrap it.
pub record IsCounting (r : RealTimeClock) : Type 0 where
  pub running : r.halt ≡ false
  pub seconds_fit : r.seconds < 255
  pub minutes_fit : r.minutes < 255
  pub hours_fit : r.hours < 255
  pub days_fit : r.days < 65535

-- The clock after `n` seconds as `advance_seconds` writes it, for `n = 0` too.
caught_up : RealTimeClock → ℕ → RealTimeClock
caught_up r n =
    let s = advance r.seconds 60 n in
    let m = advance r.minutes 60 s.1 in
    let h = advance r.hours 24 m.1 in
    let d = advance r.days 512 h.1 in
    record r {
      seconds = s.0;
      minutes = m.0;
      hours = h.0;
      days = d.0;
      day_overflow = r.day_overflow || d.1 != 0;
    }

caught_up-suc :
    (r : RealTimeClock) (n : ℕ)
    → IsCounting r
    → caught_up r (suc n) ≡ increment_second (caught_up r n)
unfolding caught_up increment_second
caught_up-suc r n h =
    let s = advance r.seconds 60 n in
    let m = advance r.minutes 60 s.1 in
    let hr = advance r.hours 24 m.1 in
    ground (
      arith,
      advance_suc_60 r.seconds n,
      advance_suc_60 r.minutes s.1,
      advance_suc_24 r.hours m.1,
      advance_suc_512 r.days hr.1,
      advance-lt_60 r.seconds n,
      advance-lt_60 r.minutes s.1,
      advance-lt_24 r.hours m.1,
      advance-lt_512 r.days hr.1,
    )

caught_up-zero : (r : RealTimeClock) → caught_up r 0 ≡ r
unfolding caught_up advance
caught_up-zero r = ground arith

advance_seconds-caught_up :
    (r : RealTimeClock) (n : ℕ) → IsCounting r → advance_seconds r (suc n) ≡ caught_up r (suc n)
unfolding advance_seconds caught_up
advance_seconds-caught_up r n h =
    let s = advance r.seconds 60 (suc n) in
    let m = advance r.minutes 60 s.1 in
    let hr = advance r.hours 24 m.1 in
    ground (
      arith,
      advance-lt_60 r.seconds (suc n),
      advance-lt_60 r.minutes s.1,
      advance-lt_24 r.hours m.1,
      advance-lt_512 r.days hr.1,
    )

caught_up-seconds_later :
    (r : RealTimeClock) (n : ℕ) → IsCounting r → caught_up r n ≡ seconds_later n r
unfolding seconds_later
caught_up-seconds_later r zero h = caught_up-zero r
caught_up-seconds_later r (suc n) h =
    caught_up-suc r n h ∙ ap increment_second (caught_up-seconds_later r n h)

-- Catching up a running clock by any number of seconds gives, in every field, what that many calls
-- of `increment_second` give, counters that start past their limit (seconds 63) included, as long as
-- no counter starts at the top of its type.
pub advance_seconds-seconds_later :
    (r : RealTimeClock) (n : ℕ) → IsCounting r → advance_seconds r n ≡ seconds_later n r
advance_seconds-seconds_later r zero h = unfold advance_seconds seconds_later in ground arith
advance_seconds-seconds_later r (suc n) h =
    advance_seconds-caught_up r n h ∙ caught_up-seconds_later r (suc n) h
