-- ===== src/Gbc/Mbc3/RoundTrip.antt =====
-- Saving and loading of gbc/mbc3.rs are inverse, up to the time that passed.
use emulator_app.Base.{
  ℕ, ◌+◌, ◌-◌, ◌==◌, ltb, Bool-cases, inl, inr, ◌%◌, ◌^◌, ◌≤◌, ◌<◌, ◌≡◌, refl, ap, ◌∙◌, Bool, true,
  false, List, ◌++◌, ◌!=◌, if◌then◌else◌, bit_and, bit_or, length, take, drop, arith, length-append,
  le→ltb, le→leb, take_append, drop_append, take_all, u32_le, from_le_bytes, slice, u32_le-from,
  u64_le-from,
}
use native.Mathlib.Nat.{mod-eq_of_lt, le_trans}
use emulator_app.Gbc.Rtc.{RealTimeClock}
use emulator_app.Gbc.Rtc.Advance.{seconds_later, IsCounting, advance_seconds-seconds_later}
use emulator_app.Gbc.Mbc3.{Mbc3}
use emulator_app.Gbc.Mbc3.Save.{
  flags, footer, save_sram, present, ok, ram_bytes, load_clock, parse_clock, catch_up, load_image,
  load_sram,
}

-- The counters of a clock fit their types.
pub record Fits (r : RealTimeClock) : Type 0 where
  pub seconds_fit : r.seconds < 256
  pub minutes_fit : r.minutes < 256
  pub hours_fit : r.hours < 256
  pub days_fit : r.days < 65536

-- The clock `r` in the machine `into`, which keeps its latch and its cycle counter.
abbrev pub restored : RealTimeClock → RealTimeClock → RealTimeClock
restored into r = record into {
  seconds = r.seconds;
  minutes = r.minutes;
  hours = r.hours;
  days = r.days;
  halt = r.halt;
  day_overflow = r.day_overflow;
}

length-footer : (r : RealTimeClock) (now : ℕ) → length (footer r now) ≡ 28
unfolding footer
length-footer r now = refl

flags_restored :
    (r : RealTimeClock)
    → ((bit_and (from_le_bytes (u32_le (flags r))) 0x01 != 0) ≡ r.halt)
      × ((bit_and (from_le_bytes (u32_le (flags r))) 0x02 != 0) ≡ r.day_overflow)
unfolding flags
flags_restored r = flags_table r.halt r.day_overflow
  where
    flags_table :
        (h d : Bool)
        → let f =
            (let low = if h then bit_or 0 0x01 else 0 in if d then bit_or low 0x02 else low) in
          ((bit_and (from_le_bytes (u32_le f)) 0x01 != 0) ≡ h)
          × ((bit_and (from_le_bytes (u32_le f)) 0x02 != 0) ≡ d)
    flags_table true true = (refl, refl)
    flags_table true false = (refl, refl)
    flags_table false true = (refl, refl)
    flags_table false false = (refl, refl)

parse_clock-footer :
    (into r : RealTimeClock) (saved : ℕ)
    → Fits r
    → parse_clock into (footer r saved) ≡ restored into r
unfolding parse_clock footer
parse_clock-footer into r saved h = λ i. record into {
  seconds = counter r.seconds 256 (omega arith) h.seconds_fit i;
  minutes = counter r.minutes 256 (omega arith) h.minutes_fit i;
  hours = counter r.hours 256 (omega arith) h.hours_fit i;
  days = counter r.days 65536 (omega arith) h.days_fit i;
  halt = (flags_restored r).0 i;
  day_overflow = (flags_restored r).1 i;
}
  where
    counter : (x m : ℕ) → m ≤ 2 ^ 32 → x < m → from_le_bytes (u32_le x) % m ≡ x
    counter x m fits h = rw (u32_le-from x (omega arith)) (mod-eq_of_lt h)

load_clock-footer :
    (into r : RealTimeClock) (saved now : ℕ)
    → Fits r
    → saved < 2 ^ 64
    → load_clock into (footer r saved) now ≡ catch_up (restored into r) saved now
unfolding load_clock
load_clock-footer into r saved now h s =
    ap (λ c. catch_up c (from_le_bytes (slice (footer r saved) 20 28)) now)
      (parse_clock-footer into r saved h)
    ∙ ap (λ t. catch_up (restored into r) t now) (unfold footer in u64_le-from saved s)

load_image_full :
    (m : Mbc3) (xs : List ℕ) (now : ℕ)
    → ram_bytes + 28 ≤ length xs
    → load_image m xs now ≡ (
      ok true,
      record m { ram = take ram_bytes xs; rtc = load_clock m.rtc (drop ram_bytes xs) now },
    )
unfolding load_image
load_image_full m xs now h =
    let e : ram_bytes ≤ length xs = le_trans (omega arith) h in
    rw (le→ltb (length xs) ram_bytes e, le→leb (ram_bytes + 28) (length xs) h)

-- Catching up counts the seconds in between one at a time.
catch_up-seconds_later :
    (r : RealTimeClock) (saved now : ℕ)
    → (r.halt ≡ false → IsCounting r)
    → catch_up r saved now
      ≡ (if r.halt then r else if saved == 0 then r else seconds_later (now - saved) r)
unfolding catch_up
catch_up-seconds_later r saved now h = elim (Bool-cases r.halt) [
  | inl halted ↦ ground (arith, halted)
  | inr running ↦
      let passed = advance_seconds-seconds_later r (now - saved) (h running) in
      elim (Bool-cases (ltb saved now)) [
        | inl later ↦ ground (arith, running, later, passed)
        | inr sooner ↦
            let z : now - saved ≡ 0 = ground arith in
            let same : seconds_later (now - saved) r ≡ r =
              ap (λ n. seconds_later n r) z ∙ unfold seconds_later in refl in
            ground (arith, running, sooner, same)
      ]
]

-- A battery image that is saved at one time and loaded at another, into any machine, restores the RAM
-- and the clock: as it was saved where it was halted or the time of the save is 0, which stands for no
-- time, and else after as many calls of `increment_second` as seconds passed, none where the clock of
-- the host went back. The machine's ROM, bank registers, latched counters and cycle counter stay its
-- own. The RAM has 32 KiB, the time of the save 64 bits, the counters fit their types, and while
-- the clock runs none stands at the top of its type.
pub load_sram-save_sram :
    (m into : Mbc3) (saved now : ℕ)
    → length m.ram ≡ 32768
    → Fits m.rtc
    → (m.rtc.halt ≡ false → IsCounting m.rtc)
    → saved < 2 ^ 64
    → let clock = restored into.rtc m.rtc in
      load_sram into (present (save_sram m saved)) now ≡ (
        ok true,
        record into {
          ram = m.ram;
          rtc =
              if m.rtc.halt
              then clock
              else if saved == 0
              then clock
              else seconds_later (now - saved) clock;
        },
      )
unfolding load_sram save_sram
load_sram-save_sram m into saved now size h c s =
    let image = m.ram ++ footer m.rtc saved in
    let whole : length image ≡ ram_bytes + 28 =
      omega (arith, length-append m.ram (footer m.rtc saved), length-footer m.rtc saved) in
    ap (λ xs. load_image into xs now) (take_all image {n = ram_bytes + 28} (omega arith))
    ∙ load_image_full into image now (omega arith)
    ∙ λ i. (
      ok true,
      record into { ram = take_append m.ram (footer m.rtc saved) size i; rtc = clock i },
    )
  where
    clock :
        let r = restored into.rtc m.rtc in
        load_clock into.rtc (drop ram_bytes (m.ram ++ footer m.rtc saved)) now
        ≡ (if m.rtc.halt then r else if saved == 0 then r else seconds_later (now - saved) r)
    clock =
        ap (λ xs. load_clock into.rtc xs now) (drop_append m.ram (footer m.rtc saved) size)
        ∙ load_clock-footer into.rtc m.rtc saved now h s
        ∙ catch_up-seconds_later (restored into.rtc m.rtc) saved now (λ running.
          let k = c running in
          record {
            running = running;
            seconds_fit = k.seconds_fit;
            minutes_fit = k.minutes_fit;
            hours_fit = k.hours_fit;
            days_fit = k.days_fit;
          })
