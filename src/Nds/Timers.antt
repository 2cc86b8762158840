-- ===== src/Nds/Timers.antt =====
-- core/src/nds/mmu.rs, `NdsTimers`: the four timers of a core of the Nintendo DS. The four arrays of the
-- structure are a list of four channels.
pub mod Steps
pub mod Batches
mod Tests
use emulator_app.Base.{
  ℕ, zero, suc, ◌+◌, ◌-◌, ◌*◌, ◌/◌, ◌%◌, ◌^◌, Bool, true, false, not, ◌&&◌, ◌||◌, ltb, ◌==◌,
  if◌then◌else◌, List, [], ◌∷◌, length, bit_and, bit_or, has, u8, u16, u32, ◌<<◌, ◌>>◌,
}

pub record Channel : Type 0 where
  pub reload : ℕ
  pub counter : ℕ
  pub control : ℕ
  pub acc : ℕ

-- `NdsTimers::read_byte`, on the channel `off / 4`.
unfoldable pub read_channel : Channel → ℕ → ℕ
read_channel c off =
    if off % 4 == 0
    then u8 c.counter
    else if off % 4 == 1
    then u8 (c.counter >> 8)
    else if off % 4 == 2
    then u8 c.control
    else 0

-- `NdsTimers::write_byte`, on the channel `off / 4`.
unfoldable pub write_channel : Channel → ℕ → ℕ → Channel
write_channel c off val =
    let new = bit_and val 0xC7 in
    let started = has 7 new && bit_and c.control 0x80 == 0 in
    if off % 4 == 0
    then record c { reload = bit_or (bit_and c.reload 0xFF00) val }
    else if off % 4 == 1
    then record c { reload = bit_or (bit_and c.reload 0x00FF) (u16 (val << 8)) }
    else if off % 4 == 2
    then record c {
      counter = if started then c.reload else c.counter;
      acc = if started then 0 else c.acc;
      control = new;
    }
    else c

-- The interrupt flag of channel `ch`, where the channel asks for it.
abbrev pub raise : Channel → ℕ → ℕ → ℕ
raise c ch iff = if has 6 c.control then bit_or iff (1 << (3 + ch)) else iff

-- The next channel is there, runs, and counts up.
abbrev pub counts_up : List Channel → Bool
counts_up [] = false
counts_up (c ∷ cs) = has 7 c.control && has 2 c.control

abbrev pub until_overflow : Channel → ℕ
until_overflow c = 0x10000 - c.counter

abbrev pub period : Channel → ℕ
period c = 0x10000 - c.reload

-- The rest of a turn of the loop of `advance` from an overflow on, `past` ticks after the first.
-- `onward` is the next turn, on the channels after this one.
unfoldable pub overflow :
    (ℕ → ℕ → List Channel × ℕ) → ℕ → Channel → List Channel → ℕ → ℕ → List Channel × ℕ
overflow onward ch c cs past iff =
    let c1 = record c { counter = u16 (c.reload + past % period c) } in
    let next = onward (1 + past / period c) (raise c ch iff) in
    if counts_up cs then (c1 ∷ next.0, next.1) else (c1 ∷ cs, raise c ch iff)

-- `NdsTimers::advance`, on the channels from `ch` on.
unfoldable pub advance : ℕ → List Channel → ℕ → ℕ → List Channel × ℕ
unfolding overflow
advance ch [] ticks iff = ([], iff)
advance ch (c ∷ cs) ticks iff =
    let late = overflow (advance (ch + 1) cs) ch c cs (ticks - until_overflow c) iff in
    if ticks == 0
    then (c ∷ cs, iff)
    else if ltb ticks (until_overflow c)
    then (record c { counter = u16 (c.counter + ticks) } ∷ cs, iff)
    else late

abbrev pub prescale : ℕ → ℕ
prescale c =
    if bit_and c 3 == 0
    then 1
    else if bit_and c 3 == 1
    then 64
    else if bit_and c 3 == 2
    then 256
    else 1024

-- A turn of the loop of `tick` for the first of the channels from `ch` on.
unfoldable pub tick_channel : ℕ → ℕ → List Channel → ℕ → List Channel × ℕ
unfolding advance
tick_channel cycles ch [] iff = ([], iff)
tick_channel cycles ch (c ∷ cs) iff =
    let total = u32 (c.acc + cycles) in
    let p = prescale c.control in
    let c1 = record c { acc = total % p } in
    if bit_and c.control 0x80 == 0 || has 2 c.control
    then (c ∷ cs, iff)
    else if ltb 0 (total / p)
    then advance ch (c1 ∷ cs) (total / p) iff
    else (c1 ∷ cs, iff)

-- The turns from `ch` on, of which `n` are left.
unfoldable pub tick_from : ℕ → ℕ → ℕ → List Channel → ℕ → List Channel × ℕ
unfolding tick_channel
tick_from zero cycles ch cs iff = (cs, iff)
tick_from (suc n) cycles ch cs iff =
    let (turned, iff1) = tick_channel cycles ch cs iff in
    elim turned [
      | [] ↦ ([], iff1)
      | c ∷ rest ↦ let later = tick_from n cycles (ch + 1) rest iff1 in (c ∷ later.0, later.1)
    ]

-- `NdsTimers::tick`.
unfoldable pub tick : List Channel → ℕ → ℕ → List Channel × ℕ
unfolding tick_from
tick cs cycles iff = tick_from 4 cycles 0 cs iff
