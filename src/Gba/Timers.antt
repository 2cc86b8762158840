-- ===== src/Gba/Timers.antt =====
-- core/src/gba/mmu.rs: the four timers of the Game Boy Advance. The sound unit is told of an overflow
-- by a call: the numbers that it is called with are recorded.
pub mod Drain
pub mod Exact
pub mod Reached
mod Tests
use emulator_app.Base.{
  ℕ, zero, suc, ◌+◌, ◌-◌, ◌*◌, ◌^◌, Bool, true, false, not, ◌&&◌, ◌||◌, ltb, leb, ◌==◌,
  if◌then◌else◌, List, [], ◌∷◌, ◌++◌, Option, some, none, bit_and, bit_or, has, u32, ◌<<◌,
}

pub record GbaTimer : Type 0 where
  pub counter : ℕ
  pub reload : ℕ
  pub control : ℕ
  pub cycle_accumulator : ℕ
  pub overflowed : Bool

unfoldable pub new : GbaTimer
new = record { counter = 0; reload = 0; control = 0; cycle_accumulator = 0; overflowed = false }

abbrev pub get_prescaler : GbaTimer → ℕ
get_prescaler t =
    if bit_and t.control 3 == 0
    then 1
    else if bit_and t.control 3 == 1
    then 64
    else if bit_and t.control 3 == 2
    then 256
    else 1024

-- The interrupt flags, and the calls of `on_timer_overflow`.
pub record Outputs : Type 0 where
  pub r_if : ℕ
  pub overflows : List ℕ

abbrev pub trigger_interrupt : Outputs → ℕ → Outputs
trigger_interrupt o bit = record o { r_if = bit_or o.r_if bit }

-- A timer, its overflow signal, and the outputs.
pub record Turn : Type 0 where
  pub timer : GbaTimer
  pub signal : Bool
  pub outputs : Outputs

-- What an overflow of timer `i` does.
unfoldable pub overflow : ℕ → Turn → Turn
overflow i s =
    let told = record s.outputs { overflows = s.outputs.overflows ++ (i ∷ []) } in
    record {
      timer = record s.timer { counter = s.timer.reload; overflowed = true };
      signal = true;
      outputs = if has 6 s.timer.control then trigger_interrupt told (1 << (3 + i)) else told;
    }

unfoldable pub count : ℕ → Turn → Turn
count i s =
    if ltb (s.timer.counter + 1) 0x10000
    then record s { timer = record s.timer { counter = s.timer.counter + 1; overflowed = false } }
    else overflow i s

-- The `while` loop over the accumulator, which loses at least one at each turn.
unfoldable pub drain : ℕ → ℕ → ℕ → Turn → Turn
drain zero p i s = s
drain (suc fuel) p i s =
    let spent = record s {
      timer = record s.timer { cycle_accumulator = s.timer.cycle_accumulator - p };
    } in
    let rest = drain fuel p i (count i spent) in if leb p s.timer.cycle_accumulator then rest else s

-- The body of the loop of `tick_timers`; `before` is the signal of the timer before.
unfoldable pub tick_timer : ℕ → ℕ → Bool → GbaTimer → Outputs → Turn
unfolding count drain overflow
tick_timer elapsed i before t out =
    let acc = u32 (t.cycle_accumulator + elapsed) in
    let quiet = record t { overflowed = false } in
    if bit_and t.control 0x0080 == 0
    then record { timer = quiet; signal = false; outputs = out }
    else if has 2 t.control
    then if before
      then count i (record { timer = t; signal = false; outputs = out })
      else record { timer = quiet; signal = false; outputs = out }
    else drain acc (get_prescaler t) i
        (record { timer = record t { cycle_accumulator = acc }; signal = false; outputs = out })

unfoldable pub tick_from : ℕ → ℕ → Bool → List GbaTimer → Outputs → List GbaTimer × Outputs
unfolding tick_timer
tick_from elapsed i before [] out = ([], out)
tick_from elapsed i before (t ∷ ts) out =
    let turn = tick_timer elapsed i before t out in
    let rest = tick_from elapsed (i + 1) turn.signal ts turn.outputs in
    (turn.timer ∷ rest.0, rest.1)

unfoldable pub tick_timers : ℕ → List GbaTimer → Outputs → List GbaTimer × Outputs
unfolding tick_from
tick_timers elapsed ts out = tick_from elapsed 0 false ts out

unfoldable pub timer_cycles_to_overflow : GbaTimer → Option ℕ
timer_cycles_to_overflow t =
    let p = get_prescaler t in
    let acc = t.cycle_accumulator in
    let cycles_to_next_tick = if ltb acc p then p - acc else 1 in
    if bit_and t.control 0x0080 == 0 || has 2 t.control
    then none
    else some (cycles_to_next_tick + (0x10000 - t.counter - 1) * p)
