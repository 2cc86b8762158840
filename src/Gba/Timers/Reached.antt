-- ===== src/Gba/Timers/Reached.antt =====
-- When a timer of core/src/gba/mmu.rs overflows, whatever its accumulator holds.
use emulator_app.Base.{
  ℕ, zero, suc, ◌+◌, ◌-◌, ◌*◌, ◌^◌, ◌≤◌, ◌<◌, ◌≡◌, refl, sym, ◌≢◌, ap, ◌∙◌, arith, inl, inr, Bool,
  true, false, ◌||◌, ltb, leb, Bool-cases, bit_and, ◌==◌, has, u32,
}
use native.Mathlib.Nat.{mul-le-mul_right}
use emulator_app.Gba.Timers.{GbaTimer, get_prescaler, Outputs, Turn, overflow, drain, tick_timer}
use emulator_app.Gba.Timers.Drain.{
  drain_rest, drain_turn, spent, next, count_within, count_past, get_prescaler_bounds,
}

-- The counter and its reload value are halfwords.
record IsHalf (s : Turn) : Type 0 where
  counter : s.timer.counter < 0x10000
  reload : s.timer.reload < 0x10000

or_true : (b : Bool) → (b || true) ≡ true
or_true true = refl
or_true false = refl

or_false : (b : Bool) → (b || false) ≡ b
or_false true = refl
or_false false = refl

-- Fewer cycles than a tick reach nothing.
unreached : (k p acc : ℕ) (b : Bool) → 0 < k → acc < p → b ≡ (b || leb (k * p) acc)
unreached k p acc b some_left h =
    let one : 1 * p ≤ k * p = mul-le-mul_right p some_left in
    let short : leb (k * p) acc ≡ false = ground arith in rw (short) (sym (or_false b))

drain-signal :
    (fuel p i : ℕ) (s : Turn)
    → 0 < p
    → s.timer.cycle_accumulator ≤ fuel
    → IsHalf s
    → (drain fuel p i s).signal
      ≡ (s.signal || leb ((0x10000 - s.timer.counter) * p) s.timer.cycle_accumulator)
unfolding next spent overflow
drain-signal zero p i s pos enough h =
    let acc = s.timer.cycle_accumulator in
    let little : acc < p = omega arith in
    ap (λ u. u.signal) (drain_rest zero p i s little)
    ∙ unreached (0x10000 - s.timer.counter) p acc s.signal (omega (arith, h.counter)) little
drain-signal (suc fuel) p i s pos enough h =
    let acc = s.timer.cycle_accumulator in
    let left = 0x10000 - s.timer.counter in
    elim (Bool-cases (ltb acc p)) [
      | inl short ↦
          let little : acc < p = ground (arith, short) in
          ap (λ u. u.signal) (drain_rest (suc fuel) p i s little)
          ∙ unreached left p acc s.signal (omega (arith, h.counter)) little
      | inr long ↦
          let much : p ≤ acc = ground (arith, long) in
          let turn = ap (λ u. u.signal) (drain_turn fuel p i s much) in
          elim (Bool-cases (ltb (s.timer.counter + 1) 0x10000)) [
            | inl within ↦
                let room : s.timer.counter + 1 < 0x10000 = ground (arith, within) in
                let rest =
                  drain-signal fuel p i (next p s) pos (omega arith)
                    (record { counter = room; reload = h.reload }) in
                let fewer : left ≡ suc (0x10000 - (s.timer.counter + 1)) = omega arith in
                let split : left * p ≡ (0x10000 - (s.timer.counter + 1)) * p + p =
                  ap (λ (n : ℕ). n * p) fewer ∙ omega arith in
                let same : leb ((0x10000 - (s.timer.counter + 1)) * p) (acc - p)
                    ≡ leb (left * p) acc =
                  ground (arith, split) in
                turn
                ∙ ap (λ u. (drain fuel p i u).signal) (count_within p i s room)
                ∙ rest
                ∙ ap (λ b. s.signal || b) same
            | inr past ↦
                let top : s.timer.counter ≡ 0xFFFF = ground (arith, past, h.counter) in
                let rest =
                  drain-signal fuel p i (overflow i (spent p s)) pos (omega arith)
                    (record { counter = h.reload; reload = h.reload }) in
                let last : left ≡ 1 = omega arith in
                let split : left * p ≡ p = ap (λ (n : ℕ). n * p) last ∙ omega arith in
                let full : leb (left * p) acc ≡ true = ground (arith, split) in
                turn
                ∙ ap (λ u. (drain fuel p i u).signal) (count_past p i s top)
                ∙ rest
                ∙ sym (or_true s.signal)
                ∙ ap (λ b. s.signal || b) (sym full)
          ]
    ]

-- A timer that is enabled and does not cascade overflows in a step exactly when the accumulator and
-- the step together hold the prescaled ticks that are left of its counter, whatever the accumulator
-- holds: also where a control write to a smaller prescaler has left it past the prescaler, and where
-- the step spans several overflows. The counter and its reload value are halfwords, and the accumulator
-- and the step together fit 32 bits.
pub tick_timer-reached :
    (elapsed i : ℕ) (before : Bool) (t : GbaTimer) (out : Outputs)
    → bit_and t.control 0x0080 ≢ 0
    → bit_and t.control 0x0004 ≡ 0
    → t.counter < 0x10000
    → t.reload < 0x10000
    → t.cycle_accumulator + elapsed < 2 ^ 32
    → (tick_timer elapsed i before t out).signal
      ≡ leb ((0x10000 - t.counter) * get_prescaler t) (t.cycle_accumulator + elapsed)
unfolding tick_timer
tick_timer-reached elapsed i before t out on plain hc hr fits =
    let total = t.cycle_accumulator + elapsed in
    let s : Turn = record {
      timer = record t { cycle_accumulator = total };
      signal = false;
      outputs = out;
    } in
    let whole : u32 total ≡ total = omega arith in
    let enabled : (bit_and t.control 0x0080 == 0) ≡ false = ground arith in
    let counts : has 2 t.control ≡ false = ground arith in
    rw (enabled, counts, whole)
      (drain-signal total (get_prescaler t) i s (get_prescaler_bounds t).0 (omega arith)
        (record { counter = hc; reload = hr }))
