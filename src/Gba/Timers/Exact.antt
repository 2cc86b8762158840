-- ===== src/Gba/Timers/Exact.antt =====
-- The overflow that the batches of core/src/gba/mmu.rs are clamped to, against the timer's own count.
use emulator_app.Base.{
  ℕ, ◌+◌, ◌-◌, ◌*◌, ◌/◌, ◌≤◌, ◌<◌, ◌≡◌, refl, ap, ◌∙◌, arith, Bool, true, false, ◌||◌, ◌&&◌, ◌!=◌,
  ◌^◌, ◌++◌, [], ◌∷◌, bit_or, ◌<<◌, ltb, ◌==◌, lt→ltb, if◌then◌else◌, some, none, bit_and, has, u32,
}
use native.Mathlib.Nat.{mul-le-mul}
use emulator_app.Gba.Timers.{
  GbaTimer, get_prescaler, Outputs, Turn, overflow, tick_timer, timer_cycles_to_overflow,
}
use emulator_app.Gba.Timers.Drain.{drain-exact, get_prescaler_bounds}

taken_some :
    (b c : Bool) (x d : ℕ)
    → (if b || c then none else some x) ≡ some d
    → (b ≡ false) × (c ≡ false) × (d ≡ x)
taken_some true c x d e = cc
taken_some false true x d e = cc
taken_some false false x d e = (refl, refl, ground arith)

cycles_lem :
    (t : GbaTimer) (d : ℕ)
    → timer_cycles_to_overflow t ≡ some d
    → t.cycle_accumulator < get_prescaler t
    → ((bit_and t.control 0x0080 == 0) ≡ false)
      × (has 2 t.control ≡ false)
      × (d ≡ get_prescaler t - t.cycle_accumulator + (0x10000 - t.counter - 1) * get_prescaler t)
unfolding timer_cycles_to_overflow
cycles_lem t d e small =
    let p = get_prescaler t in
    let acc = t.cycle_accumulator in
    let early : ltb acc p ≡ true = lt→ltb acc p small in
    let step = ap (λ b. (if b then p - acc else 1) + (0x10000 - t.counter - 1) * p) early in
    let (on, plain, found) =
      taken_some (bit_and t.control 0x0080 == 0) (has 2 t.control)
        ((if ltb acc p then p - acc else 1) + (0x10000 - t.counter - 1) * p) d e in
    (on, plain, found ∙ step)

-- What an overflow tells the sound unit, and the interrupt that it raises.
told_overflows :
    (over : Bool) (i : ℕ) (s : Turn)
    → (if over then (overflow i s).outputs else s.outputs).overflows
      ≡ (if over then s.outputs.overflows ++ (i ∷ []) else s.outputs.overflows)
unfolding overflow
told_overflows over i s = ground arith

raised :
    (over : Bool) (i : ℕ) (s : Turn)
    → (if over then (overflow i s).outputs else s.outputs).r_if ≡ (
        if over && (bit_and s.timer.control 0x40 != 0)
        then bit_or s.outputs.r_if (2 ^ (3 + i))
        else s.outputs.r_if)
unfolding overflow
raised over i s = let shift : 1 << (3 + i) ≡ 2 ^ (3 + i) = omega arith in ground (arith, shift)

shifted : (a x y : ℕ) → (a + x == a + y) ≡ (x == y)
shifted a x y = ground arith

-- For an enabled timer that does not cascade and whose accumulator is below its prescaler, and a step
-- no longer than the cycles that timer_cycles_to_overflow gives, which is what the steps are clamped to:
-- the timer overflows exactly when the step is that long. Then it is reloaded, the sound unit is told
-- of timer `i` once, and bit 3 + i of the interrupt flags is raised if bit 6 of the control asks; else
-- it has counted the whole prescaled ticks, and nothing is signalled.
pub tick_timer-exact :
    (elapsed d i : ℕ) (before : Bool) (t : GbaTimer) (out : Outputs)
    → timer_cycles_to_overflow t ≡ some d
    → t.counter < 0x10000
    → t.cycle_accumulator < get_prescaler t
    → elapsed ≤ d
    → let after = tick_timer elapsed i before t out in
      (after.signal ≡ (elapsed == d))
      × (after.timer.counter ≡ (
          if elapsed == d
          then t.reload
          else t.counter + (t.cycle_accumulator + elapsed) / get_prescaler t))
      × (after.outputs.overflows
          ≡ (if elapsed == d then out.overflows ++ (i ∷ []) else out.overflows))
      × (after.outputs.r_if ≡ (
          if elapsed == d && (bit_and t.control 0x40 != 0)
          then bit_or out.r_if (2 ^ (3 + i))
          else out.r_if))
unfolding tick_timer
tick_timer-exact elapsed d i before t out e small acc_small most =
    let p = get_prescaler t in
    let (on, plain, cycles) = cycles_lem t d e acc_small in
    let (pos, top) = get_prescaler_bounds t in
    let n = 0x10000 - t.counter - 1 in
    let bound : n * p ≤ 0xFFFF * 1024 = mul-le-mul {n₂ = 0xFFFF} (omega arith) top in
    let total = t.cycle_accumulator + elapsed in
    let fits : u32 total ≡ total = omega arith in
    let goal : n * p + p ≡ t.cycle_accumulator + d = omega (arith, cycles) in
    let same : (total == n * p + p) ≡ (elapsed == d) =
      ap (λ (m : ℕ). total == m) goal ∙ shifted t.cycle_accumulator elapsed d in
    let s : Turn = record {
      timer = record t { cycle_accumulator = total };
      signal = false;
      outputs = out;
    } in
    let (signal, counter, outputs) =
      drain-exact total n p i s pos refl (omega arith) (omega arith) refl in
    let told = outputs ∙ ap (λ b. if b then (overflow i s).outputs else out) same in
    rw (on, plain, fits)
      (
        signal ∙ same,
        counter ∙ ap (λ b. if b then t.reload else t.counter + total / p) same,
        ap (λ o. o.overflows) told ∙ told_overflows (elapsed == d) i s,
        ap (λ o. o.r_if) told ∙ raised (elapsed == d) i s,
      )
