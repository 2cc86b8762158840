-- ===== src/Gba/Timers/Drain.antt =====
-- The loop over the accumulator of a timer of core/src/gba/mmu.rs, up to its overflow.
use emulator_app.Base.{
  ℕ, zero, suc, ◌+◌, ◌-◌, ◌*◌, ◌/◌, ◌%◌, ◌≤◌, ◌<◌, ◌≡◌, refl, ap, sym, ◌∙◌, arith, inl, inr, true,
  false, ltb, leb, ◌==◌, Bool-cases, if◌then◌else◌,
}
use native.Mathlib.Nat.{mul-le-mul_left, mul-le-mul_right, mod-lt, div-add-mod'}
use emulator_app.Gba.Timers.{GbaTimer, get_prescaler, Turn, overflow, count, drain}

-- A timer after ticks that do not overflow: `n` counted, and `r` cycles left.
pub record Counted (s u : Turn) (n r : ℕ) : Type 0 where
  pub counter : u.timer.counter ≡ s.timer.counter + n
  pub left : u.timer.cycle_accumulator ≡ r
  pub signal : u.signal ≡ s.signal
  pub outputs : u.outputs ≡ s.outputs
  pub reload : u.timer.reload ≡ s.timer.reload
  pub control : u.timer.control ≡ s.timer.control

pub drain_rest : (fuel p i : ℕ) (s : Turn) → s.timer.cycle_accumulator < p → drain fuel p i s ≡ s
unfolding drain
drain_rest zero p i s h = refl
drain_rest (suc fuel) p i s h =
    let e : leb p s.timer.cycle_accumulator ≡ false = ground arith in rw e refl

unfoldable pub spent : ℕ → Turn → Turn
spent p s = record s {
  timer = record s.timer { cycle_accumulator = s.timer.cycle_accumulator - p };
}

pub drain_turn :
    (fuel p i : ℕ) (s : Turn)
    → p ≤ s.timer.cycle_accumulator
    → drain (suc fuel) p i s ≡ drain fuel p i (count i (spent p s))
unfolding drain spent
drain_turn fuel p i s h = let e : leb p s.timer.cycle_accumulator ≡ true = ground arith in rw e refl

unfoldable pub next : ℕ → Turn → Turn
next p s = record s {
  timer = record s.timer {
    cycle_accumulator = s.timer.cycle_accumulator - p;
    counter = s.timer.counter + 1;
    overflowed = false;
  };
}

pub count_within :
    (p i : ℕ) (s : Turn) → s.timer.counter + 1 < 0x10000 → count i (spent p s) ≡ next p s
unfolding count spent next
count_within p i s h = let e : ltb (s.timer.counter + 1) 0x10000 ≡ true = ground arith in rw e refl

pub count_past :
    (p i : ℕ) (s : Turn) → s.timer.counter ≡ 0xFFFF → count i (spent p s) ≡ overflow i (spent p s)
unfolding count spent
count_past p i s h = let e : ltb (s.timer.counter + 1) 0x10000 ≡ false = ground arith in rw e refl

drain-Counted :
    (n fuel p i r : ℕ) (s : Turn)
    → n ≤ fuel
    → r < p
    → s.timer.cycle_accumulator ≡ n * p + r
    → s.timer.counter + n < 0x10000
    → Counted s (drain fuel p i s) n r
unfolding next
drain-Counted zero fuel p i r s enough small e room =
    let at_rest = drain_rest fuel p i s (omega arith) in
    rw (at_rest) (record {
      counter = omega arith;
      left = omega arith;
      signal = refl;
      outputs = refl;
      reload = refl;
      control = refl;
    })
drain-Counted (suc n) zero p i r s enough small e room = absurd (omega arith)
drain-Counted (suc n) (suc fuel) p i r s enough small e room =
    let more : suc n * p ≡ n * p + p = omega arith in
    let turn =
      drain_turn fuel p i s (omega arith)
      ∙ ap (drain fuel p i) (count_within p i s (omega arith)) in
    let rest : Counted (next p s) (drain fuel p i (next p s)) n r =
      drain-Counted n fuel p i r (next p s) (omega arith) small (omega arith) (omega arith) in
    rw (turn) (record {
      counter = omega (arith, rest.counter);
      left = rest.left;
      signal = rest.signal;
      outputs = rest.outputs;
      reload = rest.reload;
      control = rest.control;
    })

-- A timer whose accumulator runs out at its overflow.
pub record Overflowed (i : ℕ) (s u : Turn) : Type 0 where
  pub counter : u.timer.counter ≡ s.timer.reload
  pub signal : u.signal ≡ true
  pub outputs : u.outputs ≡ (overflow i s).outputs

drain-Overflowed :
    (n fuel p i : ℕ) (s : Turn)
    → suc n ≤ fuel
    → 0 < p
    → s.timer.cycle_accumulator ≡ n * p + p
    → s.timer.counter + n ≡ 0xFFFF
    → Overflowed i s (drain fuel p i s)
unfolding next overflow spent
drain-Overflowed n zero p i s enough pos e top = absurd (omega arith)
drain-Overflowed zero (suc fuel) p i s enough pos e top =
    let u = overflow i (spent p s) in
    let empty : u.timer.cycle_accumulator < p = omega arith in
    let turn =
      drain_turn fuel p i s (omega arith)
      ∙ ap (drain fuel p i) (count_past p i s (omega arith))
      ∙ drain_rest fuel p i u empty in
    rw (turn) (record { counter = refl; signal = refl; outputs = refl })
drain-Overflowed (suc n) (suc fuel) p i s enough pos e top =
    let more : suc n * p ≡ n * p + p = omega arith in
    let turn =
      drain_turn fuel p i s (omega arith)
      ∙ ap (drain fuel p i) (count_within p i s (omega arith)) in
    let rest : Overflowed i (next p s) (drain fuel p i (next p s)) =
      drain-Overflowed n fuel p i (next p s) (omega arith) pos (omega arith) (omega arith) in
    rw (turn) (record { counter = rest.counter; signal = rest.signal; outputs = rest.outputs })

pub le-times : (n p : ℕ) → 0 < p → n ≤ n * p
le-times n p pos = omega (arith, mul-le-mul_left n pos)

-- Of `total` cycles in the accumulator, at most those to the overflow: it is reached by all of them
-- and by no fewer.
pub drain-exact :
    (total n p i : ℕ) (s : Turn)
    → 0 < p
    → s.timer.cycle_accumulator ≡ total
    → s.timer.counter + n ≡ 0xFFFF
    → total ≤ n * p + p
    → s.signal ≡ false
    → ((drain total p i s).signal ≡ (total == n * p + p))
      × ((drain total p i s).timer.counter
          ≡ (if total == n * p + p then s.timer.reload else s.timer.counter + total / p))
      × ((drain total p i s).outputs
          ≡ (if total == n * p + p then (overflow i s).outputs else s.outputs))
drain-exact total n p i s pos e top most quiet = elim (Bool-cases (total == n * p + p)) [
  | inl all ↦
      let full : total ≡ n * p + p = ground arith in
      let enough : suc n ≤ total = omega (arith, le-times n p pos) in
      let u = drain-Overflowed n total p i s enough pos (e ∙ full) top in
      rw all (u.signal, u.counter, u.outputs)
  | inr fewer ↦
      let less : total < n * p + p = ground arith in
      let k = total / p in
      let split : k * p + total % p ≡ total = div-add-mod' total p in
      let within : k ≤ n = elim (Bool-cases (leb k n)) [
        | inl yes_within ↦ ground arith
        | inr above ↦
            let over : suc n ≤ k = ground arith in
            let grown : suc n * p ≤ k * p = mul-le-mul_right p over in
            let more : suc n * p ≡ n * p + p = omega arith in absurd (omega arith)
      ] in
      let u =
        drain-Counted k total p i (total % p) s (omega (arith, le-times k p pos)) (mod-lt total pos)
          (e ∙ sym split) (omega arith) in
      rw fewer (u.signal ∙ quiet, u.counter, u.outputs)
]

pub get_prescaler_bounds : (t : GbaTimer) → (0 < get_prescaler t) × (get_prescaler t ≤ 1024)
get_prescaler_bounds t = ground arith
