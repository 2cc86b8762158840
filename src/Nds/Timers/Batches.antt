-- ===== src/Nds/Timers/Batches.antt =====
-- The batched ticking of core/src/nds/mmu.rs against increments one at a time.
use emulator_app.Base.{
  ℕ, zero, suc, ◌+◌, ◌-◌, ◌/◌, ◌%◌, ◌≤◌, ◌<◌, ◌≡◌, refl, ap, sym, ◌∙◌, arith, inl, inr, true, false,
  ltb, ◌==◌, Bool-cases, if◌then◌else◌, List, [], ◌∷◌, All, u16,
}
use native.Mathlib.Nat.{mod-eq_of_lt, mod-eq-sub-mod, div-eq_of_lt, div-eq-sub-div}
use emulator_app.Nds.Timers.{Channel, raise, counts_up, until_overflow, period, overflow, advance}
use emulator_app.Nds.Timers.Steps.{
  bump, bumps, IsChannel, bump-IsChannel, counts_up-bump, bump-raise, raise_again,
}

advance_none : (ch : ℕ) (cs : List Channel) (iff : ℕ) → advance ch cs 0 iff ≡ (cs, iff)
unfolding advance
advance_none ch [] iff = refl
advance_none ch (c ∷ cs) iff = refl

-- A turn of the loop that does not reach the overflow, and one that does.
advance_within :
    (ch : ℕ) (c : Channel) (cs : List Channel) (ticks iff : ℕ)
    → c.counter + ticks < 0x10000
    → advance ch (c ∷ cs) ticks iff ≡ (record c { counter = c.counter + ticks } ∷ cs, iff)
unfolding advance
advance_within ch c cs zero iff h =
    let e : c.counter + 0 ≡ c.counter = omega arith in
    ap (λ (n : ℕ). (record c { counter = n } ∷ cs, iff)) (sym e)
advance_within ch c cs (suc n) iff h =
    let some_ticks : (suc n == 0) ≡ false = ground arith in
    let early : ltb (suc n) (until_overflow c) ≡ true = ground arith in
    let e : u16 (c.counter + suc n) ≡ c.counter + suc n = omega arith in
    rw (some_ticks, early) (ap (λ (m : ℕ). (record c { counter = m } ∷ cs, iff)) e)

advance_past :
    (ch : ℕ) (c : Channel) (cs : List Channel) (past iff : ℕ)
    → c.counter < 0x10000
    → advance ch (c ∷ cs) (until_overflow c + past) iff
      ≡ overflow (advance (ch + 1) cs) ch c cs past iff
unfolding advance
advance_past ch c cs past iff h =
    let ticks = until_overflow c + past in
    let some_ticks : (ticks == 0) ≡ false = ground arith in
    let late : ltb ticks (until_overflow c) ≡ false = ground arith in
    let e : ticks - until_overflow c ≡ past = omega arith in rw (some_ticks, late, e) refl

bump_within :
    (ch : ℕ) (c : Channel) (cs : List Channel) (iff : ℕ)
    → c.counter + 1 < 0x10000
    → bump ch (c ∷ cs) iff ≡ (record c { counter = c.counter + 1 } ∷ cs, iff)
unfolding bump
bump_within ch c cs iff h = let e : ltb (c.counter + 1) 0x10000 ≡ true = ground arith in rw e refl

-- A bump past the top is the overflow with nothing past it.
reloaded : Channel → Channel
reloaded c = record c { counter = c.reload }

bump_past :
    (ch : ℕ) (c : Channel) (cs : List Channel) (iff : ℕ)
    → c.counter ≡ 0xFFFF
    → bump ch (c ∷ cs) iff ≡ (
        if counts_up cs
        then (
          reloaded c ∷ (bump (ch + 1) cs (raise c ch iff)).0,
          (bump (ch + 1) cs (raise c ch iff)).1,
        )
        else (reloaded c ∷ cs, raise c ch iff))
unfolding bump reloaded
bump_past ch c cs iff h = let e : ltb (c.counter + 1) 0x10000 ≡ false = ground arith in rw e refl

-- The flag that an overflow raised is up already when the channel overflows again.
raised_before :
    (ch : ℕ) (c : Channel) (cs : List Channel) (iff : ℕ)
    → raise c ch (bump (ch + 1) cs (raise c ch iff)).1 ≡ (bump (ch + 1) cs (raise c ch iff)).1
raised_before ch c cs iff =
    let e = ap (λ t. t.1) (bump-raise c ch (ch + 1) cs iff) in
    ap (raise c ch) e ∙ raise_again c ch (bump (ch + 1) cs iff).1 ∙ sym e

-- The channel after an overflow with `n` ticks past it.
turned : Channel → ℕ → Channel
turned c n = record c { counter = u16 (c.reload + n % period c) }

overflow_stop :
    (onward : ℕ → ℕ → List Channel × ℕ) (ch : ℕ) (c : Channel) (cs : List Channel) (n iff : ℕ)
    → counts_up cs ≡ false
    → overflow onward ch c cs n iff ≡ (turned c n ∷ cs, raise c ch iff)
unfolding overflow turned
overflow_stop onward ch c cs n iff stop = rw stop refl

overflow_up :
    (onward : ℕ → ℕ → List Channel × ℕ) (ch : ℕ) (c : Channel) (cs : List Channel) (n iff : ℕ)
    → counts_up cs ≡ true
    → overflow onward ch c cs n iff ≡ (
      turned c n ∷ (onward (1 + n / period c) (raise c ch iff)).0,
      (onward (1 + n / period c) (raise c ch iff)).1,
    )
unfolding overflow turned
overflow_up onward ch c cs n iff up = rw up refl

turned_short :
    (c : Channel) (n : ℕ) → n < period c → turned c n ≡ record c { counter = c.reload + n }
unfolding turned
turned_short c n h =
    let rem : n % period c ≡ n = mod-eq_of_lt h in
    let e : u16 (c.reload + n % period c) ≡ c.reload + n = rw rem (omega arith) in
    ap (λ (m : ℕ). record c { counter = m }) e

turned_long : (c : Channel) (n : ℕ) → period c ≤ n → turned c n ≡ turned c (n - period c)
unfolding turned
turned_long c n h = ap (λ (m : ℕ). record c { counter = u16 (c.reload + m) }) (mod-eq-sub-mod h)

-- The reloaded channel reaches its next overflow after a period.
advance-reloaded :
    (ch : ℕ) (c : Channel) (cs : List Channel) (n iff : ℕ)
    → c.reload < 0x10000
    → period c ≤ n
    → advance ch (reloaded c ∷ cs) n iff
      ≡ overflow (advance (ch + 1) cs) ch (reloaded c) cs (n - period c) iff
unfolding reloaded
advance-reloaded ch c cs n iff small h =
    let whole : n ≡ period c + (n - period c) = omega arith in
    ap (λ (m : ℕ). advance ch (reloaded c ∷ cs) m iff) whole
    ∙ advance_past ch (reloaded c) cs (n - period c) iff small

module _ (ch : ℕ) (c : Channel) (cs : List Channel) (iff : ℕ) (valid : IsChannel c) where
  -- An overflow with `n` ticks past it is one bump and then `n` ticks: where no channel counts up.
  bumped_stop :
      (n : ℕ)
      → counts_up cs ≡ false
      → overflow (advance (ch + 1) cs) ch c cs n iff
        ≡ advance ch (reloaded c ∷ cs) n (raise c ch iff)
  unfolding reloaded turned
  bumped_stop n stop =
      overflow_stop (advance (ch + 1) cs) ch c cs n iff stop
      ∙ (elim (Bool-cases (ltb n (period c))) [
        | inl short ↦
            ap (λ x. (x ∷ cs, raise c ch iff)) (turned_short c n (ground arith))
            ∙ sym (advance_within ch (reloaded c) cs n (raise c ch iff) (ground arith))
        | inr long ↦
            ap (λ x. (x ∷ cs, raise c ch iff)) (turned_long c n (ground arith))
            ∙ ap (λ (x : ℕ). (turned c (n - period c) ∷ cs, x)) (sym (raise_again c ch iff))
            ∙ sym (
                advance-reloaded ch c cs n (raise c ch iff) valid.1 (ground arith)
                ∙ overflow_stop (advance (ch + 1) cs) ch (reloaded c) cs (n - period c)
                    (raise c ch iff) stop)
      ])

  -- Where the next channel counts up.
  bumped_up :
      (n : ℕ) (b : List Channel × ℕ)
      → bump (ch + 1) cs (raise c ch iff) ≡ b
      → ((k : ℕ) → advance (ch + 1) cs (suc k) (raise c ch iff) ≡ advance (ch + 1) b.0 k b.1)
      → counts_up cs ≡ true
      → overflow (advance (ch + 1) cs) ch c cs n iff ≡ advance ch (reloaded c ∷ b.0) n b.1
  unfolding reloaded turned
  bumped_up n b e onward up =
      let p = period c in
      let one : 1 + n / p ≡ suc (n / p) = omega arith in
      let put : Channel → List Channel × ℕ → List Channel × ℕ = λ x t. (x ∷ t.0, t.1) in
      overflow_up (advance (ch + 1) cs) ch c cs n iff up
      ∙ ap (λ (m : ℕ). put (turned c n) (advance (ch + 1) cs m (raise c ch iff))) one
      ∙ ap (put (turned c n)) (onward (n / p))
      ∙ (elim (Bool-cases (ltb n p)) [
        | inl short ↦
            let none_left : n / p ≡ 0 = div-eq_of_lt (ground arith) in
            ap (λ (m : ℕ). put (turned c n) (advance (ch + 1) b.0 m b.1)) none_left
            ∙ ap (put (turned c n)) (advance_none (ch + 1) b.0 b.1)
            ∙ ap (λ x. put x b) (turned_short c n (ground arith))
            ∙ sym (advance_within ch (reloaded c) b.0 n b.1 (ground arith))
        | inr long ↦
            let pos : 0 < p = omega arith in
            let reach : p ≤ n = ground arith in
            let more : n / p ≡ 1 + (n - p) / p = omega (arith, div-eq-sub-div pos reach) in
            let up' : counts_up b.0 ≡ true =
              ap (λ t. counts_up t.0) (sym e) ∙ counts_up-bump (ch + 1) cs (raise c ch iff) ∙ up in
            let again : raise c ch b.1 ≡ b.1 =
              ap (λ t. raise c ch t.1) (sym e) ∙ raised_before ch c cs iff ∙ ap (λ t. t.1) e in
            ap (λ (m : ℕ). put (turned c n) (advance (ch + 1) b.0 m b.1)) more
            ∙ ap (λ x. put x (advance (ch + 1) b.0 (1 + (n - p) / p) b.1))
                (turned_long c n (ground arith))
            ∙ ap (λ (x : ℕ). put (turned c (n - p)) (advance (ch + 1) b.0 (1 + (n - p) / p) x))
                (sym again)
            ∙ sym (
                advance-reloaded ch c b.0 n b.1 valid.1 (ground arith)
                ∙ overflow_up (advance (ch + 1) b.0) ch (reloaded c) b.0 (n - p) b.1 up')
      ])

-- One tick more is one bump first.
advance-suc :
    (ch : ℕ) (cs : List Channel) (n iff : ℕ)
    → All IsChannel cs
    → advance ch cs (suc n) iff ≡ advance ch (bump ch cs iff).0 n (bump ch cs iff).1
advance-suc ch [] n iff h = unfold advance bump in refl
advance-suc ch (c ∷ cs) n iff h =
    let later = advance ch (bump ch (c ∷ cs) iff).0 n (bump ch (c ∷ cs) iff).1 in
    let b = bump (ch + 1) cs (raise c ch iff) in
    elim (Bool-cases (ltb (c.counter + 1) 0x10000)) [
      | inl room ↦
          let c1 : Channel = record c { counter = c.counter + 1 } in
          let first = bump_within ch c cs iff (ground arith) in
          let after = ap (λ t. advance ch t.0 n t.1) first in
          elim (Bool-cases (ltb (c.counter + suc n) 0x10000)) [
            | inl within ↦
                let e : c.counter + suc n ≡ c.counter + 1 + n = omega arith in
                advance_within ch c cs (suc n) iff (ground arith)
                ∙ ap (λ (m : ℕ). (record c { counter = m } ∷ cs, iff)) e
                ∙ sym (after ∙ advance_within ch c1 cs n iff (ground arith))
            | inr past ↦
                let k = c.counter + suc n - 0x10000 in
                let e : suc n ≡ until_overflow c + k = ground arith in
                let e1 : n ≡ until_overflow c1 + k = ground arith in
                ap (λ (m : ℕ). advance ch (c ∷ cs) m iff) e
                ∙ advance_past ch c cs k iff h.0.0
                ∙ sym (
                    after
                    ∙ ap (λ (m : ℕ). advance ch (c1 ∷ cs) m iff) e1
                    ∙ advance_past ch c1 cs k iff (ground arith)
                    ∙ (unfold overflow in refl))
          ]
      | inr full ↦
          let top : c.counter ≡ 0xFFFF = ground arith in
          let e : suc n ≡ until_overflow c + n = omega arith in
          let first = bump_past ch c cs iff top in
          ap (λ (m : ℕ). advance ch (c ∷ cs) m iff) e
          ∙ advance_past ch c cs n iff h.0.0
          ∙ (elim (Bool-cases (counts_up cs)) [
            | inl up ↦
                bumped_up ch c cs iff h.0 n b refl
                  (λ k. advance-suc (ch + 1) cs k (raise c ch iff) h.1) up
                ∙ sym (ap (λ t. advance ch t.0 n t.1) (first ∙ rw up refl))
            | inr stop ↦
                bumped_stop ch c cs iff h.0 n stop
                ∙ sym (ap (λ t. advance ch t.0 n t.1) (first ∙ rw stop refl))
          ])
    ]

-- The batched loop is that many increments one at a time, over the channel and those that count up
-- behind it: the same counters, and the same interrupt flags.
pub advance-bumps :
    (n ch : ℕ) (cs : List Channel) (iff : ℕ)
    → All IsChannel cs
    → advance ch cs n iff ≡ bumps n ch cs iff
unfolding bumps
advance-bumps zero ch cs iff h = advance_none ch cs iff
advance-bumps (suc n) ch cs iff h =
    advance-suc ch cs n iff h
    ∙ advance-bumps n ch (bump ch cs iff).0 (bump ch cs iff).1 (bump-IsChannel ch cs iff h)
