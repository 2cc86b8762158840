-- ===== src/Nds/Timers/Steps.antt =====
-- A timer of core/src/nds/mmu.rs stepped one increment at a time, as the hardware counts.
use emulator_app.Base.{
  ℕ, zero, suc, ◌+◌, ◌<◌, ◌≡◌, refl, ap, ◌∙◌, arith, inl, inr, ltb, Bool-cases, if◌then◌else◌, List,
  [], ◌∷◌, bit_or_swap, bit_or_again, has, All, ◌<<◌,
}
use emulator_app.Nds.Timers.{Channel, raise, counts_up}

-- One increment of the first of the channels from `ch` on: past 0xFFFF the counter is loaded again, the
-- flag is raised, and a channel that counts up is incremented in turn.
unfoldable pub bump : ℕ → List Channel → ℕ → List Channel × ℕ
bump ch [] iff = ([], iff)
bump ch (c ∷ cs) iff =
    let loaded = record c { counter = c.reload } in
    let next = bump (ch + 1) cs (raise c ch iff) in
    if ltb (c.counter + 1) 0x10000
    then (record c { counter = c.counter + 1 } ∷ cs, iff)
    else if counts_up cs
    then (loaded ∷ next.0, next.1)
    else (loaded ∷ cs, raise c ch iff)

unfoldable pub bumps : ℕ → ℕ → List Channel → ℕ → List Channel × ℕ
bumps zero ch cs iff = (cs, iff)
bumps (suc n) ch cs iff = bumps n ch (bump ch cs iff).0 (bump ch cs iff).1

abbrev pub IsChannel : Channel → Type 0
IsChannel c = (c.counter < 0x10000) × (c.reload < 0x10000)

pub bump-IsChannel :
    (ch : ℕ) (cs : List Channel) (iff : ℕ) → All IsChannel cs → All IsChannel (bump ch cs iff).0
unfolding bump
bump-IsChannel ch [] iff h = tt
bump-IsChannel ch (c ∷ cs) iff h = elim (Bool-cases (ltb (c.counter + 1) 0x10000)) [
  | inl within ↦ rw within ((ground arith, h.0.1), h.1)
  | inr past ↦ elim (Bool-cases (counts_up cs)) [
    | inl up ↦ rw (past, up) ((h.0.1, h.0.1), bump-IsChannel (ch + 1) cs (raise c ch iff) h.1)
    | inr stop ↦ rw (past, stop) ((h.0.1, h.0.1), h.1)
  ]
]

pub counts_up-bump :
    (ch : ℕ) (cs : List Channel) (iff : ℕ) → counts_up (bump ch cs iff).0 ≡ counts_up cs
unfolding bump
counts_up-bump ch [] iff = refl
counts_up-bump ch (c ∷ cs) iff = elim (Bool-cases (ltb (c.counter + 1) 0x10000)) [
  | inl within ↦ rw within refl
  | inr past ↦ elim (Bool-cases (counts_up cs)) [
    | inl up ↦ rw (past, up) refl
    | inr stop ↦ rw (past, stop) refl
  ]
]

-- Flags are only raised, so the order of raising them is free, and raising one again changes nothing.
raise_swap : (c d : Channel) (i j iff : ℕ) → raise c i (raise d j iff) ≡ raise d j (raise c i iff)
raise_swap c d i j iff = elim (Bool-cases (has 6 c.control)) [
  | inl a ↦ elim (Bool-cases (has 6 d.control)) [
    | inl b ↦ rw (a, b) (bit_or_swap iff (1 << (3 + j)) (1 << (3 + i)))
    | inr b ↦ rw (a, b) refl
  ]
  | inr a ↦ rw (a) refl
]

pub raise_again : (c : Channel) (i iff : ℕ) → raise c i (raise c i iff) ≡ raise c i iff
raise_again c i iff = elim (Bool-cases (has 6 c.control)) [
  | inl a ↦ rw (a) (bit_or_again iff (1 << (3 + i)))
  | inr a ↦ rw (a) refl
]

pub bump-raise :
    (d : Channel) (j ch : ℕ) (cs : List Channel) (iff : ℕ)
    → bump ch cs (raise d j iff) ≡ ((bump ch cs iff).0, raise d j (bump ch cs iff).1)
unfolding bump
bump-raise d j ch [] iff = refl
bump-raise d j ch (c ∷ cs) iff = elim (Bool-cases (ltb (c.counter + 1) 0x10000)) [
  | inl within ↦ rw within refl
  | inr past ↦ elim (Bool-cases (counts_up cs)) [
    | inl up ↦
        rw (past, up)
          (ap
              (λ (x : ℕ).
                (record c { counter = c.reload } ∷ (bump (ch + 1) cs x).0, (bump (ch + 1) cs x).1))
              (raise_swap c d ch j iff)
            ∙ ap (λ t. (record c { counter = c.reload } ∷ t.0, t.1))
                (bump-raise d j (ch + 1) cs (raise c ch iff)))
    | inr stop ↦
        rw (past, stop)
          (ap (λ (x : ℕ). (record c { counter = c.reload } ∷ cs, x)) (raise_swap c d ch j iff))
  ]
]
