-- ===== src/Nds/Sqrt.antt =====
-- core/src/nds/mmu.rs: the square-root unit of the ARM9. The floating-point estimate that the search
-- starts from is a parameter.
use emulator_app.Base.{
  ℕ, zero, suc, ◌+◌, ◌*◌, ◌^◌, ◌≤◌, ◌<◌, ◌≡◌, arith, inl, inr, Bool, not, ◌||◌, ◌&&◌, ltb, leb,
  Bool-cases, if◌then◌else◌, has, u32,
}
use native.Mathlib.Nat.{mul-le-mul}

pub record SqrtUnit : Type 0 where
  pub sqrt_cnt : ℕ
  pub sqrt_param : ℕ

unfoldable pub operand : SqrtUnit → ℕ
operand s = if has 0 s.sqrt_cnt then s.sqrt_param else u32 s.sqrt_param

-- `checked_mul` of a number with itself gives nothing from here on.
abbrev overflows : ℕ → Bool
overflows x = leb (2 ^ 64) (x * x)

unfoldable pub step_down : ℕ → ℕ → ℕ
step_down v zero = zero
step_down v (suc x) = if overflows (suc x) || ltb v (suc x * suc x) then step_down v x else suc x

unfoldable pub step_up : ℕ → ℕ → ℕ → ℕ
step_up zero v x = x
step_up (suc fuel) v x =
    let next = step_up fuel v (x + 1) in
    if not (overflows (x + 1)) && leb ((x + 1) * (x + 1)) v then next else x

-- The search upwards has a turn for each number up to `v`.
unfoldable pub sqrt_result : (ℕ → ℕ) → SqrtUnit → ℕ
unfolding operand step_up step_down
sqrt_result estimate s = let v = operand s in u32 (step_up (v + 1) v (step_down v (estimate v)))

step_down-le : (v x : ℕ) → step_down v x * step_down v x ≤ v
unfolding step_down
step_down-le v zero = omega arith
step_down-le v (suc x) = elim (Bool-cases (overflows (suc x) || ltb v (suc x * suc x))) [
  | inl high ↦ rw high (step_down-le v x)
  | inr found ↦ rw found (ground arith)
]

-- With turns enough the search ends at a root, and stays at one.
step_up-IsRoot :
    (fuel v x : ℕ)
    → v < 2 ^ 64
    → x * x ≤ v
    → v < x + fuel
    → (step_up fuel v x * step_up fuel v x ≤ v)
      × (v < (step_up fuel v x + 1) * (step_up fuel v x + 1))
unfolding step_up
step_up-IsRoot zero v x small h enough = absurd (grind arith)
step_up-IsRoot (suc fuel) v x small h enough =
    elim (Bool-cases (not (overflows (x + 1)) && leb ((x + 1) * (x + 1)) v)) [
      | inl more ↦ rw more (step_up-IsRoot fuel v (x + 1) small (ground arith) (omega arith))
      | inr done ↦ rw done (h, ground arith)
    ]

root-lt : (x v : ℕ) → v < 2 ^ 64 → x * x ≤ v → x < 2 ^ 32
root-lt x v small h = elim (Bool-cases (ltb x (2 ^ 32))) [
  | inl below ↦ ground arith
  | inr above ↦
      let large : 2 ^ 32 ≤ x = ground arith in
      let square : 2 ^ 32 * 2 ^ 32 ≤ x * x = mul-le-mul large large in absurd (omega arith)
]

-- The unit ends with the floor of the square root of its operand, whatever the floating-point estimate
-- that it starts from, in the 32-bit mode and in the 64-bit mode.
pub sqrt_result-IsRoot :
    (estimate : ℕ → ℕ) (s : SqrtUnit)
    → s.sqrt_param < 2 ^ 64
    → (sqrt_result estimate s * sqrt_result estimate s ≤ operand s)
      × (operand s < (sqrt_result estimate s + 1) * (sqrt_result estimate s + 1))
unfolding sqrt_result operand
sqrt_result-IsRoot estimate s small =
    let v = if has 0 s.sqrt_cnt then s.sqrt_param else u32 s.sqrt_param in
    let fits : v < 2 ^ 64 = ground arith in
    let x = step_up (v + 1) v (step_down v (estimate v)) in
    let root =
      step_up-IsRoot (v + 1) v (step_down v (estimate v)) fits (step_down-le v (estimate v))
        (omega arith) in
    let exact : u32 x ≡ x = omega (arith, root-lt x v fits root.0) in rw (exact) (root)
