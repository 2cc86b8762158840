-- ===== src/Base/Bits/Masks.antt =====
-- Masks and fields: `&` with low ones, with a single bit, and `|` of disjoint fields.
use Prim.Native.Nat.{
  ℕ, zero, suc, ◌+◌, ◌-◌, ◌*◌, ◌/◌, ◌%◌, ◌^◌, ◌<◌, bit_and, bit_or, bit_or-bitwise,
}
use mathlib.Core.Path.{◌≡◌, ap, sym, ◌∙◌}
use native.Mathlib.Nat.{pow-suc, one-le-pow, mod-lt, div-add-mod'}
use native.Mathlib.Omega.{arith}
use emulator_app.Base.Bits.Digits.{
  bit_and-le, bit_or-zero, bit_and_split, bit_or_split, bit_and_digit, bit_or_digit, pow_times,
}

pub bit_and-zero : (a : ℕ) → bit_and a 0 ≡ 0
bit_and-zero a = omega (arith, bit_and-le a 0)

pub zero-bit_or : (b : ℕ) → bit_or 0 b ≡ b
zero-bit_or b = bit_or-bitwise 0 b

pub bit_and-one : (a : ℕ) → bit_and a 1 ≡ a % 2
bit_and-one a = omega (arith, bit_and_digit a 1, bit_and-zero (a / 2))

-- The two operations, cut at place `k`.
pub bit_and_cut :
    (k a b : ℕ)
    → bit_and a b ≡ bit_and (a / 2 ^ k) (b / 2 ^ k) * 2 ^ k + bit_and (a % 2 ^ k) (b % 2 ^ k)
bit_and_cut k a b =
    ap (λ x. bit_and x b) (sym (div-add-mod' a (2 ^ k)))
    ∙ ap (λ y. bit_and (a / 2 ^ k * 2 ^ k + a % 2 ^ k) y) (sym (div-add-mod' b (2 ^ k)))
    ∙ bit_and_split k (a / 2 ^ k) (b / 2 ^ k) (a % 2 ^ k) (b % 2 ^ k)
        (mod-lt a (one-le-pow k 2 (omega arith))) (mod-lt b (one-le-pow k 2 (omega arith)))

pub bit_or_cut :
    (k a b : ℕ)
    → bit_or a b ≡ bit_or (a / 2 ^ k) (b / 2 ^ k) * 2 ^ k + bit_or (a % 2 ^ k) (b % 2 ^ k)
bit_or_cut k a b =
    ap (λ x. bit_or x b) (sym (div-add-mod' a (2 ^ k)))
    ∙ ap (λ y. bit_or (a / 2 ^ k * 2 ^ k + a % 2 ^ k) y) (sym (div-add-mod' b (2 ^ k)))
    ∙ bit_or_split k (a / 2 ^ k) (b / 2 ^ k) (a % 2 ^ k) (b % 2 ^ k)
        (mod-lt a (one-le-pow k 2 (omega arith))) (mod-lt b (one-le-pow k 2 (omega arith)))

-- `(q << k) | r` is a sum where `r` fits `k` bits.
pub bit_or_fields : (k q r : ℕ) → r < 2 ^ k → bit_or (q * 2 ^ k) r ≡ q * 2 ^ k + r
bit_or_fields k q r h =
    let e : q * 2 ^ k + 0 ≡ q * 2 ^ k = omega arith in
    let f : 0 * 2 ^ k + r ≡ r = omega arith in
    ap (λ x. bit_or x r) (sym e)
    ∙ ap (λ y. bit_or (q * 2 ^ k + 0) y) (sym f)
    ∙ bit_or_split k q 0 0 r (one-le-pow k 2 (omega arith)) h
    ∙ omega (arith, ap (λ (t : ℕ). t * 2 ^ k) (bit_or-zero q), zero-bit_or r)

bit_and_ones : (k q r : ℕ) → r < 2 ^ k → bit_and (q * 2 ^ k + r) (2 ^ k - 1) ≡ r
bit_and_ones zero q r h = omega (arith, bit_and-zero (q * 1 + r))
bit_and_ones (suc k) q r h = ground (
  arith,
  bit_and_digit (q * 2 ^ suc k + r) (2 ^ suc k - 1),
  pow_times q k,
  pow-suc 2 k,
  one-le-pow k 2,
  bit_and_ones k q (r / 2),
)

-- A mask of `k` low ones is the remainder by `2 ^ k`.
pub bit_and_low : (k a : ℕ) → bit_and a (2 ^ k - 1) ≡ a % 2 ^ k
bit_and_low k a =
    ap (λ x. bit_and x (2 ^ k - 1)) (sym (div-add-mod' a (2 ^ k)))
    ∙ bit_and_ones k (a / 2 ^ k) (a % 2 ^ k) (mod-lt a (one-le-pow k 2 (omega arith)))

-- A mask of one bit.
pub bit_and_bit : (k a : ℕ) → bit_and a (2 ^ k) ≡ a / 2 ^ k % 2 * 2 ^ k
bit_and_bit k a =
    let e : 1 * 2 ^ k + 0 ≡ 2 ^ k = omega arith in
    ap (λ x. bit_and x (2 ^ k)) (sym (div-add-mod' a (2 ^ k)))
    ∙ ap (λ y. bit_and (a / 2 ^ k * 2 ^ k + a % 2 ^ k) y) (sym e)
    ∙ bit_and_split k (a / 2 ^ k) 1 (a % 2 ^ k) 0 (mod-lt a (one-le-pow k 2 (omega arith)))
        (one-le-pow k 2 (omega arith))
    ∙ omega (arith, ap (λ (t : ℕ). t * 2 ^ k) (bit_and-one (a / 2 ^ k)), bit_and-zero (a % 2 ^ k))

pub bit_or-lt : (k a b : ℕ) → a < 2 ^ k → b < 2 ^ k → bit_or a b < 2 ^ k
bit_or-lt zero zero zero ha hb = omega (arith, bit_or-zero 0)
bit_or-lt zero zero (suc b) ha hb = absurd (omega arith)
bit_or-lt zero (suc a) b ha hb = absurd (omega arith)
bit_or-lt (suc k) a b ha hb =
    ground (arith, bit_or_digit a b, pow-suc 2 k, bit_or-lt k (a / 2) (b / 2))

-- `|` adds where the sides share no bit: one ends in `k` zeros, the other fits `k` bits.
pub bit_or_add : (k a b : ℕ) → a % 2 ^ k ≡ 0 → b < 2 ^ k → bit_or a b ≡ a + b
bit_or_add k a b ha hb =
    let e : a ≡ a / 2 ^ k * 2 ^ k = omega (arith, div-add-mod' a (2 ^ k)) in
    ap (λ x. bit_or x b) e ∙ bit_or_fields k (a / 2 ^ k) b hb ∙ omega (arith, e)

pub bit_or_add_high : (k a b : ℕ) → a < 2 ^ k → b % 2 ^ k ≡ 0 → bit_or a b ≡ b + a
bit_or_add_high k a b ha hb =
    let e : b ≡ b / 2 ^ k * 2 ^ k + 0 = omega (arith, div-add-mod' b (2 ^ k)) in
    let f : a ≡ 0 * 2 ^ k + a = omega arith in
    ap (λ x. bit_or x b) f
    ∙ ap (λ y. bit_or (0 * 2 ^ k + a) y) e
    ∙ bit_or_split k 0 (b / 2 ^ k) a 0 ha (one-le-pow k 2 (omega arith))
    ∙ omega (arith, bit_or-zero a, ap (λ (t : ℕ). t * 2 ^ k) (zero-bit_or (b / 2 ^ k)), e)

-- A mask of `w` ones at place `k`.
pub bit_and_field : (k w a : ℕ) → bit_and a ((2 ^ w - 1) * 2 ^ k) ≡ a / 2 ^ k % 2 ^ w * 2 ^ k
bit_and_field k w a =
    let e : (2 ^ w - 1) * 2 ^ k + 0 ≡ (2 ^ w - 1) * 2 ^ k = omega arith in
    ap (λ x. bit_and x ((2 ^ w - 1) * 2 ^ k)) (sym (div-add-mod' a (2 ^ k)))
    ∙ ap (λ y. bit_and (a / 2 ^ k * 2 ^ k + a % 2 ^ k) y) (sym e)
    ∙ bit_and_split k (a / 2 ^ k) (2 ^ w - 1) (a % 2 ^ k) 0
        (mod-lt a (one-le-pow k 2 (omega arith))) (one-le-pow k 2 (omega arith))
    ∙ omega (arith, ap (λ (t : ℕ). t * 2 ^ k) (bit_and_low w (a / 2 ^ k)), bit_and-zero (a % 2 ^ k))
