-- ===== src/Base/Bits/Single.antt =====
-- Single bits of words, as the program tests them: `a & (1 << k) != 0`.
use Prim.Native.Nat.{ℕ, zero, suc, ◌+◌, ◌/◌, ◌%◌, ◌^◌, ◌≤◌, ◌<◌, min, max, bit_and, bit_or}
use mathlib.Core.Path.{◌≡◌, refl, ap, ◌∙◌}
use mathlib.Core.Bool.{Bool, ◌&&◌, ◌||◌}
use native.Mathlib.Nat.{pow-suc, one-le-pow, div-div-eq-div-mul}
use native.Mathlib.Omega.{arith}
use emulator_app.Base.Tests.{◌!=◌}
use emulator_app.Base.Bits.Digits.{bit_and_digit, bit_or_digit}
use emulator_app.Base.Bits.Masks.{bit_and_bit}

abbrev pub has : ℕ → ℕ → Bool
has k a = bit_and a (2 ^ k) != 0

-- The digit at place `k`.
unfoldable pub digit : ℕ → ℕ → ℕ
digit zero a = a % 2
digit (suc k) a = digit k (a / 2)

digit_lem : (k a : ℕ) → digit k a ≡ a / 2 ^ k % 2
unfolding digit
digit_lem zero a = omega arith
digit_lem (suc k) a =
    digit_lem k (a / 2)
    ∙ ap (λ (t : ℕ). t % 2)
        (div-div-eq-div-mul a 2 (2 ^ k) ∙ ap (λ (t : ℕ). a / t) (omega (arith, pow-suc 2 k)))

digit-lt : (k a : ℕ) → digit k a < 2
unfolding digit
digit-lt zero a = omega arith
digit-lt (suc k) a = digit-lt k (a / 2)

has-digit : (k a : ℕ) → has k a ≡ (digit k a != 0)
has-digit k a = grind (arith, bit_and_bit k a, digit_lem k a, one-le-pow k 2)

digit-bit_and : (k a b : ℕ) → digit k (bit_and a b) ≡ min (digit k a) (digit k b)
unfolding digit
digit-bit_and zero a b = omega (arith, bit_and_digit a b)
digit-bit_and (suc k) a b =
    let half : bit_and a b / 2 ≡ bit_and (a / 2) (b / 2) = omega (arith, bit_and_digit a b) in
    ap (digit k) half ∙ digit-bit_and k (a / 2) (b / 2)

digit-bit_or : (k a b : ℕ) → digit k (bit_or a b) ≡ max (digit k a) (digit k b)
unfolding digit
digit-bit_or zero a b = omega (arith, bit_or_digit a b)
digit-bit_or (suc k) a b =
    let half : bit_or a b / 2 ≡ bit_or (a / 2) (b / 2) = omega (arith, bit_or_digit a b) in
    ap (digit k) half ∙ digit-bit_or k (a / 2) (b / 2)

pub has-bit_and : (k a b : ℕ) → has k (bit_and a b) ≡ (has k a && has k b)
has-bit_and k a b =
    rw (has-digit k (bit_and a b), has-digit k a, has-digit k b, digit-bit_and k a b) (ground arith)

pub has-bit_or : (k a b : ℕ) → has k (bit_or a b) ≡ (has k a || has k b)
has-bit_or k a b =
    rw (has-digit k (bit_or a b), has-digit k a, has-digit k b, digit-bit_or k a b) (ground arith)

-- `|` with the same bits again changes nothing, and the order of two `|` does not matter.
bit_or_bound : (n a b c : ℕ) → a ≤ n → b ≤ n → c ≤ n → bit_or (bit_or a b) c ≡ bit_or (bit_or a c) b
bit_or_bound zero zero zero zero ha hb hc = refl
bit_or_bound zero (suc a) b c ha hb hc = absurd (omega arith)
bit_or_bound zero zero (suc b) c ha hb hc = absurd (omega arith)
bit_or_bound zero zero zero (suc c) ha hb hc = absurd (omega arith)
bit_or_bound (suc n) a b c ha hb hc =
    let ab = bit_or_digit a b in
    let ac = bit_or_digit a c in
    let hab : bit_or a b / 2 ≡ bit_or (a / 2) (b / 2) = omega (arith, ab) in
    let hac : bit_or a c / 2 ≡ bit_or (a / 2) (c / 2) = omega (arith, ac) in
    let left = bit_or_digit (bit_or a b) c in
    let right = bit_or_digit (bit_or a c) b in
    let rest = bit_or_bound n (a / 2) (b / 2) (c / 2) (omega arith) (omega arith) (omega arith) in
    let el = ap (λ (t : ℕ). bit_or t (c / 2)) hab in
    let er = ap (λ (t : ℕ). bit_or t (b / 2)) hac in
    omega (arith, ab, ac, left, right, rest, el, er)

pub bit_or_swap : (a b c : ℕ) → bit_or (bit_or a b) c ≡ bit_or (bit_or a c) b
bit_or_swap a b c = bit_or_bound (a + b + c) a b c (omega arith) (omega arith) (omega arith)

bit_or_again_bound : (n a b : ℕ) → a ≤ n → b ≤ n → bit_or (bit_or a b) b ≡ bit_or a b
bit_or_again_bound zero zero zero ha hb = refl
bit_or_again_bound zero (suc a) b ha hb = absurd (omega arith)
bit_or_again_bound zero zero (suc b) ha hb = absurd (omega arith)
bit_or_again_bound (suc n) a b ha hb =
    let ab = bit_or_digit a b in
    let hab : bit_or a b / 2 ≡ bit_or (a / 2) (b / 2) = omega (arith, ab) in
    let left = bit_or_digit (bit_or a b) b in
    let el = ap (λ (t : ℕ). bit_or t (b / 2)) hab in
    let rest = bit_or_again_bound n (a / 2) (b / 2) (omega arith) (omega arith) in
    omega (arith, ab, left, rest, el)

pub bit_or_again : (a b : ℕ) → bit_or (bit_or a b) b ≡ bit_or a b
bit_or_again a b = bit_or_again_bound (a + b) a b (omega arith) (omega arith)
