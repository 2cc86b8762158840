-- ===== src/Base/Bits/Digits.antt =====
-- Laws of `&` and `|` at variables: one equation for the lowest digit, and from it the laws for
-- fields and masks, at every width.
use Prim.Native.Nat.{
  ℕ, zero, suc, ◌+◌, ◌*◌, ◌/◌, ◌%◌, ◌^◌, ◌≤◌, ◌<◌, min, max, bit_and, bit_or, digits, bitwise,
  bit_and-bitwise, bit_or-bitwise,
}
use mathlib.Core.Path.{◌≡◌, refl, ap}
use native.Mathlib.Nat.{pow-suc, le_refl}
use native.Mathlib.Omega.{arith}

-- The library's digit recursion does not depend on fuel that covers its first argument.
digits_enough :
    (z : ℕ → ℕ) (f : ℕ → ℕ → ℕ) (n m a b : ℕ) → a ≤ n → a ≤ m → digits z f n a b ≡ digits z f m a b
digits_enough z f zero zero a b p q = refl
digits_enough z f zero (suc m) zero b p q = refl
digits_enough z f zero (suc m) (suc a) b p q = absurd (omega arith)
digits_enough z f (suc n) zero zero b p q = refl
digits_enough z f (suc n) zero (suc a) b p q = absurd (omega arith)
digits_enough z f (suc n) (suc m) zero b p q = refl
digits_enough z f (suc n) (suc m) (suc a) b p q =
    rw (digits_enough z f n m (suc a / 2) (b / 2) (omega arith) (omega arith))

bitwise_digit :
    (z : ℕ → ℕ) (f : ℕ → ℕ → ℕ) (a b : ℕ)
    → bitwise z f (suc a) b ≡ bitwise z f (suc a / 2) (b / 2) * 2 + f (suc a % 2) (b % 2)
bitwise_digit z f a b =
    omega (arith, digits_enough z f a (suc a / 2) (suc a / 2) (b / 2) (omega arith) (le_refl _))

pub bit_and_digit : (a b : ℕ) → bit_and a b ≡ bit_and (a / 2) (b / 2) * 2 + min (a % 2) (b % 2)
bit_and_digit zero b = simp bit_and-bitwise (omega arith)
bit_and_digit (suc a) b = simp bit_and-bitwise (bitwise_digit (λ _. 0) min a b)

pub bit_or_digit : (a b : ℕ) → bit_or a b ≡ bit_or (a / 2) (b / 2) * 2 + max (a % 2) (b % 2)
bit_or_digit zero b = simp bit_or-bitwise (omega arith)
bit_or_digit (suc a) b = simp bit_or-bitwise (bitwise_digit (λ y. y) max a b)

pub zero-bit_and : (b : ℕ) → bit_and 0 b ≡ 0
zero-bit_and b = bit_and-bitwise 0 b

-- `&` never exceeds either side.
bit_and-le_fuel : (n a b : ℕ) → a ≤ n → (bit_and a b ≤ a) × (bit_and a b ≤ b)
bit_and-le_fuel zero zero b h = rw zero-bit_and (omega arith)
bit_and-le_fuel zero (suc a) b h = absurd (omega arith)
bit_and-le_fuel (suc n) zero b h = rw zero-bit_and (omega arith)
bit_and-le_fuel (suc n) (suc a) b h =
    omega (arith, bit_and_digit (suc a) b, bit_and-le_fuel n (suc a / 2) (b / 2) (omega arith))

pub bit_and-le : (a b : ℕ) → (bit_and a b ≤ a) × (bit_and a b ≤ b)
bit_and-le a b = bit_and-le_fuel a a b (le_refl a)

bit_or-zero_fuel : (n a : ℕ) → a ≤ n → bit_or a 0 ≡ a
bit_or-zero_fuel n zero h = refl
bit_or-zero_fuel zero (suc a) h = absurd (omega arith)
bit_or-zero_fuel (suc n) (suc a) h =
    omega (arith, bit_or_digit (suc a) 0, bit_or-zero_fuel n (suc a / 2) (omega arith))

pub bit_or-zero : (a : ℕ) → bit_or a 0 ≡ a
bit_or-zero a = bit_or-zero_fuel a a (le_refl a)

pub pow_times : (q k : ℕ) → q * 2 ^ suc k ≡ 2 * (q * 2 ^ k)
pow_times q k = omega (arith, ap (λ (t : ℕ). q * t) (pow-suc 2 k))

-- `&` and `|` act on the digits above a place and below it apart.
pub bit_and_split :
    (k p q r s : ℕ)
    → r < 2 ^ k
    → s < 2 ^ k
    → bit_and (p * 2 ^ k + r) (q * 2 ^ k + s) ≡ bit_and p q * 2 ^ k + bit_and r s
bit_and_split zero p q zero zero hr hs =
    let e : p * 2 ^ 0 + 0 ≡ p = omega arith in
    let f : q * 2 ^ 0 + 0 ≡ q = omega arith in rw (e, f) (omega (arith, zero-bit_and 0))
bit_and_split zero p q (suc r) s hr hs = absurd (omega arith)
bit_and_split zero p q zero (suc s) hr hs = absurd (omega arith)
bit_and_split (suc k) p q r s hr hs = ground (
  arith,
  bit_and_digit (p * 2 ^ suc k + r) (q * 2 ^ suc k + s),
  bit_and_digit r s,
  pow_times p k,
  pow_times q k,
  pow_times (bit_and p q) k,
  pow-suc 2 k,
  bit_and_split k p q (r / 2) (s / 2),
)

pub bit_or_split :
    (k p q r s : ℕ)
    → r < 2 ^ k
    → s < 2 ^ k
    → bit_or (p * 2 ^ k + r) (q * 2 ^ k + s) ≡ bit_or p q * 2 ^ k + bit_or r s
bit_or_split zero p q zero zero hr hs =
    let e : p * 2 ^ 0 + 0 ≡ p = omega arith in
    let f : q * 2 ^ 0 + 0 ≡ q = omega arith in rw (e, f) (omega (arith, bit_or-zero 0))
bit_or_split zero p q (suc r) s hr hs = absurd (omega arith)
bit_or_split zero p q zero (suc s) hr hs = absurd (omega arith)
bit_or_split (suc k) p q r s hr hs = ground (
  arith,
  bit_or_digit (p * 2 ^ suc k + r) (q * 2 ^ suc k + s),
  bit_or_digit r s,
  pow_times p k,
  pow_times q k,
  pow_times (bit_or p q) k,
  pow-suc 2 k,
  bit_or_split k p q (r / 2) (s / 2),
)
