-- ===== src/Base/Division.antt =====
-- Quotients and remainders by a variable, which the tactics do not compute.
use Prim.Native.Nat.{ℕ, ◌+◌, ◌-◌, ◌*◌, ◌/◌, ◌%◌, ◌≤◌, ◌<◌}
use mathlib.Core.Path.{◌≡◌, ap}
use native.Mathlib.Nat.{div-add-mod, mod-lt, div-eq_of_lt-le}
use native.Mathlib.Omega.{arith}

-- Quotient and remainder are determined by their equation.
pub div_mod_unique : (p q r n : ℕ) → n ≡ q * p + r → r < p → (n / p ≡ q) × (n % p ≡ r)
div_mod_unique p q r n e h =
    let quotient : n / p ≡ q = div-eq_of_lt-le p (omega arith) (omega arith) in
    (quotient, omega (arith, div-add-mod n p, ap (λ (t : ℕ). p * t) quotient))

-- Past the end of a period: `o + b` cycles of overflow, by way of the reload that `o` left.
pub carried :
    (p o b : ℕ)
    → 0 < p
    → p - o % p ≤ b
    → ((o + b) / p ≡ o / p + 1 + (b - (p - o % p)) / p) × ((o + b) % p ≡ (b - (p - o % p)) % p)
carried p o b h le =
    let c = b - (p - o % p) in
    div_mod_unique p (o / p + 1 + c / p) (c % p) (o + b)
      (omega (arith, div-add-mod o p, div-add-mod c p, mod-lt o h)) (mod-lt c h)

pub uncarried :
    (p o b : ℕ) → 0 < p → b < p - o % p → ((o + b) / p ≡ o / p) × ((o + b) % p ≡ o % p + b)
uncarried p o b h lt =
    div_mod_unique p (o / p) (o % p + b) (o + b) (omega (arith, div-add-mod o p)) (omega arith)
