-- ===== src/Base/Encoding.antt =====
-- Little-endian integers and slices of byte strings.
use Prim.Native.Nat.{ℕ, zero, suc, ◌+◌, ◌-◌, ◌*◌, ◌/◌, ◌%◌, ◌^◌, ◌≤◌, ◌<◌}
use mathlib.Core.Path.{◌≡◌, refl, ap, ◌∙◌}
use mathlib.Core.List.{List, [], ◌∷◌, ◌++◌}
use native.Mathlib.Omega.{arith}
use emulator_app.Base.Lists.{take, drop, set}

abbrev pub u32_le : ℕ → List ℕ
u32_le x = x % 256 ∷ x / 256 % 256 ∷ x / 65536 % 256 ∷ x / 16777216 % 256 ∷ []

abbrev pub u64_le : ℕ → List ℕ
u64_le x = u32_le x ++ u32_le (x / 4294967296)

abbrev pub from_le_bytes : List ℕ → ℕ
from_le_bytes [] = 0
from_le_bytes (b ∷ bs) = b + 256 * from_le_bytes bs

-- `data[from..to]`
abbrev pub slice : List ℕ → ℕ → ℕ → List ℕ
slice xs from to = take (to - from) (drop from xs)

pub u32_le-from : (x : ℕ) → x < 2 ^ 32 → from_le_bytes (u32_le x) ≡ x
u32_le-from x h = omega arith

pub u64_le-from : (x : ℕ) → x < 2 ^ 64 → from_le_bytes (u64_le x) ≡ x
u64_le-from x h = omega arith

pub drop-set_before : (n j v : ℕ) (xs : List ℕ) → j < n → drop n (set xs j v) ≡ drop n xs
drop-set_before zero j v xs h = absurd (omega arith)
drop-set_before (suc n) j v [] h = refl
drop-set_before (suc n) zero v (x ∷ xs) h = refl
drop-set_before (suc n) (suc j) v (x ∷ xs) h = drop-set_before n j v xs (omega arith)

pub drop-set_after : (n j v : ℕ) (xs : List ℕ) → drop n (set xs (n + j) v) ≡ set (drop n xs) j v
drop-set_after zero j v xs = let e : 0 + j ≡ j = omega arith in ap (λ i. set xs i v) e
drop-set_after (suc n) j v [] = refl
drop-set_after (suc n) j v (x ∷ xs) =
    let e : suc n + j ≡ suc (n + j) = omega arith in
    ap (λ i. drop (suc n) (set (x ∷ xs) i v)) e ∙ drop-set_after n j v xs

pub take-set_after : (n j v : ℕ) (xs : List ℕ) → n ≤ j → take n (set xs j v) ≡ take n xs
take-set_after zero j v xs h = refl
take-set_after (suc n) j v [] h = refl
take-set_after (suc n) zero v (x ∷ xs) h = absurd (omega arith)
take-set_after (suc n) (suc j) v (x ∷ xs) h =
    ap (λ t. x ∷ t) (take-set_after n j v xs (omega arith))
