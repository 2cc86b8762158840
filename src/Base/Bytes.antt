-- ===== src/Base/Bytes.antt =====
-- Facts about all bytes, by evaluation.
use Prim.Native.Nat.{ℕ, zero, suc, ◌+◌, ◌-◌, ◌*◌, ◌/◌, ◌%◌, ◌^◌, ◌<◌, bit_and, bit_or}
use mathlib.Core.Path.{◌≡◌, refl}
use mathlib.Core.Bool.{Bool, true, ◌&&◌}
use native.Mathlib.Omega.{arith}
use emulator_app.Base.Tests.{◌==◌, ==_iff}

abbrev pub every_below : ℕ → (ℕ → Bool) → Bool
every_below zero p = true
every_below (suc n) p = p n && every_below n p

pub every_below_sound : (n : ℕ) (p : ℕ → Bool) (x : ℕ) → every_below n p ≡ true → x < n → p x ≡ true
every_below_sound zero p x h lt = absurd (omega arith)
every_below_sound (suc n) p x h lt = ground (arith, every_below_sound n p x)

-- A property of bit numbers and bytes that holds by evaluation.
bits_and_bytes : (ℕ → ℕ → Bool) → Bool
bits_and_bytes p = every_below 8 (λ k. every_below 256 (p k))

bits_and_bytes_sound :
    (p : ℕ → ℕ → Bool) (k a : ℕ) → bits_and_bytes p ≡ true → k < 8 → a < 256 → p k a ≡ true
unfolding bits_and_bytes
bits_and_bytes_sound p k a h hk ha =
    every_below_sound 256 (p k) a (every_below_sound 8 (λ j. every_below 256 (p j)) k h hk) ha

clear_table : bits_and_bytes (λ k a. bit_and a (255 - 2 ^ k) + a / 2 ^ k % 2 * 2 ^ k == a) ≡ true
unfolding bits_and_bytes
clear_table = refl

-- Clearing a bit of a byte takes away what the bit counts.
pub bit_and_clear :
    (k a : ℕ) → k < 8 → a < 256 → bit_and a (255 - 2 ^ k) + a / 2 ^ k % 2 * 2 ^ k ≡ a
bit_and_clear k a hk ha = (==_iff _ a).0 (bits_and_bytes_sound _ k a clear_table hk ha)

set_table : bits_and_bytes (λ k a. bit_or a (2 ^ k) + a / 2 ^ k % 2 * 2 ^ k == a + 2 ^ k) ≡ true
unfolding bits_and_bytes
set_table = refl

-- Setting a bit adds what the bit counts where it was clear.
pub bit_or_set : (k a : ℕ) → k < 8 → a < 256 → bit_or a (2 ^ k) + a / 2 ^ k % 2 * 2 ^ k ≡ a + 2 ^ k
bit_or_set k a hk ha = (==_iff _ _).0 (bits_and_bytes_sound _ k a set_table hk ha)
