-- ===== src/Base/Bits.antt =====
-- Laws of `&` and `|` at variables, which the tactics take for unknowns.
mod Digits
mod Masks
mod Single
pub use Digits.{bit_and-le, bit_or-zero, bit_and_split, bit_or_split, bit_and_digit, bit_or_digit}
pub use Digits.{zero-bit_and}
pub use Masks.*
pub use Single.*
