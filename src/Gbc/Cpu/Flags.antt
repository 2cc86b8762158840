-- ===== src/Gbc/Cpu/Flags.antt =====
-- The flag register of gbc/cpu.rs as four flags, and the accumulator's arithmetic as arithmetic on
-- numbers.
use emulator_app.Base.{ℕ, ◌+◌, ◌*◌, ◌/◌, ◌%◌, ◌^◌, ◌<◌, ◌≡◌, Bool, ◌==◌, ◌!=◌, arith, bit_and}
use emulator_app.Gbc.Cpu.Registers.{put_flag, bit_of}
use emulator_app.Gbc.Cpu.Alu.{}

-- A flag byte with the given flags and its low four bits clear.
abbrev pub flags : Bool → Bool → Bool → Bool → ℕ
flags z n h c = bit_of z * 128 + bit_of n * 64 + bit_of h * 32 + bit_of c * 16

abbrev pub bit_at : ℕ → ℕ → Bool
bit_at f k = f / 2 ^ k % 2 == 1

-- A byte whose low four bits are clear is the flags that it holds.
pub flags_lem :
    (f : ℕ) → f < 256 → f % 16 ≡ 0 → f ≡ flags (bit_at f 7) (bit_at f 6) (bit_at f 5) (bit_at f 4)
flags_lem f h low = ground arith

pub get_flag_lem :
    (z n h c : Bool)
    → let f = flags z n h c in
      ((bit_and f 0x80 != 0) ≡ z)
      × ((bit_and f 0x40 != 0) ≡ n)
      × ((bit_and f 0x20 != 0) ≡ h)
      × ((bit_and f 0x10 != 0) ≡ c)
get_flag_lem z n h c = ground arith

pub put_flag_lem :
    (z n h c v : Bool)
    → let f = flags z n h c in
      (put_flag f 0x80 v ≡ flags v n h c)
      × (put_flag f 0x40 v ≡ flags z v h c)
      × (put_flag f 0x20 v ≡ flags z n v c)
      × (put_flag f 0x10 v ≡ flags z n h v)
unfolding put_flag
put_flag_lem z n h c v = ground arith
