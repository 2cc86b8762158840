-- ===== src/Gbc/Rtc/Registers.antt =====
-- The clock registers of gbc/mbc3.rs as a game sees them: written directly, read through the latch.
use emulator_app.Base.{
  ℕ, zero, suc, ◌+◌, ◌*◌, ◌/◌, ◌%◌, ◌≤◌, ◌<◌, ◌≡◌, ◌≢◌, refl, arith, ◌==◌, if◌then◌else◌, bit_and,
  bit_or, bit_and_low, bit_and_bit, bit_or_add, bit_and_cut, bit_or_cut, bit_or-zero,
}
use emulator_app.Gbc.Rtc.{RealTimeClock, latch, write_register, read_register}

-- The bits of a clock register that exist.
abbrev pub register_mask : ℕ → ℕ
register_mask reg =
    if reg == 0x08
    then 0x3F
    else if reg == 0x09
    then 0x3F
    else if reg == 0x0A
    then 0x1F
    else if reg == 0x0B
    then 0xFF
    else 0xC1

-- What a game reads in a register after it latches the clock.
unfoldable pub seen : RealTimeClock → ℕ → ℕ
unfolding latch read_register
seen r reg = read_register (latch r) reg

days_low : (d v : ℕ) → v < 256 → bit_or (bit_and d 0x100) v ≡ d / 256 % 2 * 256 + v
days_low d v h =
    omega
      (arith, bit_and_bit 8 d, bit_or_add 8 (bit_and d 0x100) v (omega (arith, bit_and_bit 8 d)) h)

days_high : (d : ℕ) → d < 512 → bit_or d 0x100 ≡ 256 + d % 256
days_high d h =
    omega (arith, bit_or_cut 8 d 0x100, bit_or-zero (d % 256), high (d / 256) (omega arith))
  where
    high : (x : ℕ) → x < 2 → bit_or x 1 ≡ 1
    high zero k = refl
    high (suc zero) k = refl
    high (suc (suc x)) k = absurd (omega arith)

flags_masked : (v : ℕ) → v < 256 → bit_and v 0xC1 ≡ v / 128 % 2 * 128 + v / 64 % 2 * 64 + v % 2
flags_masked v h =
    ground (arith, bit_and_cut 6 v 0xC1, bit_and_low 2 (v / 64), bit_and_low 1 (v % 64))

low_zero : (x : ℕ) → bit_and x 0x01 ≡ x % 2
low_zero x = bit_and_low 1 x

-- A register that is written, latched and read gives the bits of the value that the register has.
pub seen-write_register_self :
    (r : RealTimeClock) (reg v : ℕ)
    → r.days < 512
    → v < 256
    → 0x08 ≤ reg
    → reg ≤ 0x0C
    → seen (write_register r reg v) reg ≡ bit_and v (register_mask reg)
unfolding seen write_register latch read_register
seen-write_register_self r reg v hd hv lo hi = ground (
  arith,
  days_low r.days v hv,
  days_high r.days hd,
  flags_masked v hv,
  bit_and_low 8 v,
  bit_and_low 8 (r.days / 256 % 2 * 256 + v),
  bit_and_low 8 r.days,
  bit_and_bit 0 v,
  bit_and_bit 6 v,
  bit_and_bit 7 v,
)

-- Writing one register changes what no other register shows.
pub seen-write_register_other :
    (r : RealTimeClock) (reg other v : ℕ)
    → r.days < 512
    → v < 256
    → reg ≢ other
    → seen (write_register r reg v) other ≡ seen r other
unfolding seen write_register latch read_register
seen-write_register_other r reg other v hd hv ne = ground (
  arith,
  days_low r.days v hv,
  days_high r.days hd,
  bit_and_low 8 (r.days / 256 % 2 * 256 + v),
  bit_and_low 8 r.days,
  bit_and_low 8 (256 + r.days % 256),
  bit_and_low 8 (r.days % 256),
)
