-- ===== src/Gbc/Cpu/Stack.antt =====
-- The stack of gbc/cpu.rs on the bus.
use emulator_app.Base.{
  ℕ, ◌+◌, ◌-◌, ◌/◌, ◌%◌, ◌≤◌, ◌<◌, ◌≡◌, refl, ◌∙◌, Bool, true, false, ◌&&◌, ◌||◌, ◌==◌, ltb, leb,
  if◌then◌else◌, arith, bit_and, bit_or_fields, bit_and_low, get_or-set, u8, u16,
}
use emulator_app.Gbc.Cpu.State.{Machine, push_word, pop_word}
use emulator_app.Gbc.Mmu.{Mmu, unecho, read_direct, read_byte, write_direct, write_byte}
use emulator_app.Gbc.Mmu.Sized.{IsSized, write_byte-IsSized}
use emulator_app.Gbc.Mmu.Wram

-- Work RAM, its echo, and high RAM.
abbrev pub in_ram : ℕ → Bool
in_ram address =
    leb 0xC000 address && ltb address 0xFE00 || leb 0xFF80 address && ltb address 0xFFFF

high :
    (m : Mmu) (a v b : ℕ)
    → IsSized m
    → 0xFF80 ≤ a
    → a < 0xFFFF
    → in_ram b ≡ true
    → read_byte (write_byte m a v) b ≡ (if a == b then v else read_byte m b)
unfolding read_byte write_byte read_direct write_direct
high m a v b h lo hi rb = ground (arith, get_or-set m.hram (a - 0xFF80) (b - 0xFF80) v 0)

low :
    (m : Mmu) (a v b : ℕ)
    → 0xC000 ≤ a
    → a < 0xFE00
    → 0xFF80 ≤ b
    → b < 0xFFFF
    → read_byte (write_byte m a v) b ≡ read_byte m b
unfolding read_byte write_byte read_direct write_direct
low m a v b lo hi lb hb = ground arith

-- A byte that is written in RAM is read back at each address of RAM that stands for the same cell,
-- and no other address of RAM changes.
pub write_byte-in_ram :
    (m : Mmu) (a v b : ℕ)
    → IsSized m
    → in_ram a ≡ true
    → in_ram b ≡ true
    → read_byte (write_byte m a v) b ≡ (if unecho a == unecho b then v else read_byte m b)
write_byte-in_ram m a v b h ra rb =
    ground (arith, high m a v b h, low m a v b, Wram.write_byte-read_byte m a v b h.wram)

-- The two cells below the stack pointer are RAM.
abbrev pub HasRoom : ℕ → Type 0
HasRoom sp = (2 ≤ sp) × (sp < 65536) × (in_ram (sp - 1) ≡ true) × (in_ram (sp - 2) ≡ true)

distinct : (sp : ℕ) → HasRoom sp → (unecho (sp - 2) == unecho (sp - 1)) ≡ false
distinct sp room = ground arith

-- Popping a word that was just pushed on a stack in RAM gives that word, and leaves the processor as
-- it was before the push.
pub pop_word-push_word :
    (m : Machine) (val : ℕ)
    → IsSized m.mmu
    → HasRoom m.cpu.registers.sp
    → val < 65536
    → let popped = pop_word (push_word m val) in (popped.1 ≡ val) × (popped.0.cpu ≡ m.cpu)
unfolding pop_word push_word
pop_word-push_word m val h room small =
    let sp = m.cpu.registers.sp in
    let top : u16 (sp + 65535) ≡ sp - 1 = omega arith in
    let bottom : u16 (sp - 1 + 65535) ≡ sp - 2 = omega arith in
    let back : u16 (sp - 2 + 1) ≡ sp - 1 = omega arith in
    let again : u16 (sp - 1 + 1) ≡ sp = omega arith in
    let hi = u8 (val / 256) in
    let lo = bit_and val 255 in
    let one = write_byte m.mmu (sp - 1) hi in
    let sized : IsSized one = write_byte-IsSized m.mmu (sp - 1) hi h in
    let two = write_byte one (sp - 2) lo in
    let low_byte : lo ≡ val % 256 = bit_and_low 8 val in
    let got_low : read_byte two (sp - 2) ≡ lo =
      ground (arith, write_byte-in_ram one (sp - 2) lo (sp - 2) sized) in
    let got_high : read_byte two (sp - 1) ≡ hi = ground (
      arith,
      distinct sp room,
      write_byte-in_ram one (sp - 2) lo (sp - 1) sized,
      write_byte-in_ram m.mmu (sp - 1) hi (sp - 1) h,
    ) in
    rw (top, bottom, back, again, got_low, got_high)
      (bit_or_fields 8 hi lo (omega (arith, low_byte)) ∙ omega (arith, low_byte), refl)
