-- ===== src/Gbc/Mmu/Wram.antt =====
-- Work RAM and the bus of gbc/mmu.rs: banks and their echo.
use emulator_app.Base.{
  ℕ, ◌≤◌, ◌<◌, ◌≡◌, ap, ◌∙◌, ◌%◌, arith, ◌==◌, if◌then◌else◌, bit_and_low, length, get_or-set,
}
use emulator_app.Gbc.Mmu.{
  Mmu, read_io, wram_offset, unecho, read_direct, read_byte, write_direct, write_byte,
}

wram_offset-lt :
    (m : Mmu) (address : ℕ) → 0xC000 ≤ address → address < 0xE000 → wram_offset m address < 32768
wram_offset-lt m address lo hi = ground (arith, bit_and_low 3 (read_io m 0x70))

wram_offset-injective :
    (m : Mmu) (a b : ℕ)
    → 0xC000 ≤ a
    → a < 0xE000
    → 0xC000 ≤ b
    → b < 0xE000
    → (wram_offset m a == wram_offset m b) ≡ (a == b)
wram_offset-injective m a b la ha lb hb = ground (arith, bit_and_low 3 (read_io m 0x70))

direct :
    (m : Mmu) (a value b : ℕ)
    → length m.wram ≡ 32768
    → 0xC000 ≤ a
    → a < 0xE000
    → 0xC000 ≤ b
    → b < 0xE000
    → read_direct (write_direct m a value) b ≡ (if a == b then value else read_direct m b)
unfolding read_direct write_direct
direct m a value b size la ha lb hb =
    let o = wram_offset m a in
    let q = wram_offset m b in
    ground (
      arith,
      wram_offset-lt m a la ha,
      wram_offset-injective m a b la ha lb hb,
      get_or-set m.wram o q value 0,
    )

-- In the window of work RAM and its echo, from 0xC000 to 0xFDFF, a byte that is written is read back
-- at every address of the window that is a multiple of 0x2000 away, which is its own and the one of its
-- echo, and every other address of the window reads as before, whichever bank is selected.
pub write_byte-read_byte :
    (m : Mmu) (a value b : ℕ)
    → length m.wram ≡ 32768
    → 0xC000 ≤ a
    → a < 0xFE00
    → 0xC000 ≤ b
    → b < 0xFE00
    → read_byte (write_byte m a value) b
      ≡ (if a % 0x2000 == b % 0x2000 then value else read_byte m b)
unfolding read_byte write_byte
write_byte-read_byte m a value b size la ha lb hb =
    let same : (unecho a == unecho b) ≡ (a % 0x2000 == b % 0x2000) = ground arith in
    direct m (unecho a) value (unecho b) size (ground arith) (ground arith) (ground arith)
      (ground arith)
    ∙ ap (λ t. if t then value else read_direct m (unecho b)) same
