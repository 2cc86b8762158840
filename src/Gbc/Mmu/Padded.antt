-- ===== src/Gbc/Mmu/Padded.antt =====
-- Reads of gbc/mmu.rs stay inside the memories: what stands behind them is not seen.
pub mod Writes
use emulator_app.Base.{
  ℕ, zero, suc, ◌+◌, ◌-◌, ◌*◌, ◌%◌, ◌<◌, ◌≤◌, ◌≡◌, refl, ap, ◌∙◌, arith, ltb, leb, ◌⊎◌, ◌&&◌, ◌||◌,
  Bool, ◌==◌, true, false, if◌then◌else◌, List, ◌++◌, bit_and, bit_or, bit_and-le, length, set,
  get_or, get_or-append, set-append, u8, u16, ◌<<◌, inl, inr, Bool-cases,
}
use emulator_app.Gbc.Mmu.{
  Mmu, read_io, vram_bank, vram_offset, wram_offset, unecho, read_joypad, read_register,
  read_direct, read_byte, oam_dma, copy_byte, copy, dma_source, dma_target, start_dma,
  write_register, write_direct, write_byte, hdma_step, write_io,
}
use emulator_app.Gbc.Mmu.Sized.{
  IsSized, io-IsSized, oam_dma-IsSized, copy-IsSized, copy_byte-IsSized,
}

-- The machine with more bytes behind each of its memories.
abbrev pub padded : List ℕ → Mmu → Mmu
padded x m = record m {
  vram = m.vram ++ x;
  wram = m.wram ++ x;
  oam = m.oam ++ x;
  io = m.io ++ x;
  hram = m.hram ++ x;
  bg_palette_ram = m.bg_palette_ram ++ x;
  obj_palette_ram = m.obj_palette_ram ++ x;
}

pub unecho_plain : (a : ℕ) → (unecho a < 0xE000) ⊎ (0xFE00 ≤ unecho a)
unecho_plain a = elim (Bool-cases (leb 0xE000 a && ltb a 0xFE00)) [
  | inl echoed ↦ inl (ground (arith, echoed))
  | inr other ↦ elim (Bool-cases (ltb a 0xE000)) [
    | inl low ↦ inl (ground (arith, other, low))
    | inr high ↦ inr (ground (arith, other, high))
  ]
]

module _ (x : List ℕ) (m : Mmu) (h : IsSized m) where
  pub read_io-padded : (i : ℕ) → i < 128 → read_io (padded x m) i ≡ read_io m i
  read_io-padded i small = get_or-append m.io x i 0 (omega (arith, h.io))

  pub vram_bank-padded : vram_bank (padded x m) ≡ vram_bank m
  vram_bank-padded = ap (λ n. bit_and n 0x01) (read_io-padded 0x4F (omega arith))

  pub wram_offset-padded : (a : ℕ) → wram_offset (padded x m) a ≡ wram_offset m a
  wram_offset-padded a = rw (read_io-padded 0x70 (omega arith)) refl

  vram_inside :
      (bank a : ℕ)
      → bank ≤ 1
      → leb 0x8000 a ≡ true
      → a < 0xA000
      → vram_offset bank a < length m.vram
  vram_inside bank a one lo hi = ground (arith, h.vram)

  read_joypad-padded : read_joypad (padded x m) ≡ read_joypad m
  unfolding read_joypad
  read_joypad-padded = rw (read_io-padded 0 (omega arith)) refl

  read_register-padded : (i : ℕ) → i < 128 → read_register (padded x m) i ≡ read_register m i
  unfolding read_register
  read_register-padded i small = ground (
    arith,
    read_joypad-padded,
    read_io-padded i small,
    get_or-append m.bg_palette_ram x (bit_and m.bcps 0x3F) 0
        (omega (arith, bit_and-le m.bcps 0x3F, h.bg_palette_ram)),
    get_or-append m.obj_palette_ram x (bit_and m.ocps 0x3F) 0
        (omega (arith, bit_and-le m.ocps 0x3F, h.obj_palette_ram)),
  )

  pub vram_offset-padded :
      (a : ℕ) → vram_offset (vram_bank (padded x m)) a ≡ vram_offset (vram_bank m) a
  vram_offset-padded a = ap (λ b. vram_offset b a) vram_bank-padded

  vram_read :
      (a : ℕ)
      → 0x8000 ≤ a
      → a < 0xA000
      → get_or (m.vram ++ x) (vram_offset (vram_bank (padded x m)) a) 0
        ≡ get_or m.vram (vram_offset (vram_bank m) a) 0
  vram_read a lo hi =
      ap (λ i. get_or (m.vram ++ x) i 0) (vram_offset-padded a)
      ∙ get_or-append m.vram x (vram_offset (vram_bank m) a) 0
          (omega (arith, bit_and-le (read_io m 0x4F) 0x01, h.vram))

  pub wram_inside : (a : ℕ) → 0xC000 ≤ a → a < 0xE000 → wram_offset m a < length m.wram
  wram_inside a lo hi = ground (arith, bit_and-le (read_io m 0x70) 0x07, h.wram)

  wram_read :
      (a : ℕ)
      → 0xC000 ≤ a
      → a < 0xE000
      → get_or (m.wram ++ x) (wram_offset (padded x m) a) 0 ≡ get_or m.wram (wram_offset m a) 0
  wram_read a lo hi =
      ap (λ i. get_or (m.wram ++ x) i 0) (wram_offset-padded a)
      ∙ get_or-append m.wram x (wram_offset m a) 0 (wram_inside a lo hi)

  oam_read :
      (a : ℕ)
      → 0xFE00 ≤ a
      → a < 0xFEA0
      → get_or (m.oam ++ x) (a - 0xFE00) 0 ≡ get_or m.oam (a - 0xFE00) 0
  oam_read a lo hi = get_or-append m.oam x (a - 0xFE00) 0 (omega (arith, h.oam))

  hram_read :
      (a : ℕ)
      → 0xFF80 ≤ a
      → a < 0xFFFF
      → get_or (m.hram ++ x) (a - 0xFF80) 0 ≡ get_or m.hram (a - 0xFF80) 0
  hram_read a lo hi = get_or-append m.hram x (a - 0xFF80) 0 (omega (arith, h.hram))

  register_read :
      (a : ℕ)
      → 0xFF00 ≤ a
      → a < 0xFF80
      → read_register (padded x m) (a - 0xFF00) ≡ read_register m (a - 0xFF00)
  register_read a lo hi = read_register-padded (a - 0xFF00) (omega arith)

  read_direct-padded :
      (a : ℕ) → (a < 0xE000) ⊎ (0xFE00 ≤ a) → read_direct (padded x m) a ≡ read_direct m a
  unfolding read_direct
  read_direct-padded a plain =
      ground (arith, plain, vram_read a, wram_read a, oam_read a, hram_read a, register_read a)

  pub read_byte-padded : (a : ℕ) → read_byte (padded x m) a ≡ read_byte m a
  unfolding read_byte
  read_byte-padded a = read_direct-padded (unecho a) (unecho_plain a)
