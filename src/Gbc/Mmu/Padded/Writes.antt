-- ===== src/Gbc/Mmu/Padded/Writes.antt =====
-- Writes and transfers of gbc/mmu.rs stay inside the memories: what stands behind them is left.
use emulator_app.Base.{
  ℕ, zero, suc, ◌+◌, ◌-◌, ◌*◌, ◌<◌, ◌≤◌, ◌≡◌, refl, ap, ◌∙◌, arith, leb, ◌⊎◌, ◌&&◌, Bool, ◌==◌,
  true, false, if◌then◌else◌, List, ◌++◌, bit_and, bit_or, bit_and-le, set, set-append, u8, u16,
  ◌<<◌, inl, inr, Bool-cases,
}
use emulator_app.Gbc.Mmu.{
  Mmu, write_io, read_io, vram_bank, vram_offset, wram_offset, read_byte, oam_dma, copy_byte, copy,
  dma_source, dma_target, start_dma, write_register, write_direct, hdma_step, write_io,
}
use emulator_app.Gbc.Mmu.Sized.{IsSized, oam_dma-IsSized, copy-IsSized, copy_byte-IsSized}
use emulator_app.Gbc.Mmu.Padded.{
  padded, read_io-padded, vram_bank-padded, vram_offset-padded, wram_offset-padded, wram_inside,
  read_byte-padded,
}

oam_dma-padded :
    (n : ℕ) (x : List ℕ) (m : Mmu) (base i : ℕ)
    → IsSized m
    → i + n ≤ 160
    → oam_dma (padded x m) base i n ≡ padded x (oam_dma m base i n)
unfolding oam_dma
oam_dma-padded zero x m base i h fits = refl
oam_dma-padded (suc n) x m base i h fits =
    let v = read_byte m (base + i) in
    let stored : set (m.oam ++ x) i v ≡ set m.oam i v ++ x =
      set-append m.oam x i v (omega (arith, h.oam)) in
    rw (read_byte-padded x m h (base + i), stored)
      (oam_dma-padded n x (record m { oam = set m.oam i v }) base (i + 1)
        (oam_dma-IsSized 1 m base i h) (omega arith))

copy_byte-padded :
    (x : List ℕ) (m : Mmu) (bank s t : ℕ)
    → IsSized m
    → bank ≤ 1
    → copy_byte (padded x m) bank s t ≡ padded x (copy_byte m bank s t)
unfolding copy_byte
copy_byte-padded x m bank s t h one = elim (Bool-cases (leb 0x8000 t && leb t 0x9FFF)) [
  | inl inside ↦
      let v = read_byte m s in
      let stored : set (m.vram ++ x) (vram_offset bank t) v
          ≡ set m.vram (vram_offset bank t) v ++ x =
        set-append m.vram x (vram_offset bank t) v (ground (arith, h.vram, inside)) in
      rw (inside, read_byte-padded x m h s, stored) refl
  | inr outside ↦ rw (outside) refl
]

copy-padded :
    (n : ℕ) (x : List ℕ) (m : Mmu) (bank s t i : ℕ)
    → IsSized m
    → bank ≤ 1
    → copy (padded x m) bank s t i n ≡ padded x (copy m bank s t i n)
unfolding copy
copy-padded zero x m bank s t i h one = refl
copy-padded (suc n) x m bank s t i h one =
    let m1 = copy_byte m bank (u16 (s + i)) (u16 (t + i)) in
    rw (copy_byte-padded x m bank (u16 (s + i)) (u16 (t + i)) h one) (
      copy-padded n x m1 bank s t (i + 1) (copy_byte-IsSized m bank (u16 (s + i)) (u16 (t + i)) h)
        one)

write_io-padded :
    (x : List ℕ) (m : Mmu) (i v : ℕ)
    → IsSized m
    → i < 128
    → write_io (padded x m) i v ≡ padded x (write_io m i v)
write_io-padded x m i v h small =
    let stored : set (m.io ++ x) i v ≡ set m.io i v ++ x =
      set-append m.io x i v (omega (arith, h.io)) in
    rw (stored) refl

dma_source-padded : (x : List ℕ) (m : Mmu) → IsSized m → dma_source (padded x m) ≡ dma_source m
dma_source-padded x m h =
    rw (read_io-padded x m h 0x51 (omega arith), read_io-padded x m h 0x52 (omega arith)) refl

dma_target-padded : (x : List ℕ) (m : Mmu) → IsSized m → dma_target (padded x m) ≡ dma_target m
dma_target-padded x m h =
    rw (read_io-padded x m h 0x53 (omega arith), read_io-padded x m h 0x54 (omega arith)) refl

io-padded :
    (x : List ℕ) (m : Mmu) (i v : ℕ) → IsSized m → i < 128 → set (m.io ++ x) i v ≡ set m.io i v ++ x
io-padded x m i v h small = set-append m.io x i v (omega (arith, h.io))

-- A branch is taken alike with and without what stands behind.
either :
    (x : List ℕ) (b : Bool) (s t s' t' : Mmu)
    → (b ≡ true → s ≡ padded x s')
    → (b ≡ false → t ≡ padded x t')
    → (if b then s else t) ≡ padded x (if b then s' else t')
either x true s t s' t' p q = p refl
either x false s t s' t' p q = q refl

start_dma-padded :
    (x : List ℕ) (m : Mmu) (v : ℕ) → IsSized m → start_dma (padded x m) v ≡ padded x (start_dma m v)
unfolding start_dma
start_dma-padded x m v h =
    let n = (bit_and v 0x7F + 1) * 16 in
    let moved = copy m (vram_bank m) (dma_source m) (dma_target m) 0 n in
    let one : vram_bank m ≤ 1 = (bit_and-le (read_io m 0x4F) 0x01).1 in
    either x (bit_and v 0x80 == 0) _ _ _ _
      (λ plain.
        either x m.hdma_active _ _ _ _
          (λ active.
            rw (io-padded x m 0x55 (bit_or (u8 (m.hdma_blocks + 255)) 0x80) h (omega arith)) refl)
          (λ idle.
            rw
              (
                vram_bank-padded x m h,
                dma_source-padded x m h,
                dma_target-padded x m h,
                copy-padded n x m (vram_bank m) (dma_source m) (dma_target m) 0 h one,
              )
              (write_io-padded x moved 0x55 0xFF
                (copy-IsSized n m (vram_bank m) (dma_source m) (dma_target m) 0 h) (omega arith))))
      (λ blanks.
        rw
          (
            dma_source-padded x m h,
            dma_target-padded x m h,
            io-padded x m 0x55 (bit_and v 0x7F) h (omega arith),
          )
          refl)

pub hdma_step-padded :
    (x : List ℕ) (m : Mmu) → IsSized m → hdma_step (padded x m) ≡ padded x (hdma_step m)
unfolding hdma_step
hdma_step-padded x m h =
    let left = u8 (m.hdma_blocks + 255) in
    let one : vram_bank m ≤ 1 = (bit_and-le (read_io m 0x4F) 0x01).1 in
    either x m.hdma_active _ _ _ _
      (λ active.
        rw
          (
            vram_bank-padded x m h,
            copy-padded 16 x m (vram_bank m) m.hdma_src m.hdma_dst 0 h one,
            io-padded x m 0x55 (if left == 0 then 0xFF else left - 1) h (omega arith),
          )
          refl)
      (λ idle. refl)

write_register-padded :
    (x : List ℕ) (m : Mmu) (i v : ℕ)
    → IsSized m
    → i < 128
    → write_register (padded x m) i v ≡ padded x (write_register m i v)
unfolding write_register
write_register-padded x m i v h small =
    let bg = bit_and m.bcps 0x3F in
    let obj = bit_and m.ocps 0x3F in
    let bg_kept : set (m.bg_palette_ram ++ x) bg v ≡ set m.bg_palette_ram bg v ++ x =
      set-append m.bg_palette_ram x bg v
        (omega (arith, bit_and-le m.bcps 0x3F, h.bg_palette_ram)) in
    let obj_kept : set (m.obj_palette_ram ++ x) obj v ≡ set m.obj_palette_ram obj v ++ x =
      set-append m.obj_palette_ram x obj v
        (omega (arith, bit_and-le m.ocps 0x3F, h.obj_palette_ram)) in
    ground (
      arith,
      oam_dma-padded 160 x m (v << 8) 0 h (omega arith),
      io-padded x (oam_dma m (v << 8) 0 160) 0x46 v (oam_dma-IsSized 160 m (v << 8) 0 h)
          (omega arith),
      start_dma-padded x m v h,
      bg_kept,
      obj_kept,
      io-padded x m i v h small,
    )

module _ (x : List ℕ) (m : Mmu) (h : IsSized m) (a v : ℕ) where
  vram_write :
      0x8000 ≤ a
      → a < 0xA000
      → set (m.vram ++ x) (vram_offset (vram_bank (padded x m)) a) v
        ≡ set m.vram (vram_offset (vram_bank m) a) v ++ x
  vram_write lo hi =
      ap (λ i. set (m.vram ++ x) i v) (vram_offset-padded x m h a)
      ∙ set-append m.vram x (vram_offset (vram_bank m) a) v
          (omega (arith, bit_and-le (read_io m 0x4F) 0x01, h.vram))

  wram_write :
      0xC000 ≤ a
      → a < 0xE000
      → set (m.wram ++ x) (wram_offset (padded x m) a) v ≡ set m.wram (wram_offset m a) v ++ x
  wram_write lo hi =
      ap (λ i. set (m.wram ++ x) i v) (wram_offset-padded x m h a)
      ∙ set-append m.wram x (wram_offset m a) v (wram_inside x m h a lo hi)

  oam_write :
      0xFE00 ≤ a → a < 0xFEA0 → set (m.oam ++ x) (a - 0xFE00) v ≡ set m.oam (a - 0xFE00) v ++ x
  oam_write lo hi = set-append m.oam x (a - 0xFE00) v (omega (arith, h.oam))

  hram_write :
      0xFF80 ≤ a → a < 0xFFFF → set (m.hram ++ x) (a - 0xFF80) v ≡ set m.hram (a - 0xFF80) v ++ x
  hram_write lo hi = set-append m.hram x (a - 0xFF80) v (omega (arith, h.hram))

  register_write :
      0xFF00 ≤ a
      → a < 0xFF80
      → write_register (padded x m) (a - 0xFF00) v ≡ padded x (write_register m (a - 0xFF00) v)
  register_write lo hi = write_register-padded x m (a - 0xFF00) v h (omega arith)

pub write_direct-padded :
    (x : List ℕ) (m : Mmu) (a v : ℕ)
    → IsSized m
    → (a < 0xE000) ⊎ (0xFE00 ≤ a)
    → write_direct (padded x m) a v ≡ padded x (write_direct m a v)
unfolding write_direct
write_direct-padded x m a v h plain = ground (
  arith,
  plain,
  vram_write x m h a v,
  wram_write x m h a v,
  oam_write x m h a v,
  hram_write x m h a v,
  register_write x m h a v,
)
