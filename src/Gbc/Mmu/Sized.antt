-- ===== src/Gbc/Mmu/Sized.antt =====
-- The memories of gbc/mmu.rs keep their sizes.
use emulator_app.Base.{
  ℕ, zero, suc, ◌+◌, ◌-◌, ◌*◌, ◌≡◌, ◌∙◌, arith, ◌==◌, if◌then◌else◌, List, Option, bit_and, bit_or,
  length, set, length-set, length-replicate, u8, u16, ◌<<◌,
}
use emulator_app.Gbc.Mmu.{
  Mmu, new, vram_bank, vram_offset, wram_offset, unecho, read_byte, oam_dma, copy_byte, copy,
  dma_source, dma_target, start_dma, write_register, write_direct, write_byte, hdma_step,
}

pub record IsSized (m : Mmu) : Type 0 where
  pub vram : length m.vram ≡ 16384
  pub wram : length m.wram ≡ 32768
  pub oam : length m.oam ≡ 160
  pub io : length m.io ≡ 128
  pub hram : length m.hram ≡ 127
  pub bg_palette_ram : length m.bg_palette_ram ≡ 64
  pub obj_palette_ram : length m.obj_palette_ram ≡ 64

pub oam_dma-IsSized : (n : ℕ) (m : Mmu) (base i : ℕ) → IsSized m → IsSized (oam_dma m base i n)
unfolding oam_dma
oam_dma-IsSized zero m base i h = h
oam_dma-IsSized (suc n) m base i h =
    let v = read_byte m (base + i) in
    oam_dma-IsSized n (record m { oam = set m.oam i v }) base (i + 1)
      (ground (arith, length-set m.oam i v))

pub copy_byte-IsSized : (m : Mmu) (bank s t : ℕ) → IsSized m → IsSized (copy_byte m bank s t)
unfolding copy_byte
copy_byte-IsSized m bank s t h =
    ground (arith, length-set m.vram (vram_offset bank t) (read_byte m s))

pub copy-IsSized : (n : ℕ) (m : Mmu) (bank s t i : ℕ) → IsSized m → IsSized (copy m bank s t i n)
unfolding copy
copy-IsSized zero m bank s t i h = h
copy-IsSized (suc n) m bank s t i h =
    copy-IsSized n (copy_byte m bank (u16 (s + i)) (u16 (t + i))) bank s t (i + 1)
      (copy_byte-IsSized m bank (u16 (s + i)) (u16 (t + i)) h)

pub io-IsSized : (m : Mmu) (i v : ℕ) → IsSized m → IsSized (record m { io = set m.io i v })
io-IsSized m i v h = ground (arith, length-set m.io i v)

pub start_dma-IsSized : (m : Mmu) (v : ℕ) → IsSized m → IsSized (start_dma m v)
unfolding start_dma
start_dma-IsSized m v h =
    let copied = copy m (vram_bank m) (dma_source m) (dma_target m) 0 ((bit_and v 0x7F + 1) * 16) in
    ground (
      arith,
      length-set m.io 0x55 (bit_or (u8 (m.hdma_blocks + 255)) 0x80),
      length-set m.io 0x55 (bit_and v 0x7F),
      io-IsSized copied 0x55 0xFF
          (copy-IsSized _ m (vram_bank m) (dma_source m) (dma_target m) 0 h),
    )

write_register-IsSized : (m : Mmu) (i v : ℕ) → IsSized m → IsSized (write_register m i v)
unfolding write_register
write_register-IsSized m i v h = ground (
  arith,
  start_dma-IsSized m v h,
  io-IsSized (oam_dma m (v << 8) 0 160) 0x46 v (oam_dma-IsSized 160 m (v << 8) 0 h),
  length-set m.io i v,
  length-set m.bg_palette_ram (bit_and m.bcps 0x3F) v,
  length-set m.obj_palette_ram (bit_and m.ocps 0x3F) v,
)

write_direct-IsSized : (m : Mmu) (a v : ℕ) → IsSized m → IsSized (write_direct m a v)
unfolding write_direct
write_direct-IsSized m a v h = ground (
  arith,
  write_register-IsSized m (a - 0xFF00) v h,
  length-set m.vram (vram_offset (vram_bank m) a) v,
  length-set m.wram (wram_offset m a) v,
  length-set m.oam (a - 0xFE00) v,
  length-set m.hram (a - 0xFF80) v,
)

pub hdma_step-IsSized : (m : Mmu) → IsSized m → IsSized (hdma_step m)
unfolding hdma_step
hdma_step-IsSized m h =
    let left = u8 (m.hdma_blocks + 255) in
    ground (
      arith,
      copy-IsSized 16 m (vram_bank m) m.hdma_src m.hdma_dst 0 h,
      length-set m.io 0x55 (if left == 0 then 0xFF else left - 1),
    )

-- A memory has the same size after any write, whatever transfer it starts.
pub write_byte-IsSized :
    (m : Mmu) (address value : ℕ) → IsSized m → IsSized (write_byte m address value)
unfolding write_byte
write_byte-IsSized m address value h = write_direct-IsSized m (unecho address) value h

put : (xs : List ℕ) (i v : ℕ) → length xs ≡ 128 → length (set xs i v) ≡ 128
put xs i v h = length-set xs i v ∙ h

pub new-IsSized : (rom : List ℕ) (ram : Option (List ℕ)) → IsSized (new rom ram)
unfolding new
new-IsSized rom ram = record {
  vram = length-replicate 16384 0;
  wram = length-replicate 32768 0;
  oam = length-replicate 160 0;
  io = put _ 0x26 0xF1 (
      put _ 0x0F 0xE1 (
        put _ 0x07 0x00 (
          put _ 0x06 0x00 (
            put _ 0x05 0x00 (
              put _ 0x40 0x91
                (put _ 0x41 0x85 (put _ 0x44 0x90 (put _ 0x00 0xFF (length-replicate 128 0)))))))));
  hram = length-replicate 127 0;
  bg_palette_ram = length-replicate 64 0xFF;
  obj_palette_ram = length-replicate 64 0xFF;
}
