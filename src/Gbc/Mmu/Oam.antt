-- ===== src/Gbc/Mmu/Oam.antt =====
-- The sprite memory DMA of gbc/mmu.rs.
use emulator_app.Base.{
  ℕ, zero, suc, ◌+◌, ◌*◌, ◌≤◌, ◌<◌, ◌≡◌, ◌&&◌, arith, ltb, leb, if◌then◌else◌, get_or, length, set,
  length-set, get_or-set, List,
}
use emulator_app.Gbc.Mmu.{
  Mmu, read_direct, read_byte, oam_dma, write_register, write_direct, write_byte,
}

-- What is read below sprite memory does not depend on it.
read_below :
    (m : Mmu) (xs : List ℕ) (a : ℕ)
    → a < 0xFE00
    → read_byte (record m { oam = xs }) a ≡ read_byte m a
unfolding read_byte read_direct
read_below m xs a h = ground arith

oam_dma_lem :
    (n : ℕ) (m : Mmu) (base i j : ℕ)
    → base + i + n ≤ 0xFE00
    → i + n ≤ length m.oam
    → get_or (oam_dma m base i n).oam j 0
      ≡ (if leb i j && ltb j (i + n) then read_byte m (base + j) else get_or m.oam j 0)
unfolding oam_dma
oam_dma_lem zero m base i j fits size = ground arith
oam_dma_lem (suc n) m base i j fits size =
    let v = read_byte m (base + i) in
    let m1 : Mmu = record m { oam = set m.oam i v } in
    ground (
      arith,
      oam_dma_lem n m1 base (i + 1) j (omega arith) (omega (arith, length-set m.oam i v)),
      get_or-set m.oam i j v 0,
      read_below m (set m.oam i v) (base + j),
    )

-- A write of a page below 0xFE to FF46 fills each byte of sprite memory with what the bus reads at
-- its place in the page before the write.
pub write_byte-oam :
    (m : Mmu) (page i : ℕ)
    → page < 0xFE
    → length m.oam ≡ 160
    → i < 160
    → get_or (write_byte m 0xFF46 page).oam i 0 ≡ read_byte m (page * 256 + i)
unfolding write_byte write_direct write_register
write_byte-oam m page i low size h =
    ground (arith, oam_dma_lem 160 m (page * 256) 0 i (omega arith) (omega arith))
