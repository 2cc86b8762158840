-- ===== src/Gbc/Mmu/Hdma.antt =====
-- The two VRAM DMA engines of gbc/mmu.rs: the one that copies at once and the one that copies a block
-- per horizontal blank.
mod Copying
use emulator_app.Base.{
  ℕ, zero, suc, ◌+◌, ◌-◌, ◌*◌, ◌%◌, ◌^◌, ◌≤◌, ◌<◌, ◌≡◌, refl, sym, ◌∙◌, ap, true, false, Bool, ◌&&◌,
  arith, ltb, leb, ◌==◌, ◌!=◌, if◌then◌else◌, bit_and, bit_or, bit_and_low, bit_and_bit, bit_and-le,
  bit_or-lt, get_or, length, set, length-set, get_or-set, u16, u8,
}
use emulator_app.Gbc.Mmu.{
  Mmu, read_io, write_io, vram_bank, dma_source, dma_target, copy, hdma_step, write_direct,
  write_byte, write_register, start_dma,
}
use Copying.{Agree, copy_append, copy_shift, copy-Agree, copy_kept}

-- The horizontal blanks of `n` visible lines.
unfoldable pub hdma_steps : Mmu → ℕ → Mmu
hdma_steps m zero = m
hdma_steps m (suc n) = hdma_step (hdma_steps m n)

-- The engine after `k` of its blocks.
record Progress (m : Mmu) (v k : ℕ) (h : Mmu) : Type 0 where
  copied : Agree (copy m (vram_bank m) (dma_source m) (dma_target m) 0 (k * 16)) h
  at_source : h.hdma_src ≡ u16 (dma_source m + k * 16)
  at_target : h.hdma_dst ≡ u16 (dma_target m + k * 16)
  blocks : h.hdma_blocks + k ≡ v + 1
  active : h.hdma_active ≡ ltb k (v + 1)
  io_size : length h.io ≡ 128
  status : read_io h 0x55 ≡ (if ltb k (v + 1) then v - k else 0xFF)

start :
    (m : Mmu) (v : ℕ)
    → v < 128
    → length m.io ≡ 128
    → dma_source m < 2 ^ 16
    → dma_target m < 2 ^ 16
    → Progress m v 0 (write_byte m 0xFF55 (128 + v))
unfolding write_byte write_direct write_register start_dma copy
start m v small size s t =
    let low : bit_and (128 + v) 127 ≡ v = bit_and_low 7 (128 + v) ∙ omega arith in
    let high : bit_and (128 + v) 128 ≡ 128 = bit_and_bit 7 (128 + v) ∙ omega arith in
    let io' = set m.io 0x55 v in
    ground (
      arith,
      low,
      high,
      length-set m.io 0x55 v,
      get_or-set m.io 0x55 0x55 v 0,
      get_or-set m.io 0x55 0x4F v 0,
      get_or-set m.io 0x55 0x70 v 0,
    )

step :
    (m : Mmu) (v k : ℕ) (h : Mmu)
    → v < 128
    → k ≤ v
    → dma_source m + (v + 1) * 16 ≤ 0xFF00
    → Progress m v k h
    → Progress m v (suc k) (hdma_step h)
unfolding hdma_step
step m v k h small more low p =
    let bank = vram_bank m in
    let s = dma_source m in
    let t = dma_target m in
    let moved = copy h (vram_bank h) h.hdma_src h.hdma_dst 0 16 in
    let joined : copy m bank s t 0 (suc k * 16)
        ≡ copy (copy m bank s t 0 (k * 16)) bank (u16 (s + k * 16)) (u16 (t + k * 16)) 0 16 =
      ap (λ n. copy m bank s t 0 n) (omega arith)
      ∙ copy_append (k * 16) 16 m bank s t 0
      ∙ ap (λ i. copy (copy m bank s t 0 (k * 16)) bank s t i 16) (omega arith)
      ∙ sym (copy_shift 16 (copy m bank s t 0 (k * 16)) bank s t (k * 16) 0) in
    let same_bank : read_io h 0x4F ≡ read_io m 0x4F =
      p.copied.vram_bank ∙ ap (λ io. get_or io 0x4F 0) (copy_kept (k * 16) m bank s t 0) in
    let s' = u16 (s + k * 16) in
    let t' = u16 (t + k * 16) in
    let placed : moved ≡ copy h bank s' t' 0 16 =
      ap (λ b. copy h (bit_and b 0x01) h.hdma_src h.hdma_dst 0 16) same_bank
      ∙ ap (λ a. copy h bank a h.hdma_dst 0 16) p.at_source
      ∙ ap (λ a. copy h bank s' a 0 16) p.at_target in
    let together : Agree (copy m bank s t 0 (suc k * 16)) moved = rw placed (
      rw joined
        (copy-Agree 16 (copy m bank s t 0 (k * 16)) h bank s' t' 0 p.copied (omega arith))) in
    let left = u8 (h.hdma_blocks + 255) in
    let shown = if left == 0 then 0xFF else left - 1 in
    let kept = copy_kept 16 h (vram_bank h) h.hdma_src h.hdma_dst 0 in
    ground (
      arith,
      kept,
      together,
      length-set h.io 0x55 shown,
      get_or-set h.io 0x55 0x55 shown 0,
      get_or-set h.io 0x55 0x4F shown 0,
      get_or-set h.io 0x55 0x70 shown 0,
    )

progress :
    (m : Mmu) (v k : ℕ)
    → v < 128
    → k ≤ v + 1
    → length m.io ≡ 128
    → dma_target m < 2 ^ 16
    → dma_source m + (v + 1) * 16 ≤ 0xFF00
    → Progress m v k (hdma_steps (write_byte m 0xFF55 (128 + v)) k)
unfolding hdma_steps
progress m v zero small more size t low = start m v small size (omega arith) t
progress m v (suc k) small more size t low =
    step m v k (hdma_steps (write_byte m 0xFF55 (128 + v)) k) small (omega arith) low
      (progress m v k small (omega arith) size t low)

dma_target-lt : (m : Mmu) → read_io m 0x53 < 256 → read_io m 0x54 < 256 → dma_target m < 2 ^ 16
dma_target-lt m high low =
    let upper = bit_and (read_io m 0x53) 0x1F * 256 in
    let lower = bit_and (read_io m 0x54) 0xF0 in
    bit_or-lt 16 (bit_or 0x8000 upper) lower
      (bit_or-lt 16 0x8000 upper (omega arith) (omega (arith, bit_and-le (read_io m 0x53) 0x1F)))
      (omega (arith, bit_and-le (read_io m 0x54) 0xF0))

at_once :
    (m : Mmu) (v : ℕ)
    → v < 128
    → m.hdma_active ≡ false
    → write_byte m 0xFF55 v
      ≡ write_io (copy m (vram_bank m) (dma_source m) (dma_target m) 0 ((v + 1) * 16)) 0x55 0xFF
unfolding write_byte write_direct write_register start_dma
at_once m v small idle =
    let low : bit_and v 127 ≡ v = bit_and_low 7 v ∙ omega arith in
    let high : bit_and v 128 ≡ 0 = bit_and_bit 7 v ∙ omega arith in ground (arith, low, high)

-- A transfer of `v + 1` blocks from below the registers, started while none is running, gives the
-- same video memory when it is written to FF55 to be made at once and when it is made a block per horizontal blank. Meanwhile,
-- after `k` blanks, FF55 reads the blocks left less one, and after the last block 0xFF, when the
-- engine is idle again.
pub hdma_steps-write_byte :
    (m : Mmu) (v k : ℕ)
    → v < 128
    → k ≤ v
    → m.hdma_active ≡ false
    → length m.io ≡ 128
    → read_io m 0x53 < 256
    → read_io m 0x54 < 256
    → dma_source m + (v + 1) * 16 ≤ 0xFF00
    → let running = write_byte m 0xFF55 (128 + v) in
      let done = hdma_steps running (v + 1) in
      (done.vram ≡ (write_byte m 0xFF55 v).vram)
      × (done.hdma_active ≡ false)
      × (read_io done 0x55 ≡ 0xFF)
      × ((hdma_steps running k).hdma_active ≡ true)
      × (read_io (hdma_steps running k) 0x55 ≡ v - k)
hdma_steps-write_byte m v k small more idle size high low below =
    let t = dma_target-lt m high low in
    let done = progress m v (v + 1) small (omega arith) size t below in
    let amid = progress m v k small (omega arith) size t below in
    (
      done.copied.vram ∙ sym (ap (λ n. n.vram) (at_once m v small idle)),
      done.active ∙ ground arith,
      done.status ∙ ground arith,
      amid.active ∙ ground arith,
      amid.status ∙ ground arith,
    )
