-- ===== src/Gbc/Mmu/Hdma/Copying.antt =====
-- The copy loop of gbc/mmu.rs, in pieces.
use emulator_app.Base.{ℕ, zero, suc, ◌+◌, ◌≤◌, ◌<◌, ◌≡◌, refl, ◌∙◌, ap, arith, u16}
use emulator_app.Gbc.Mmu.{Mmu, read_io, read_direct, read_byte, copy_byte, copy}

-- Two memory maps that answer alike below the registers.
pub record Agree (m n : Mmu) : Type 0 where
  pub mbc : n.mbc ≡ m.mbc
  pub vram : n.vram ≡ m.vram
  pub wram : n.wram ≡ m.wram
  pub oam : n.oam ≡ m.oam
  pub vram_bank : read_io n 0x4F ≡ read_io m 0x4F
  pub wram_bank : read_io n 0x70 ≡ read_io m 0x70

read_byte-Agree : (m n : Mmu) (a : ℕ) → Agree m n → a < 0xFF00 → read_byte n a ≡ read_byte m a
unfolding read_byte read_direct
read_byte-Agree m n a e h = ground arith

copy_byte-Agree :
    (m n : Mmu) (bank s t : ℕ)
    → Agree m n
    → s < 0xFF00
    → Agree (copy_byte m bank s t) (copy_byte n bank s t)
unfolding copy_byte
copy_byte-Agree m n bank s t e h = ground (arith, read_byte-Agree m n s e h)

pub copy-Agree :
    (k : ℕ) (m n : Mmu) (bank s t i : ℕ)
    → Agree m n
    → s + i + k ≤ 0xFF00
    → Agree (copy m bank s t i k) (copy n bank s t i k)
unfolding copy
copy-Agree zero m n bank s t i e h = e
copy-Agree (suc k) m n bank s t i e h =
    let s' = u16 (s + i) in
    let t' = u16 (t + i) in
    copy-Agree k (copy_byte m bank s' t') (copy_byte n bank s' t') bank s t (i + 1)
      (copy_byte-Agree m n bank s' t' e (omega arith)) (omega arith)

pub copy_append :
    (k l : ℕ) (m : Mmu) (bank s t i : ℕ)
    → copy m bank s t i (k + l) ≡ copy (copy m bank s t i k) bank s t (i + k) l
unfolding copy
copy_append zero l m bank s t i =
    let none_left : 0 + l ≡ l = omega arith in
    let same : i ≡ i + 0 = omega arith in
    ap (λ k. copy m bank s t i k) none_left ∙ ap (λ j. copy m bank s t j l) same
copy_append (suc k) l m bank s t i =
    let m1 = copy_byte m bank (u16 (s + i)) (u16 (t + i)) in
    let one_more : suc k + l ≡ suc (k + l) = omega arith in
    let same : i + 1 + k ≡ i + suc k = omega arith in
    ap (λ n. copy m bank s t i n) one_more
    ∙ copy_append k l m1 bank s t (i + 1)
    ∙ ap (λ j. copy (copy m1 bank s t (i + 1) k) bank s t j l) same

pub copy_shift :
    (k : ℕ) (m : Mmu) (bank s t d i : ℕ)
    → copy m bank (u16 (s + d)) (u16 (t + d)) i k ≡ copy m bank s t (d + i) k
unfolding copy
copy_shift zero m bank s t d i = refl
copy_shift (suc k) m bank s t d i =
    let e : u16 (u16 (s + d) + i) ≡ u16 (s + (d + i)) = omega arith in
    let f : u16 (u16 (t + d) + i) ≡ u16 (t + (d + i)) = omega arith in
    let j : d + (i + 1) ≡ d + i + 1 = omega arith in
    ap
      (λ x.
        copy (copy_byte m bank x (u16 (u16 (t + d) + i))) bank (u16 (s + d)) (u16 (t + d)) (i + 1)
          k)
      e
    ∙ ap
        (λ x.
          copy (copy_byte m bank (u16 (s + (d + i))) x) bank (u16 (s + d)) (u16 (t + d)) (i + 1) k)
        f
    ∙ copy_shift k (copy_byte m bank (u16 (s + (d + i))) (u16 (t + (d + i)))) bank s t d (i + 1)
    ∙ ap (λ x. copy (copy_byte m bank (u16 (s + (d + i))) (u16 (t + (d + i)))) bank s t x k) j

-- The copy changes no register.
pub copy_kept : (k : ℕ) (m : Mmu) (bank s t i : ℕ) → (copy m bank s t i k).io ≡ m.io
unfolding copy
copy_kept zero m bank s t i = refl
copy_kept (suc k) m bank s t i =
    copy_kept k (copy_byte m bank (u16 (s + i)) (u16 (t + i))) bank s t (i + 1)
    ∙ unfold copy_byte in ground arith
