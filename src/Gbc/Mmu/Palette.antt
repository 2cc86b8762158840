-- ===== src/Gbc/Mmu/Palette.antt =====
-- Palette memory of gbc/mmu.rs: the data port with its self-advancing index.
use emulator_app.Base.{
  ℕ, ◌+◌, ◌-◌, ◌%◌, ◌≤◌, ◌<◌, ◌≡◌, ◌∙◌, ap, ◌&&◌, arith, ltb, leb, if◌then◌else◌, List, [], ◌∷◌,
  bit_and, bit_and_low, bit_and_bit, bit_or_add, u8, get_or, length, set, length-set, get_or-set,
  get_or-later,
}
use emulator_app.Gbc.Mmu.{Mmu, next_palette, write_register, write_direct, write_byte}

-- Writes of the data port, one after the other.
unfoldable pub write_colours : Mmu → List ℕ → Mmu
write_colours m [] = m
write_colours m (v ∷ vs) = write_colours (write_byte m 0xFF69 v) vs

next_palette_lem : (i : ℕ) → i < 64 → next_palette (128 + i) ≡ 128 + (i + 1) % 64
next_palette_lem i h =
    let low : bit_and (128 + i) 63 ≡ i = bit_and_low 6 (128 + i) ∙ omega arith in
    let high : bit_and (128 + i) 128 ≡ 128 = bit_and_bit 7 (128 + i) ∙ omega arith in
    let wrapped : bit_and (u8 (i + 1)) 63 ≡ (i + 1) % 64 =
      bit_and_low 6 (u8 (i + 1)) ∙ omega arith in
    ground (arith, low, high, wrapped, bit_or_add 7 128 ((i + 1) % 64) (omega arith) (omega arith))

one :
    (m : Mmu) (i v : ℕ)
    → i < 64
    → m.bcps ≡ 128 + i
    → ((write_byte m 0xFF69 v).bg_palette_ram ≡ set m.bg_palette_ram i v)
      × ((write_byte m 0xFF69 v).bcps ≡ 128 + (i + 1) % 64)
unfolding write_byte write_direct write_register
one m i v h at =
    let low : bit_and (128 + i) 63 ≡ i = bit_and_low 6 (128 + i) ∙ omega arith in
    (
      ap (λ b. set m.bg_palette_ram (bit_and b 63) v) at ∙ ap (λ j. set m.bg_palette_ram j v) low,
      ap next_palette at ∙ next_palette_lem i h,
    )

-- With the advancing index set to `i`, bytes written one after the other to the background palette's
-- data port, as many as fit, lie in palette memory from `i` on in their order, and nothing else of
-- it changes.
pub write_colours_lem :
    (m : Mmu) (i : ℕ) (vs : List ℕ) (j : ℕ)
    → m.bcps ≡ 128 + i
    → length m.bg_palette_ram ≡ 64
    → i + length vs ≤ 64
    → get_or (write_colours m vs).bg_palette_ram j 0 ≡ (
        if leb i j && ltb j (i + length vs)
        then get_or vs (j - i) 0
        else get_or m.bg_palette_ram j 0)
unfolding write_colours
write_colours_lem m i [] j at size fits = ground arith
write_colours_lem m i (v ∷ []) j at size fits =
    let w = one m i v (omega arith) at in
    ap (λ p. get_or p j 0) w.0 ∙ ground (arith, get_or-set m.bg_palette_ram i j v 0)
write_colours_lem m i (v ∷ w ∷ vs) j at size fits =
    let o = one m i v (omega arith) at in
    write_colours_lem (write_byte m 0xFF69 v) (i + 1) (w ∷ vs) j (o.1 ∙ omega arith)
      (ap length o.0 ∙ length-set m.bg_palette_ram i v ∙ size) (omega arith)
    ∙ rw (o.0) (ground (arith, get_or-set m.bg_palette_ram i j v 0, get_or-later v (w ∷ vs) i j 0))
