-- ===== src/Gbc/Mmu/Tests.antt =====
-- Witnesses and tests of the memory map.
use emulator_app.Base.{
  ℕ, ◌+◌, ◌-◌, ◌%◌, ◌≤◌, ◌<◌, ◌≡◌, refl, true, false, List, [], ◌∷◌, none, arith, ◌==◌,
  if◌then◌else◌, length-replicate, get_or-replicate, bit_or, bit_and, ◌<<◌, replicate,
}
use emulator_app.Gbc.Mmu.{Mmu, new, read_io, read_byte, write_byte}
use emulator_app.Gbc.Mmu.Padded.{padded}
use emulator_app.Gbc.Mmu.Bounds.{Access, reads, writes, blanks, run, run-padded}
use emulator_app.Gbc.Mmu.Wram.{write_byte-read_byte}
use emulator_app.Gbc.Mmu.Hdma.{hdma_steps, hdma_steps-write_byte}

abbrev machine : Mmu
machine = new (0xC3 ∷ 0x50 ∷ []) none

write_byte-read_byte_example :
    read_byte (write_byte machine 0xC123 7) 0xE123
    ≡ (if 0xC123 % 0x2000 == 0xE123 % 0x2000 then 7 else read_byte machine 0xE123)
unfolding new
write_byte-read_byte_example =
    write_byte-read_byte machine 0xC123 7 0xE123 (length-replicate 32768 0) (omega arith)
      (omega arith) (omega arith) (omega arith)

abbrev indexed : Mmu
indexed = record machine { bcps = 128 + 62 }

abbrev colours : List ℕ
colours = 0x1F ∷ 0x7C ∷ []

-- The registers of a transfer from the start of the ROM.
abbrev cleared : Mmu
cleared = record machine { io = replicate 128 0 }

zeros : (i : ℕ) → i < 128 → read_io cleared i ≡ 0
zeros i h = get_or-replicate 128 0 i 0 h

zero_source :
    (i j : ℕ)
    → i < 128
    → j < 128
    → bit_or (read_io cleared i << 8) (bit_and (read_io cleared j) 0xF0) + 64 ≤ 0xFF00
zero_source i j hi hj = rw (zeros i hi) (rw (zeros j hj) (omega arith))

hdma_steps-write_byte_example :
    let running = write_byte cleared 0xFF55 (128 + 3) in
    let done = hdma_steps running (3 + 1) in
    (done.vram ≡ (write_byte cleared 0xFF55 3).vram)
    × (done.hdma_active ≡ false)
    × (read_io done 0x55 ≡ 0xFF)
    × ((hdma_steps running 2).hdma_active ≡ true)
    × (read_io (hdma_steps running 2) 0x55 ≡ 3 - 2)
unfolding new
hdma_steps-write_byte_example =
    hdma_steps-write_byte cleared 3 2 (omega arith) (omega arith) refl (length-replicate 128 0)
      (omega (arith, zeros 0x53 (omega arith))) (omega (arith, zeros 0x54 (omega arith)))
      (zero_source 0x51 0x52 (omega arith) (omega arith))

-- A transfer to the end of the second bank of video memory, past which nothing is written.
abbrev block_copy : List Access
block_copy =
    writes 0xFF4F 1
    ∷ writes 0xFF53 0x1F
    ∷ writes 0xFF54 0xF0
    ∷ writes 0xFF55 1
    ∷ writes 0xFF68 0xBF
    ∷ writes 0xFF69 7
    ∷ blanks
    ∷ reads 0x9FFF
    ∷ []

run-padded_example : run (padded (1 ∷ 2 ∷ []) (new (0xC3 ∷ 0x50 ∷ []) none)) block_copy ≡ (
  padded (1 ∷ 2 ∷ []) (run (new (0xC3 ∷ 0x50 ∷ []) none) block_copy).0,
  (run (new (0xC3 ∷ 0x50 ∷ []) none) block_copy).1,
)
run-padded_example = run-padded (0xC3 ∷ 0x50 ∷ []) none (1 ∷ 2 ∷ []) block_copy
