-- ===== src/Gba/Flash/Protect.antt =====
-- Write protection: what the unlock sequence of gba/flash.rs guards.
use emulator_app.Base.{
  ℕ, ◌+◌, ◌≤◌, ◌<◌, ◌≡◌, refl, Bool, false, ◌&&◌, List, [], ◌∷◌, arith, ◌==◌, length, All, ◌∙◌,
}
use emulator_app.Gba.Flash.{
  FlashState, ready, command_seq1, command_seq2, identify, write, bank_select, erase_seq,
  erase_seq1, erase_seq2, Flash128, low_offset, command, write_in, write_byte, write_all,
}

-- The first write of the unlock sequence.
abbrev pub starts_unlock : ℕ × ℕ → Bool
starts_unlock (address, value) = low_offset address == 0x5555 && value == 0xAA

ready_ignores :
    (f : Flash128) (w : ℕ × ℕ)
    → f.state ≡ ready
    → starts_unlock w ≡ false
    → write_byte f w.0 w.1 ≡ f
unfolding write_byte write_in
ready_ignores f (address, value) r h = ground arith

-- A chip that waits for a command ignores any run of writes in which none is 0xAA at 0x5555: its
-- cells, its bank, its dirty flag and its state stay as they are.
pub write_all-ready :
    (f : Flash128) (ws : List (ℕ × ℕ))
    → f.state ≡ ready
    → All (λ w. starts_unlock w ≡ false) ws
    → write_all f ws ≡ f
unfolding write_all
write_all-ready f [] r h = refl
write_all-ready f ((address, value) ∷ ws) r h =
    rw (ready_ignores f (address, value) r h.0) (write_all-ready f ws r h.1)

-- How many more writes a state needs, at the least, before one can change a cell.
abbrev pub guard : FlashState → ℕ
guard ready = 3
guard command_seq1 = 2
guard command_seq2 = 1
guard identify = 4
guard write = 0
guard bank_select = 4
guard erase_seq = 2
guard erase_seq1 = 1
guard erase_seq2 = 0

write_in-cells :
    (s : FlashState) (f : Flash128) (offset value : ℕ)
    → 0 < guard s
    → s ≡ f.state
    → ((write_in s f offset value).cells ≡ f.cells)
      × (guard s ≤ guard (write_in s f offset value).state + 1)
unfolding write_in command
write_in-cells ready f offset value h e = ground arith
write_in-cells _ f offset value h e = ground arith

-- No run of writes that is shorter than the guard of the state it starts in changes a cell: from
-- the ready state a program takes four writes at least.
pub write_all-guarded :
    (f : Flash128) (ws : List (ℕ × ℕ))
    → length ws ≤ guard f.state
    → (write_all f ws).cells ≡ f.cells
unfolding write_all
write_all-guarded f [] h = refl
write_all-guarded f ((address, value) ∷ ws) h =
    let one = write_in-cells f.state f (low_offset address) value (omega arith) refl in
    write_all-guarded (write_byte f address value) ws (unfold write_byte in omega (arith, one.1))
    ∙ (unfold write_byte in one.0)
