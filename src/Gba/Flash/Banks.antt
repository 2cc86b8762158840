-- ===== src/Gba/Flash/Banks.antt =====
-- Chip erase and bank select of gba/flash.rs, and what a bank outside the chip does.
use emulator_app.Base.{
  ℕ, ◌+◌, ◌*◌, ◌/◌, ◌%◌, ◌^◌, ◌≤◌, ◌<◌, ◌≡◌, refl, ap, true, List, [], ◌∷◌, ◌++◌, arith, bit_and,
  bit_and-one, length, get_or, u64, get_or-replicate, ◌∙◌,
}
use emulator_app.Gba.Flash.{
  ready, erase_seq2, Flash128, low_offset, global_offset, command, goto, erase, erase_sector,
  erase_chip, write_in, write_byte, write_all, read_in, read_byte,
}
use emulator_app.Gba.Flash.Lemmas.{
  IsValid, low_offset-lt, erase_chip-IsValid, get_or-erase_cells, sector_start,
}
use emulator_app.Gba.Flash.Program.{read_byte_plain, goto-IsValid, erase_chip_command, bank_command}

chip_steps :
    (f : Flash128)
    → f.state ≡ ready
    → write_all f erase_chip_command ≡ goto (erase_chip (goto f erase_seq2)) ready
unfolding write_all write_byte write_in command erase
chip_steps f r = ground arith

bank_steps :
    (f : Flash128) (value : ℕ)
    → f.state ≡ ready
    → write_all f (bank_command value) ≡ record f { bank = value % 2; state = ready }
unfolding write_all write_byte write_in command
bank_steps f value r = ground (arith, bit_and-one value)

-- Selecting a bank on a ready chip changes no cell: afterwards each address reads the cell that its
-- low 16 bits name in the bank of the value's lowest bit.
pub bank_command-read_byte :
    (f : Flash128) (value b : ℕ)
    → IsValid f
    → f.state ≡ ready
    → read_byte (write_all f (bank_command value)) b
      ≡ get_or f.cells (value % 2 * 65536 + low_offset b) 0xFF
bank_command-read_byte f value b h r =
    let g : Flash128 = record f { bank = value % 2; state = ready } in
    let after : IsValid g = record {
      size = h.size;
      in_bank = omega arith;
      in_cells = h.in_cells;
      byte_manufacturer = h.byte_manufacturer;
      byte_device = h.byte_device;
    } in
    rw (bank_steps f value r) (read_byte_plain g b after refl)

write_all-append :
    (f : Flash128) (xs ys : List (ℕ × ℕ)) → write_all f (xs ++ ys) ≡ write_all (write_all f xs) ys
unfolding write_all
write_all-append f [] ys = refl
write_all-append f ((address, value) ∷ xs) ys = write_all-append (write_byte f address value) xs ys

erased :
    (f : Flash128) (j : ℕ)
    → IsValid f
    → j < 131072
    → get_or (erase_chip (goto f erase_seq2)).cells j 0xFF ≡ 0xFF
unfolding erase_chip
erased f j h lim = get_or-replicate (length f.cells) 0xFF j 0xFF (omega arith)

-- The chip erase sequence on a ready chip makes every address of the bank that is selected
-- afterwards, whichever it is, read 0xFF.
pub erase_chip_command-read_byte :
    (f : Flash128) (b value : ℕ)
    → IsValid f
    → f.state ≡ ready
    → read_byte (write_all f (erase_chip_command ++ bank_command value)) b ≡ 0xFF
erase_chip_command-read_byte f b value h r =
    let g = goto (erase_chip (goto f erase_seq2)) ready in
    let after = goto-IsValid _ ready (erase_chip-IsValid _ (goto-IsValid f erase_seq2 h)) in
    ap (λ x. read_byte x b)
      (write_all-append f erase_chip_command (bank_command value)
        ∙ ap (λ x. write_all x (bank_command value)) (chip_steps f r))
    ∙ bank_command-read_byte g value b after refl
    ∙ erased f (value % 2 * 65536 + low_offset b) h (omega (arith, low_offset-lt b))

-- A bank that a save state restores unchecked as a multiple of 2 ^ 48 is outside the chip: every
-- address of a ready chip reads 0xFF. The sector erase computes its offset without saturation, wraps
-- round to the first bank in a release build, and erases a sector there.
pub erase_sector_wraps :
    (f : Flash128) (k b address j : ℕ)
    → length f.cells ≡ 131072
    → f.state ≡ ready
    → f.bank ≡ k * 2 ^ 48
    → 0 < k
    → k < 65536
    → low_offset address / 4096 * 4096 ≤ j
    → j < low_offset address / 4096 * 4096 + 4096
    → (read_byte f b ≡ 0xFF)
      × (get_or (erase_sector f (low_offset address)).cells j 0xFF ≡ 0xFF)
      × ((erase_sector f (low_offset address)).is_dirty ≡ true)
unfolding erase_sector read_byte read_in global_offset
erase_sector_wraps f k b address j size r bank pos lim lo hi =
    let start : u64 (u64 (u64 (f.bank * 64) * 1024) + bit_and (low_offset address) 0xF000)
        ≡ low_offset address / 4096 * 4096 =
      omega
        (arith, sector_start (low_offset address) (low_offset-lt address), low_offset-lt address) in
    (
      ground (arith, low_offset-lt b),
      rw start (
          ground (
            arith,
            low_offset-lt address,
            get_or-erase_cells 4096 (low_offset address / 4096 * 4096) f.cells j,
          )),
      rw start (ground (arith, low_offset-lt address)),
    )
