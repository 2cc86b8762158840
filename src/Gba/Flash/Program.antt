-- ===== src/Gba/Flash/Program.antt =====
-- The command sequences of gba/flash.rs, end to end: program, sector erase, chip erase, bank select.
use emulator_app.Base.{
  ℕ, ◌+◌, ◌*◌, ◌/◌, ◌<◌, ◌≡◌, refl, List, [], ◌∷◌, ◌++◌, arith, ◌==◌, if◌then◌else◌, bit_and,
  get_or, get_or-set, u64,
}
use emulator_app.Gba.Flash.{
  FlashState, ready, write, erase_seq2, Flash128, low_offset, command, goto, program, erase,
  erase_sector, write_in, write_byte, write_all, read_in, read_byte,
}
use emulator_app.Gba.Flash.Lemmas.{
  IsValid, low_offset-lt, program-IsValid, erase_sector-IsValid, global_offset_valid, sector_start,
  get_or-erase_cells,
}

abbrev pub unlock : ℕ → List (ℕ × ℕ)
unlock cmd = (0x5555, 0xAA) ∷ (0x2AAA, 0x55) ∷ (0x5555, cmd) ∷ []

abbrev pub program_command : ℕ → ℕ → List (ℕ × ℕ)
program_command address value = unlock 0xA0 ++ (address, value) ∷ []

abbrev pub erase_sector_command : ℕ → List (ℕ × ℕ)
erase_sector_command address = unlock 0x80 ++ (0x5555, 0xAA) ∷ (0x2AAA, 0x55) ∷ (address, 0x30) ∷ []

abbrev pub erase_chip_command : List (ℕ × ℕ)
erase_chip_command = unlock 0x80 ++ unlock 0x10

abbrev pub bank_command : ℕ → List (ℕ × ℕ)
bank_command value = unlock 0xB0 ++ (0, value) ∷ []

pub read_byte_plain :
    (f : Flash128) (b : ℕ)
    → IsValid f
    → f.state ≡ ready
    → read_byte f b ≡ get_or f.cells (f.bank * 65536 + low_offset b) 0xFF
unfolding read_byte read_in
read_byte_plain f b h r =
    ground
      (arith, global_offset_valid f (low_offset b) h.in_bank (low_offset-lt b), low_offset-lt b)

program_steps :
    (f : Flash128) (address value : ℕ)
    → f.state ≡ ready
    → write_all f (program_command address value)
      ≡ goto (program (goto f write) (low_offset address) value) ready
unfolding write_all write_byte write_in command
program_steps f address value r = ground arith

erase_steps :
    (f : Flash128) (address : ℕ)
    → f.state ≡ ready
    → write_all f (erase_sector_command address)
      ≡ goto (erase (goto f erase_seq2) (low_offset address) 0x30) ready
unfolding write_all write_byte write_in command
erase_steps f address r = ground arith

program_cells :
    (f : Flash128) (offset value j : ℕ)
    → IsValid f
    → offset < 65536
    → ((program f offset value).bank ≡ f.bank)
      × (get_or (program f offset value).cells j 0xFF ≡ (
          if f.bank * 65536 + offset == j
          then bit_and (get_or f.cells j 0xFF) value
          else get_or f.cells j 0xFF))
unfolding program
program_cells f offset value j h small = ground (
  arith,
  global_offset_valid f offset h.in_bank small,
  get_or-set f.cells (f.bank * 65536 + offset) j
      (bit_and (get_or f.cells (f.bank * 65536 + offset) 0xFF) value) 0xFF,
)

pub goto-IsValid : (f : Flash128) (s : FlashState) → IsValid f → IsValid (goto f s)
goto-IsValid f s h = ground arith

-- The program sequence (0xAA, 0x55, 0xA0 and then a byte) on a ready chip clears, in the addressed
-- cell of the current bank, the bits that the byte has clear. Every other address reads as before.
pub program_command-read_byte :
    (f : Flash128) (address value b : ℕ)
    → IsValid f
    → f.state ≡ ready
    → read_byte (write_all f (program_command address value)) b ≡ (
        if low_offset address == low_offset b then bit_and (read_byte f b) value else read_byte f b)
program_command-read_byte f address value b h r =
    let g = program (goto f write) (low_offset address) value in
    let armed = goto-IsValid f write h in
    let after = goto-IsValid g ready (program-IsValid _ (low_offset address) value armed) in
    rw (program_steps f address value r) ground (
      arith,
      read_byte_plain f b h r,
      read_byte_plain (goto g ready) b after refl,
      low_offset-lt address,
      low_offset-lt b,
      program_cells (goto f write) (low_offset address) value (f.bank * 65536 + low_offset b) armed
          (low_offset-lt address),
    )

sector_cells :
    (f : Flash128) (offset j : ℕ)
    → IsValid f
    → offset < 65536
    → ((erase_sector f offset).bank ≡ f.bank)
      × (get_or (erase_sector f offset).cells j 0xFF
          ≡ (if j / 4096 == f.bank * 16 + offset / 4096 then 0xFF else get_or f.cells j 0xFF))
unfolding erase_sector
sector_cells f offset j h small =
    let start : u64 (u64 (u64 (f.bank * 64) * 1024) + bit_and offset 0xF000)
        ≡ f.bank * 65536 + offset / 4096 * 4096 =
      omega (arith, sector_start offset small, h.in_bank) in
    rw start ground
      (arith, get_or-erase_cells 4096 (f.bank * 65536 + offset / 4096 * 4096) f.cells j)

-- The sector erase sequence on a ready chip makes every address of the addressed 4 KiB sector of
-- the current bank read 0xFF. Every other address reads as before.
pub erase_sector_command-read_byte :
    (f : Flash128) (address b : ℕ)
    → IsValid f
    → f.state ≡ ready
    → read_byte (write_all f (erase_sector_command address)) b
      ≡ (if low_offset b / 4096 == low_offset address / 4096 then 0xFF else read_byte f b)
unfolding erase
erase_sector_command-read_byte f address b h r =
    let g = erase_sector (goto f erase_seq2) (low_offset address) in
    let armed = goto-IsValid f erase_seq2 h in
    let after = goto-IsValid g ready (erase_sector-IsValid _ (low_offset address) armed) in
    rw (erase_steps f address r) ground (
      arith,
      read_byte_plain f b h r,
      read_byte_plain (goto g ready) b after refl,
      low_offset-lt address,
      low_offset-lt b,
      sector_cells (goto f erase_seq2) (low_offset address) (f.bank * 65536 + low_offset b) armed
          (low_offset-lt address),
    )
