-- ===== src/Gba/Flash/Tests.antt =====
-- Witnesses and tests of the flash chip.
use emulator_app.Base.{
  ◌^◌, ◌≡◌, refl, true, false, arith, if◌then◌else◌, ◌==◌, bit_and, replicate, length-replicate,
  get_or,
}
use emulator_app.Gba.Flash.{ready, Flash128, new, low_offset, erase_sector, write_all, read_byte}
use emulator_app.Gba.Flash.Lemmas.{new-IsValid}
use emulator_app.Gba.Flash.Protect.{write_all-guarded}
use emulator_app.Gba.Flash.Program.{unlock, program_command, program_command-read_byte}
use emulator_app.Gba.Flash.Banks.{erase_sector_wraps}

write_all-guarded_example : (write_all new (unlock 0xA0)).cells ≡ new.cells
unfolding new
write_all-guarded_example = write_all-guarded new (unlock 0xA0) (omega arith)

program_command-read_byte_example :
    read_byte (write_all new (program_command 0x0E000010 0x5A)) 0x0E000010 ≡ (
      if low_offset 0x0E000010 == low_offset 0x0E000010
      then bit_and (read_byte new 0x0E000010) 0x5A
      else read_byte new 0x0E000010)
unfolding new
program_command-read_byte_example =
    program_command-read_byte new 0x0E000010 0x5A 0x0E000010 new-IsValid refl

-- A state restored with a bank far past the chip, over programmed cells.
abbrev stray : Flash128
stray = record {
  cells = replicate 131072 0;
  state = ready;
  bank = 2 ^ 48;
  is_dirty = false;
  manufacturer_id = 0x62;
  device_id = 0x13;
}

erase_sector_wraps_example :
    (read_byte stray 0x10 ≡ 0xFF)
    × (get_or (erase_sector stray (low_offset 0x1000)).cells 0x1004 0xFF ≡ 0xFF)
    × ((erase_sector stray (low_offset 0x1000)).is_dirty ≡ true)
erase_sector_wraps_example =
    erase_sector_wraps stray 1 0x10 0x1000 0x1004 (length-replicate 131072 0) refl refl
      (omega arith) (omega arith) (omega arith) (omega arith)
