-- ===== src/Nds/Backup/Tests.antt =====
-- Witnesses and tests of the backup chip.
use emulator_app.Base.{
  ℕ, ◌+◌, ◌-◌, ◌/◌, ◌≡◌, refl, ap, true, ◌&&◌, List, [], ◌∷◌, arith, ltb, leb, ◌==◌, if◌then◌else◌,
  length, length-replicate, get_or, some, ◌≢◌,
}
use emulator_app.Nds.Backup.{
  BackupKind, absent, flash_256k, flash_512k, flash_1m, NdsBackup, new, deselect, latch_command,
  program_data, respond, transfer,
}
use emulator_app.Nds.Backup.Gate.{BusEvent, clock, release, act, run, run-write_protected}
use emulator_app.Nds.Backup.Frames.{frame, address}
use emulator_app.Nds.Backup.Stream.{write_enabled, programmed, frame-program}
use emulator_app.Nds.Backup.Sector.{span_of, frame-erase}
use emulator_app.Nds.Backup.Snapshots.{snap_backup}
use emulator_app.Nds.Backup.Encoded.{Saveable}
use emulator_app.Nds.Backup.Restore.{loaded-saved_backup}
use emulator_app.Snapshot.Codec.{ok}
use emulator_app.Snapshot.Streams.{saved, loaded}

abbrev chip : NdsBackup
chip = new flash_512k

abbrev launched_chip : NdsBackup
launched_chip = record chip { launched = true }

chip_size : length chip.cells ≡ 524288
unfolding new
chip_size = length-replicate 524288 0xFF

abbrev page_program : List BusEvent
page_program = clock 0x0A ∷ clock 0 ∷ clock 0 ∷ clock 8 ∷ clock 0x55 ∷ release ∷ []

abbrev tiny_chip : NdsBackup
tiny_chip = record chip { cells = 1 ∷ 2 ∷ 3 ∷ 4 ∷ [] }

run-write_protected_example :
    ((run tiny_chip page_program).cells ≡ tiny_chip.cells)
    × ((run tiny_chip page_program).dirty ≡ tiny_chip.dirty)
unfolding new act transfer respond latch_command program_data deselect
run-write_protected_example =
    run-write_protected tiny_chip page_program refl
      (refl, (refl, (refl, (refl, (refl, (refl, tt))))))

abbrev payload : List ℕ
payload = 0x55 ∷ 0x66 ∷ []

frame-program_example :
    get_or (frame (write_enabled chip) (0x0A ∷ 1 ∷ 2 ∷ 3 ∷ payload)).cells 66052 0xFF ≡ (
      if leb (address 1 2 3) 66052 && ltb 66052 (address 1 2 3 + length payload)
      then programmed 0x0A (get_or chip.cells 66052 0xFF) (get_or payload (66052 - address 1 2 3) 0)
      else get_or chip.cells 66052 0xFF)
unfolding new
frame-program_example =
    frame-program chip 0x0A 1 2 3 payload 66052 (omega (arith, chip_size))
      (omega (arith, chip_size)) refl refl refl (omega arith) (omega arith) (omega arith)
      (omega arith) (omega (arith, chip_size))

frame-erase_example :
    get_or (frame (write_enabled chip) (0xD8 ∷ 1 ∷ 2 ∷ 3 ∷ [])).cells 65536 0xFF ≡ (
      if address 1 2 3 / span_of 0xD8 == 65536 / span_of 0xD8
      then 0xFF
      else get_or chip.cells 65536 0xFF)
unfolding new
frame-erase_example =
    frame-erase chip 0xD8 1 2 3 65536 (rw chip_size refl) refl refl refl (omega arith) (omega arith)
      (omega arith) (omega (arith, chip_size))

-- In the middle of a read, and as it was made.
abbrev reading : NdsBackup
reading = record chip { cmd = some 0x03; idx = 2; addr = 0x0100; dirty = true }

reading-Saveable : Saveable reading
unfolding new
reading-Saveable = record {
  size = length-replicate 524288 0xFF;
  cmd_fits = omega arith;
  idx_fits = omega arith;
  addr_fits = omega arith;
  wip_fits = omega arith;
  last_out_fits = omega arith;
}

chip-Saveable : Saveable chip
unfolding new
chip-Saveable = record {
  size = length-replicate 524288 0xFF;
  cmd_fits = omega arith;
  idx_fits = omega arith;
  addr_fits = omega arith;
  wip_fits = omega arith;
  last_out_fits = omega arith;
}

loaded-saved_backup_example :
    loaded snap_backup (saved snap_backup reading) chip
    ≡ (ok true, record reading { cmd_counts = chip.cmd_counts })
loaded-saved_backup_example = loaded-saved_backup reading chip reading-Saveable chip-Saveable refl

abbrev no_chip : NdsBackup
no_chip = new absent

is_device : BackupKind → ℕ
is_device absent = 0
is_device flash_256k = 1
is_device flash_512k = 1
is_device flash_1m = 1

kinds_differ : reading.kind ≢ no_chip.kind
unfolding new is_device
kinds_differ e = omega (arith, ap is_device e)
