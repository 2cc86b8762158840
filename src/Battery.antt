-- ===== src/Battery.antt =====
-- core/src/rom.rs: `read_battery_file`, which every battery-backed cartridge loads its save through.
-- The file system is a parameter: what opening and reading the file gives.
pub mod Overlay
use emulator_app.Base.{Bool, true, false, ℕ, List, [], ◌∷◌, length, take}

-- `broken` is a file whose reading fails after some bytes.
pub data BatteryFile : Type 0 where
  refused missing unopened : BatteryFile
  broken : List ℕ → BatteryFile
  present : List ℕ → BatteryFile

pub data ReadResult : Type 0 where
  ok : Bool → ReadResult
  failed : ReadResult

-- The bytes that are read replace the front of the buffer, which keeps its length.
unfoldable pub overlay : List ℕ → List ℕ → List ℕ
overlay [] dest = dest
overlay (x ∷ xs) [] = []
overlay (x ∷ xs) (d ∷ ds) = x ∷ overlay xs ds

unfoldable pub read_battery_file : BatteryFile → List ℕ → ReadResult × List ℕ
read_battery_file refused dest = (failed, dest)
read_battery_file missing dest = (ok false, dest)
read_battery_file unopened dest = (failed, dest)
read_battery_file (broken bytes) dest = (failed, overlay (take (length dest) bytes) dest)
read_battery_file (present bytes) dest = (ok true, overlay (take (length dest) bytes) dest)
