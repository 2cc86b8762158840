-- ===== src/Nds/Backup.antt =====
-- core/src/nds/backup.rs: the SPI flash save chip of a Nintendo DS cartridge. `u32` counters wrap,
-- as in a release build. Of `save_to_disk` and `load_from_disk` the file system is a parameter.
mod Device
unfoldable pub use Device.*
pub mod Cells
pub mod Valid
pub mod Gate
pub mod Frames
pub mod Status
pub mod Stream
pub mod Sector
pub mod Snapshots
pub mod Encoded
pub mod Restore
mod Tests
use emulator_app.Base.{
  ℕ, zero, suc, ◌+◌, ◌-◌, ◌*◌, ◌/◌, ◌%◌, ◌^◌, Bool, true, false, ◌&&◌, ◌||◌, List, [], ◌∷◌, Option,
  none, some, ltb, leb, ◌==◌, ◌!=◌, if◌then◌else◌, bit_and, bit_or, get_or, set, length, replicate,
  u32, ◌<<◌, min,
}
use emulator_app.Battery.{BatteryFile, ReadResult, ok, failed, read_battery_file}

unfoldable pub new : BackupKind → NdsBackup
new kind = record {
  kind = kind;
  cells = replicate (min (size_bytes kind) max_backup_bytes) 0xFF;
  dirty = false;
  cmd = none;
  idx = 0;
  addr = 0;
  wel = false;
  wip = 0;
  page_erased = false;
  launched = false;
  last_out = 0;
  cmd_counts = replicate 8 0;
}

unfoldable pub is_present : NdsBackup → Bool
is_present b = length b.cells != 0

unfoldable pub mark_dirty : NdsBackup → NdsBackup
mark_dirty b = record b { dirty = is_present b }

unfoldable pub deselect : NdsBackup → NdsBackup
deselect b = record b {
  wip = if b.launched then wip_polls else b.wip;
  wel = if b.launched then false else b.wel;
  cmd = none;
  idx = 0;
  addr = 0;
  page_erased = false;
  launched = false;
}

-- `data[addr % len]`; the callers run only on a chip that has cells.
unfoldable pub read_at : List ℕ → ℕ → ℕ
read_at cells addr = get_or cells (addr % length cells) 0xFF

-- The cells and the dirty flag are what programs and erases change.
pub record Store : Type 0 where
  pub bytes : List ℕ
  pub changed : Bool

unfoldable pub program_at : Store → ℕ → ℕ → Bool → Store
program_at s addr val erased =
    let i = addr % length s.bytes in
    let old = get_or s.bytes i 0xFF in
    let new = if erased then val else bit_and old val in
    if old != new then record { bytes = set s.bytes i new; changed = true } else s

unfoldable pub erase_at : Store → ℕ → Store
erase_at s i =
    if get_or s.bytes i 0xFF != 0xFF
    then record { bytes = set s.bytes i 0xFF; changed = true }
    else s

unfoldable pub erase_range : Store → ℕ → ℕ → Store
erase_range s start zero = s
erase_range s start (suc len) = erase_range (erase_at s (start % length s.bytes)) (start + 1) len

abbrev pub store_of : NdsBackup → Store
store_of b = record { bytes = b.cells; changed = b.dirty }

abbrev pub with_store : NdsBackup → Store → NdsBackup
with_store b s = record b { cells = s.bytes; dirty = s.changed }

-- `cmd_counts[slot].saturating_add(1)`
abbrev pub count_command : NdsBackup → ℕ → List ℕ
count_command b val =
    set b.cmd_counts (cmd_slot val) (min (get_or b.cmd_counts (cmd_slot val) 0 + 1) 4294967295)

unfoldable pub latch_command : NdsBackup → ℕ → NdsBackup
latch_command b val = record b {
  cmd = some val;
  cmd_counts = count_command b val;
  idx = 0;
  addr = 0;
  page_erased = false;
  wel = if val == 0x06 then true else if val == 0x04 then false else b.wel;
}

unfoldable pub read_status : NdsBackup → NdsBackup × ℕ
read_status b =
    let busy = if ltb 0 b.wip then 0x01 else 0x00 in
    (
      record b { wip = if ltb 0 b.wip then b.wip - 1 else b.wip },
      if b.wel then bit_or busy 0x02 else busy,
    )

abbrev pub next_idx : NdsBackup → ℕ
next_idx b = u32 (b.idx + 1)

unfoldable pub read_id : NdsBackup → NdsBackup × ℕ
read_id b =
    let i = next_idx b in
    (
      record b { idx = i },
      if i == 1
          then 0x20
          else if i == 2
          then 0x40
          else if i == 3
          then jedec_capacity b.kind
          else 0x00,
    )

-- `(addr << 8) | val` on `u32`.
abbrev pub shift_in : ℕ → ℕ → ℕ
shift_in addr val = bit_or (u32 (addr << 8)) val

unfoldable pub read_data : NdsBackup → ℕ → NdsBackup × ℕ
read_data b val =
    let i = next_idx b in
    if leb i 3
    then (record b { idx = i; addr = shift_in b.addr val }, 0x00)
    else (record b { idx = i; addr = u32 (b.addr + 1) }, read_at b.cells b.addr)

unfoldable pub program_data : NdsBackup → Bool → ℕ → NdsBackup × ℕ
program_data b erased val =
    let i = next_idx b in
    let page_base = b.addr - b.addr % page_bytes in
    let programmed = with_store b (program_at (store_of b) b.addr val erased) in
    if leb i 3
    then (record b { idx = i; addr = shift_in b.addr val }, 0x00)
    else if b.wel
    then (
      record programmed {
        idx = i;
        launched = true;
        addr = page_base + u32 (b.addr + 1) % page_bytes;
      },
      0x00,
    )
    else (record b { idx = i }, 0x00)

unfoldable pub erase_data : NdsBackup → ℕ → ℕ → NdsBackup × ℕ
erase_data b span val =
    let i = next_idx b in
    let addr = shift_in b.addr val in
    let erased = with_store b (erase_range (store_of b) (addr - addr % span) span) in
    if leb i 3
    then if i == 3 && b.wel
      then (record erased { idx = i; addr = addr; launched = true }, 0x00)
      else (record b { idx = i; addr = addr }, 0x00)
    else (record b { idx = i }, 0x00)

-- The `match` of `transfer` on the command in flight.
unfoldable pub respond : Option ℕ → NdsBackup → ℕ → NdsBackup × ℕ
respond none b val = if val == 0x00 then (b, 0x00) else (latch_command b val, 0x00)
respond (some cmd) b val =
    if cmd == 0x05
    then read_status b
    else if cmd == 0x01
    then (b, 0x00)
    else if cmd == 0x9F
    then read_id b
    else if cmd == 0x03
    then read_data b val
    else if cmd == 0x0A || cmd == 0x02
    then program_data b (cmd == 0x0A) val
    else if cmd == 0xDB || cmd == 0xD8
    then erase_data b (if cmd == 0xDB then page_bytes else sector_bytes) val
    else (b, 0x00)

unfoldable pub transfer : NdsBackup → ℕ → NdsBackup × ℕ
transfer b val =
    let (b', out) = respond b.cmd b val in
    if length b.cells == 0
    then (record b { last_out = 0xFF }, 0xFF)
    else (record b' { last_out = out }, out)

-- `written` is what `write_battery_file` answers.
unfoldable pub save_to_disk : NdsBackup → Bool → NdsBackup × Bool
save_to_disk b written =
    if length b.cells == 0
    then (b, true)
    else if written
    then (record b { dirty = false }, true)
    else (b, false)

-- The cells are overwritten before the result is known; only a file that was there clears `dirty`.
abbrev load_result : NdsBackup → ReadResult × List ℕ → NdsBackup × Bool
load_result b (ok found, cells) =
    (record b { cells = cells; dirty = if found then false else b.dirty }, true)
load_result b (failed, cells) = (record b { cells = cells }, false)

unfoldable pub load_from_disk : NdsBackup → BatteryFile → NdsBackup × Bool
load_from_disk b file =
    if length b.cells == 0 then (b, true) else load_result b (read_battery_file file b.cells)
