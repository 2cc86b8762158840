-- ===== src/Nds/Backup/Device.antt =====
-- The devices and the state of the chip of nds/backup.rs.
use emulator_app.Base.{ℕ, Bool, List, Option, ◌==◌, if◌then◌else◌}

pub data BackupKind : Type 0 where
  absent flash_256k flash_512k flash_1m : BackupKind

abbrev pub max_backup_bytes : ℕ
max_backup_bytes = 1048576

abbrev pub page_bytes : ℕ
page_bytes = 256

abbrev pub sector_bytes : ℕ
sector_bytes = 65536

abbrev pub wip_polls : ℕ
wip_polls = 2

abbrev pub size_bytes : BackupKind → ℕ
size_bytes absent = 0
size_bytes flash_256k = 262144
size_bytes flash_512k = 524288
size_bytes flash_1m = 1048576

abbrev pub jedec_capacity : BackupKind → ℕ
jedec_capacity absent = 0x00
jedec_capacity flash_256k = 0x12
jedec_capacity flash_512k = 0x13
jedec_capacity flash_1m = 0x14

-- Every gamecode gives the same device.
unfoldable pub backup_kind_for_gamecode : List ℕ → BackupKind
backup_kind_for_gamecode gamecode = flash_512k

unfoldable pub cmd_slot : ℕ → ℕ
cmd_slot cmd =
    if cmd == 0x03
    then 0
    else if cmd == 0x05
    then 1
    else if cmd == 0x06
    then 2
    else if cmd == 0x04
    then 3
    else if cmd == 0x02
    then 4
    else if cmd == 0x0A
    then 5
    else if cmd == 0xD8
    then 6
    else 7

pub record NdsBackup : Type 0 where
  pub kind : BackupKind
  pub cells : List ℕ
  pub dirty : Bool
  pub cmd : Option ℕ
  pub idx : ℕ
  pub addr : ℕ
  pub wel : Bool
  pub wip : ℕ
  pub page_erased : Bool
  pub launched : Bool
  pub last_out : ℕ
  pub cmd_counts : List ℕ
