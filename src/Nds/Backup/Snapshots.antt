-- ===== src/Nds/Backup/Snapshots.antt =====
-- The snapshot of the chip of nds/backup.rs, through the codec of snapshot.rs. The command counters
-- are no part of it.
use emulator_app.Base.{ℕ, Bool, ◌&&◌, ◌==◌, ◌!=◌, if◌then◌else◌, List, Option, some, none}
use emulator_app.Snapshot.Codec.{
  Why, label, fail, loading, Snap, snap_le, snap_bool, snap_option, snap_enum, snap_bytes,
  snap_pair,
}
use emulator_app.Snapshot.Fields.{◌then◌}
use emulator_app.Nds.Backup.{
  BackupKind, absent, flash_256k, flash_512k, flash_1m, size_bytes, NdsBackup,
}

abbrev pub kind_index : BackupKind → ℕ
kind_index absent = 0
kind_index flash_256k = 1
kind_index flash_512k = 2
kind_index flash_1m = 3

abbrev pub kind_from : ℕ → Option BackupKind
kind_from i =
    if i == 0
    then some absent
    else if i == 1
    then some flash_256k
    else if i == 2
    then some flash_512k
    else if i == 3
    then some flash_1m
    else none

-- The labels "snapshot names a different backup device" and "backup chip size mismatch".
abbrev pub other_device : Why
other_device = label 0

abbrev pub size_mismatch : Why
size_mismatch = label 1

-- The fields after the kind, in the order in which they are visited.
abbrev pub Fields : Type 0
Fields = List ℕ × (Bool × (Option ℕ × (ℕ × (ℕ × (Bool × (ℕ × (Bool × (Bool × ℕ))))))))

abbrev pub fields : NdsBackup → Fields
fields b = (
  b.cells,
  (
    b.dirty,
    (b.cmd, (b.idx, (b.addr, (b.wel, (b.wip, (b.page_erased, (b.launched, b.last_out))))))),
  ),
)

abbrev pub with_fields : NdsBackup → Fields → NdsBackup
with_fields b
      (cells, (dirty, (cmd, (idx, (addr, (wel, (wip, (page_erased, (launched, last_out))))))))) =
    record b {
      cells = cells;
      dirty = dirty;
      cmd = cmd;
      idx = idx;
      addr = addr;
      wel = wel;
      wip = wip;
      page_erased = page_erased;
      launched = launched;
      last_out = last_out;
    }

abbrev pub snap_fields : BackupKind → Snap Fields
snap_fields kind = snap_pair (snap_bytes (size_bytes kind) size_mismatch) (
    snap_pair snap_bool (
      snap_pair (snap_option (snap_le 1) 0) (
        snap_pair (snap_le 4) (
          snap_pair (snap_le 4) (
            snap_pair snap_bool
              (snap_pair (snap_le 1) (snap_pair snap_bool (snap_pair snap_bool (snap_le 1)))))))))

-- `NdsBackup::snap`.
unfoldable pub snap_backup : Snap NdsBackup
snap_backup v self =
    let (v1, kind) = snap_enum kind_index kind_from v self.kind in
    if loading v1 && kind_index kind != kind_index self.kind
    then (fail v1 other_device, self)
    else (let (v2, values) = snap_fields kind v1 (fields self) in
        (v2, with_fields (record self { kind = kind }) values))
