-- ===== src/Nds/Backup/Encoded.antt =====
-- What the chip of nds/backup.rs is written as in a snapshot.
use emulator_app.Base.{
  ℕ, ◌^◌, ◌≤◌, ◌<◌, ◌≡◌, ◌≢◌, refl, ap, sym, ◌∙◌, true, false, ◌&&◌, ◌!=◌, if◌then◌else◌, arith,
  List, [], ◌++◌, Option, some, none, length,
}
use emulator_app.Snapshot.Codec.{Visitor, fail, loading, to_le_bytes, snap_le, snap_bool, snap_enum}
use emulator_app.Snapshot.Unread.{}
use emulator_app.Snapshot.Lawful.{Lawful, snap_le-Lawful}
use emulator_app.Snapshot.Fields.{Law, law_of, ◌then◌}
use emulator_app.Snapshot.Collections.{snap_bool-Lawful, snap_enum-Lawful}
use emulator_app.Snapshot.Optional.{snap_option-Lawful}
use emulator_app.Snapshot.Regions.{snap_bytes-Lawful}
use emulator_app.Nds.Backup.{
  BackupKind, absent, flash_256k, flash_512k, flash_1m, size_bytes, NdsBackup,
}
use emulator_app.Snapshot.Streams.{saved, out_of}
use emulator_app.Nds.Backup.Snapshots.{
  kind_index, kind_from, other_device, size_mismatch, fields, with_fields, snap_fields, snap_backup,
}

abbrev pub or_zero : Option ℕ → ℕ
or_zero (some c) = c
or_zero none = 0

-- The fields fit their types, and the cells fit the device.
pub record Saveable (b : NdsBackup) : Type 0 where
  pub size : length b.cells ≡ size_bytes b.kind
  pub cmd_fits : or_zero b.cmd < 256
  pub idx_fits : b.idx < 2 ^ 32
  pub addr_fits : b.addr < 2 ^ 32
  pub wip_fits : b.wip < 256
  pub last_out_fits : b.last_out < 256

pub size_bytes-small : (kind : BackupKind) → size_bytes kind < 2 ^ 32
size_bytes-small absent = omega arith
size_bytes-small flash_256k = omega arith
size_bytes-small flash_512k = omega arith
size_bytes-small flash_1m = omega arith

kind_index-small : (kind : BackupKind) → kind_index kind < 256
kind_index-small absent = omega arith
kind_index-small flash_256k = omega arith
kind_index-small flash_512k = omega arith
kind_index-small flash_1m = omega arith

kind_index-from : (kind : BackupKind) → kind_from (kind_index kind) ≡ some kind
kind_index-from absent = refl
kind_index-from flash_256k = refl
kind_index-from flash_512k = refl
kind_index-from flash_1m = refl

abbrev pub bool_law : Law snap_bool
bool_law = law_of snap_bool-Lawful

abbrev pub word_law : (n : ℕ) → Law (snap_le n)
word_law n = law_of (snap_le-Lawful n)

abbrev pub fields_law : (kind : BackupKind) → Law (snap_fields kind)
fields_law kind =
    law_of (snap_bytes-Lawful (size_bytes kind) size_mismatch (size_bytes-small kind))
    then bool_law
    then law_of (snap_option-Lawful (snap_le-Lawful 1) 0 (omega arith))
    then word_law 4
    then word_law 4
    then bool_law
    then word_law 1
    then bool_law
    then bool_law
    then word_law 1

pub kind_law :
    Lawful (snap_enum kind_index kind_from) (λ k. Unit) (λ k. to_le_bytes 1 (kind_index k))
kind_law = snap_enum-Lawful kind_index kind_from kind_index-from kind_index-small

pub fields_fit :
    (b : NdsBackup) (kind : BackupKind)
    → Saveable b
    → kind ≡ b.kind
    → (fields_law kind).Fits (fields b)
fields_fit b kind h e = (
  h.size ∙ ap size_bytes (sym e),
  (
    tt,
    (
      optional b.cmd h.cmd_fits,
      (h.idx_fits, (h.addr_fits, (tt, (h.wip_fits, (tt, (tt, h.last_out_fits)))))),
    ),
  ),
)
  where
    optional :
        (o : Option ℕ)
        → or_zero o < 256
        → (law_of (snap_option-Lawful (snap_le-Lawful 1) 0 (omega arith))).Fits o
    optional (some c) small = small
    optional none small = omega arith

-- What is written of a chip.
abbrev pub encode : NdsBackup → List ℕ
encode x = to_le_bytes 1 (kind_index x.kind) ++ (fields_law x.kind).encode (fields x)

-- What `snap_backup` does after the kind.
abbrev pub follow : NdsBackup → Visitor → BackupKind → Visitor × NdsBackup
follow self v1 kind =
    if loading v1 && kind_index kind != kind_index self.kind
    then (fail v1 other_device, self)
    else (let (v2, values) = snap_fields kind v1 (fields self) in
        (v2, with_fields (record self { kind = kind }) values))

pub saved_lem : (x : NdsBackup) → Saveable x → saved snap_backup x ≡ encode x
unfolding saved snap_backup
saved_lem x h =
    ap (λ t. out_of (follow x t.0 t.1).0) (kind_law.writes [] x.kind tt)
    ∙ ap (λ t. out_of t.0)
        ((fields_law x.kind).law.writes (to_le_bytes 1 (kind_index x.kind)) (fields x)
          (fields_fit x x.kind h refl))

-- The kind and the length of the cells come first.
pub saved_least : (x : NdsBackup) → Saveable x → 5 ≤ length (saved snap_backup x)
unfolding to_le_bytes
saved_least x h = omega (arith, ap length (saved_lem x h))

pub same_index : (a b : BackupKind) → a ≡ b → (kind_index a != kind_index b) ≡ false
same_index a b e = ground (arith, ap kind_index e)

abbrev device : ℕ → BackupKind
device i = elim (kind_from i) [ some kind ↦ kind | none ↦ absent ]

device-kind_index : (kind : BackupKind) → device (kind_index kind) ≡ kind
device-kind_index absent = refl
device-kind_index flash_256k = refl
device-kind_index flash_512k = refl
device-kind_index flash_1m = refl

kind_index-injective : (a b : BackupKind) → kind_index a ≡ kind_index b → a ≡ b
kind_index-injective a b e = sym (device-kind_index a) ∙ ap device e ∙ device-kind_index b

pub other_index : (a b : BackupKind) → a ≢ b → (kind_index a != kind_index b) ≡ true
other_index a b ne = ground (arith, kind_index-injective a b)
