-- ===== src/Nds/Backup/Valid.antt =====
-- The well-formed state of the chip of nds/backup.rs, and that every byte on the bus keeps it.
use emulator_app.Base.{
  ℕ, zero, suc, ◌+◌, ◌-◌, ◌*◌, ◌%◌, ◌^◌, ◌≤◌, ◌<◌, ◌≡◌, refl, ◌∙◌, Bool, arith, ◌==◌, if◌then◌else◌,
  bit_and, bit_and-le, bit_or-lt, length, get_or, IsBytes, IsBytes-set, Option, none, some, u32,
  length-replicate, IsBytes-replicate, min,
}
use emulator_app.Nds.Backup.{
  BackupKind, absent, flash_256k, flash_512k, flash_1m, size_bytes, NdsBackup, new, Store, store_of,
  program_at, erase_at, erase_range, deselect, latch_command, read_status, read_id, read_data,
  program_data, erase_data, shift_in, respond, transfer,
}
use emulator_app.Nds.Backup.Cells.{length-program_at, length-erase_range}

pub record IsValid (b : NdsBackup) : Type 0 where
  pub size : length b.cells ≡ size_bytes b.kind
  pub bytes : IsBytes b.cells
  pub addr_fits : b.addr < 2 ^ 32
  pub idx_fits : b.idx < 2 ^ 32
  pub wip_fits : b.wip ≤ 2

IsBytes-program_at :
    (s : Store) (addr val : ℕ) (erased : Bool)
    → IsBytes s.bytes
    → val < 256
    → IsBytes (program_at s addr val erased).bytes
unfolding program_at
IsBytes-program_at s addr val erased h hv =
    let i = addr % length s.bytes in
    λ j. ground (
      arith,
      IsBytes-set s.bytes i val h hv j,
      IsBytes-set s.bytes i (bit_and (get_or s.bytes i 0xFF) val) h
          (omega (arith, bit_and-le (get_or s.bytes i 0xFF) val)) j,
      h j,
    )

IsBytes-erase_range :
    (n : ℕ) (s : Store) (start : ℕ) → IsBytes s.bytes → IsBytes (erase_range s start n).bytes
unfolding erase_range
IsBytes-erase_range zero s start h = h
IsBytes-erase_range (suc n) s start h =
    IsBytes-erase_range n (erase_at s (start % length s.bytes)) (start + 1) (one s _ h)
  where
    one : (t : Store) (i : ℕ) → IsBytes t.bytes → IsBytes (erase_at t i).bytes
    one t i k =
        λ j. unfold erase_at in ground (arith, IsBytes-set t.bytes i 0xFF k (omega arith) j, k j)

pub shift_in-lt : (addr val : ℕ) → val < 256 → shift_in addr val < 2 ^ 32
shift_in-lt addr val h = bit_or-lt 32 (u32 (addr * 256)) val (omega arith) (omega arith)

read_data-IsValid : (b : NdsBackup) (val : ℕ) → val < 256 → IsValid b → IsValid (read_data b val).0
unfolding read_data
read_data-IsValid b val hv h = ground (arith, shift_in-lt b.addr val)

program_data-IsValid :
    (b : NdsBackup) (erased : Bool) (val : ℕ)
    → val < 256
    → IsValid b
    → IsValid (program_data b erased val).0
unfolding program_data
program_data-IsValid b erased val hv h = ground (
  arith,
  shift_in-lt b.addr val,
  length-program_at (store_of b) b.addr val erased,
  IsBytes-program_at (store_of b) b.addr val erased h.bytes hv,
)

erase_data-IsValid :
    (b : NdsBackup) (span val : ℕ) → val < 256 → IsValid b → IsValid (erase_data b span val).0
unfolding erase_data
erase_data-IsValid b span val hv h =
    let addr = shift_in b.addr val in
    ground (
      arith,
      shift_in-lt b.addr val,
      length-erase_range (store_of b) (addr - addr % span) span,
      IsBytes-erase_range span (store_of b) (addr - addr % span) h.bytes,
    )

respond-IsValid :
    (c : Option ℕ) (b : NdsBackup) (val : ℕ) → val < 256 → IsValid b → IsValid (respond c b val).0
unfolding respond latch_command read_status read_id
respond-IsValid none b val hv h = ground arith
respond-IsValid (some cmd) b val hv h = ground (
  arith,
  read_data-IsValid b val hv h,
  program_data-IsValid b (cmd == 0x0A) val hv h,
  erase_data-IsValid b (if cmd == 0xDB then 256 else 65536) val hv h,
)

-- One byte on the bus, whatever the chip is doing, and one release of chip select keep the chip well
-- formed: the cells keep the size that the device dictates, and stay bytes.
pub transfer-IsValid :
    (b : NdsBackup) (val : ℕ)
    → val < 256
    → IsValid b
    → IsValid (transfer b val).0 × IsValid (deselect b)
unfolding transfer deselect
transfer-IsValid b val hv h = (ground (arith, respond-IsValid b.cmd b val hv h), ground arith)

pub new-IsValid : (k : BackupKind) → IsValid (new k)
unfolding new
new-IsValid k = record {
  size = length-replicate (min (size_bytes k) 1048576) 0xFF ∙ fits k;
  bytes = IsBytes-replicate (min (size_bytes k) 1048576) 0xFF (omega arith);
  addr_fits = omega arith;
  idx_fits = omega arith;
  wip_fits = omega arith;
}
  where
    fits : (j : BackupKind) → min (size_bytes j) 1048576 ≡ size_bytes j
    fits absent = refl
    fits flash_256k = refl
    fits flash_512k = refl
    fits flash_1m = refl
