-- ===== src/Gba/Flash.antt =====
-- core/src/gba/flash.rs: the 128 KiB flash save chip of a Game Boy Advance cartridge.
-- `Vec<u8>` is a list of numbers; `usize` arithmetic is that of a 64-bit release build, where `*`
-- and `+` wrap. `save_flash_to_disk` hands the cells to the file layer and changes nothing.
pub mod Lemmas
pub mod Protect
pub mod Program
pub mod Banks
mod Tests
use emulator_app.Base.{
  ℕ, zero, suc, ◌+◌, ◌*◌, Bool, true, false, ◌&&◌, List, [], ◌∷◌, ltb, leb, ◌==◌, if◌then◌else◌,
  bit_and, length, get_or, set, replicate, saturating_mul, saturating_add, u64,
}
use emulator_app.Battery.{BatteryFile, ok, failed, read_battery_file}

pub data FlashState : Type 0 where
  ready command_seq1 command_seq2 identify write bank_select erase_seq erase_seq1 erase_seq2 :
      FlashState

pub record Flash128 : Type 0 where
  pub cells : List ℕ
  pub state : FlashState
  pub bank : ℕ
  pub is_dirty : Bool
  pub manufacturer_id : ℕ
  pub device_id : ℕ

unfoldable pub new : Flash128
new = record {
  cells = replicate (128 * 1024) 0xFF;
  state = ready;
  bank = 0;
  is_dirty = false;
  manufacturer_id = 0x62;
  device_id = 0x13;
}

-- `(address & 0xFFFF) as usize`
abbrev pub low_offset : ℕ → ℕ
low_offset address = bit_and address 0xFFFF

unfoldable pub global_offset : Flash128 → ℕ → ℕ
global_offset f offset = saturating_add (saturating_mul f.bank (64 * 1024)) offset

abbrev read_cell : Flash128 → ℕ → ℕ
read_cell f offset =
    if ltb (global_offset f offset) (length f.cells)
    then get_or f.cells (global_offset f offset) 0xFF
    else 0xFF

read_in : FlashState → Flash128 → ℕ → ℕ
read_in identify f offset =
    if offset == 0
    then f.manufacturer_id
    else if offset == 1
    then f.device_id
    else read_cell f offset
read_in _ f offset = read_cell f offset

unfoldable pub read_byte : Flash128 → ℕ → ℕ
unfolding read_in
read_byte f address = read_in f.state f (low_offset address)

-- What the byte after the second unlock write selects at 0x5555.
unfoldable pub command : ℕ → FlashState
command value =
    if value == 0x90
    then identify
    else if value == 0xA0
    then write
    else if value == 0xB0
    then bank_select
    else if value == 0x80
    then erase_seq
    else ready

abbrev pub goto : Flash128 → FlashState → Flash128
goto f s = record f { state = s }

unfoldable pub program : Flash128 → ℕ → ℕ → Flash128
program f offset value =
    let at = global_offset f offset in
    if ltb at (length f.cells)
    then record f {
      cells = set f.cells at (bit_and (get_or f.cells at 0xFF) value);
      is_dirty = true;
    }
    else f

-- `self.data[start + i] = 0xFF` for `count` cells, and `fill(0xFF)`.
unfoldable pub erase_cells : ℕ → ℕ → List ℕ → List ℕ
erase_cells zero start bytes = bytes
erase_cells (suc count) start bytes = erase_cells count (start + 1) (set bytes start 0xFF)

unfoldable pub erase_sector : Flash128 → ℕ → Flash128
erase_sector f offset =
    let start = u64 (u64 (u64 (f.bank * 64) * 1024) + bit_and offset 0xF000) in
    if leb (u64 (start + 4096)) (length f.cells)
    then record f { cells = erase_cells 4096 start f.cells; is_dirty = true }
    else f

unfoldable pub erase_chip : Flash128 → Flash128
erase_chip f = record f { cells = replicate (length f.cells) 0xFF; is_dirty = true }

unfoldable pub erase : Flash128 → ℕ → ℕ → Flash128
erase f offset value =
    if offset == 0x5555 && value == 0x10
    then erase_chip f
    else if value == 0x30
    then erase_sector f offset
    else f

-- `write_byte`, one clause for each arm of its match.
unfoldable pub write_in : FlashState → Flash128 → ℕ → ℕ → Flash128
write_in ready f offset value = if offset == 0x5555 && value == 0xAA then goto f command_seq1 else f
write_in command_seq1 f offset value =
    goto f (if offset == 0x2AAA && value == 0x55 then command_seq2 else ready)
write_in command_seq2 f offset value = goto f (if offset == 0x5555 then command value else ready)
write_in identify f offset value = if value == 0xF0 then goto f ready else f
write_in write f offset value = goto (program f offset value) ready
write_in bank_select f offset value =
    goto (if offset == 0 then record f { bank = bit_and value 1 } else f) ready
write_in erase_seq f offset value =
    goto f (if offset == 0x5555 && value == 0xAA then erase_seq1 else ready)
write_in erase_seq1 f offset value =
    goto f (if offset == 0x2AAA && value == 0x55 then erase_seq2 else ready)
write_in erase_seq2 f offset value = goto (erase f offset value) ready

unfoldable pub write_byte : Flash128 → ℕ → ℕ → Flash128
unfolding write_in
write_byte f address value = write_in f.state f (low_offset address) value

-- A run of bus writes, in order.
unfoldable pub write_all : Flash128 → List (ℕ × ℕ) → Flash128
write_all f [] = f
write_all f ((address, value) ∷ rest) = write_all (write_byte f address value) rest

-- `load_flash_from_disk`: the flag is the result.
unfoldable pub load_flash_from_disk : Flash128 → BatteryFile → Flash128 × Bool
load_flash_from_disk f file =
    let answer = read_battery_file file f.cells in
    (record f { cells = answer.1 }, elim answer.0 [ ok found ↦ true | failed ↦ false ])
