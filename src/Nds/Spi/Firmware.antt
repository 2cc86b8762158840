-- ===== src/Nds/Spi/Firmware.antt =====
-- core/src/nds/spi.rs, `FirmwareState`: the serial flash of the firmware (SPI device 1). `u32`
-- counters wrap, as in a release build.
use emulator_app.Base.{
  ℕ, ◌+◌, ◌-◌, Bool, true, false, ◌&&◌, ◌||◌, List, [], ◌∷◌, ◌++◌, Option, none, some, ltb, leb,
  ◌==◌, if◌then◌else◌, bit_and, bit_or, get_or, set, length, replicate, u32,
}
use emulator_app.Nds.Backup.{shift_in}
use emulator_app.Nds.Settings.{build_user_settings}

-- `FIRMWARE_BYTES`
abbrev pub firmware_bytes : ℕ
firmware_bytes = 0x40000

pub record FirmwareState : Type 0 where
  pub cmd : Option ℕ
  pub idx : ℕ
  pub addr : ℕ
  pub wel : Bool
  pub cells : List ℕ
  pub wip_reads : ℕ
  pub log_on : Bool
  pub read_log : List (ℕ × ℕ)

-- `d[at..at + bytes.len()].copy_from_slice(bytes)`
unfoldable pub copy_at : List ℕ → ℕ → List ℕ → List ℕ
copy_at d at [] = d
copy_at d at (b ∷ bs) = copy_at (set d at b) (at + 1) bs

unfoldable pub initial_image : List ℕ
initial_image =
    copy_at (set (set (replicate firmware_bytes 0xFF) 0x20 0xC0) 0x21 0x7F) 0x3FE00
      build_user_settings

unfoldable pub new : FirmwareState
new = record {
  cmd = none;
  idx = 0;
  addr = 0;
  wel = false;
  cells = initial_image;
  wip_reads = 0;
  log_on = false;
  read_log = [];
}

-- The commands whose end starts the busy window.
abbrev pub launches : Option ℕ → Bool
launches none = false
launches (some c) = c == 0x02 || c == 0x0A || c == 0x01 || c == 0xDB

unfoldable pub reset_state : FirmwareState → FirmwareState
reset_state f = record f {
  wip_reads = if launches f.cmd then 2 else f.wip_reads;
  cmd = none;
  idx = 0;
  addr = 0;
}

unfoldable pub latch_command : FirmwareState → ℕ → FirmwareState
latch_command f val = record f {
  cmd = some val;
  wel = if val == 0x06 then true else if val == 0x04 then false else f.wel;
}

unfoldable pub read_status : FirmwareState → FirmwareState × ℕ
read_status f =
    if ltb 0 f.wip_reads
    then (
      record f { wip_reads = f.wip_reads - 1; wel = if f.wip_reads - 1 == 0 then false else f.wel },
      if f.wel then bit_or 0x01 0x02 else 0x01,
    )
    else (f, if f.wel then bit_or 0 0x02 else 0)

abbrev pub cell_of : ℕ → ℕ
cell_of addr = bit_and addr 0x3FFFF

unfoldable pub read_data : FirmwareState → ℕ → FirmwareState × ℕ
read_data f val =
    let i = u32 (f.idx + 1) in
    let b = get_or f.cells (cell_of f.addr) 0xFF in
    if leb i 3 then (record f { idx = i; addr = shift_in f.addr val }, 0x00) else (
      record f {
        idx = i;
        addr = u32 (f.addr + 1);
        read_log =
            if i == 4 && f.log_on && ltb (length f.read_log) 48
            then f.read_log ++ ((f.addr, b) ∷ [])
            else f.read_log;
      },
      b,
    )

unfoldable pub write_data : FirmwareState → ℕ → FirmwareState × ℕ
write_data f val =
    let i = u32 (f.idx + 1) in
    if leb i 3 then (record f { idx = i; addr = shift_in f.addr val }, 0x00) else (
      record f { idx = i; addr = u32 (f.addr + 1); cells = set f.cells (cell_of f.addr) val },
      0x00,
    )

-- The `match` of `process_byte` on the command in flight.
unfoldable pub respond : Option ℕ → FirmwareState → ℕ → FirmwareState × ℕ
unfolding latch_command read_status read_data write_data
respond none f val = (latch_command f val, 0x00)
respond (some cmd) f val =
    if cmd == 0x05
    then read_status f
    else if cmd == 0x03
    then read_data f val
    else if cmd == 0x02 || cmd == 0x0A
    then write_data f val
    else (f, 0x00)

unfoldable pub process_byte : FirmwareState → ℕ → FirmwareState × ℕ
unfolding respond
process_byte f val = respond f.cmd f val
