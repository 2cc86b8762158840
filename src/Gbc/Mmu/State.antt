-- ===== src/Gbc/Mmu/State.antt =====
-- The state of gbc/mmu.rs, its registers, and the banks and offsets of its memories.
use emulator_app.Base.{
  ℕ, ◌+◌, ◌-◌, ◌*◌, Bool, false, List, ltb, ◌==◌, if◌then◌else◌, bit_and, get_or, set, replicate,
}
use emulator_app.Gbc.Mbc3.{Mbc3}
use emulator_app.Psg.Frame.{Channels}

pub record ButtonState : Type 0 where
  pub up : Bool
  pub down : Bool
  pub left : Bool
  pub right : Bool
  pub a : Bool
  pub b : Bool
  pub start : Bool
  pub select : Bool
  pub l : Bool
  pub r : Bool
  pub x : Bool
  pub y : Bool
  pub nds_touch_x : ℕ
  pub nds_touch_y : ℕ
  pub nds_touch_pressed : Bool

pub record Mmu : Type 0 where
  pub mbc : Mbc3
  pub vram : List ℕ
  pub wram : List ℕ
  pub oam : List ℕ
  pub io : List ℕ
  pub hram : List ℕ
  pub ie : ℕ
  pub buttons : ButtonState
  pub apu : Channels
  pub bg_palette_ram : List ℕ
  pub obj_palette_ram : List ℕ
  pub bcps : ℕ
  pub ocps : ℕ
  pub hdma_active : Bool
  pub hdma_src : ℕ
  pub hdma_dst : ℕ
  pub hdma_blocks : ℕ

abbrev pub released : ButtonState
released = record {
  up = false;
  down = false;
  left = false;
  right = false;
  a = false;
  b = false;
  start = false;
  select = false;
  l = false;
  r = false;
  x = false;
  y = false;
  nds_touch_x = 0;
  nds_touch_y = 0;
  nds_touch_pressed = false;
}

-- The registers that `new` sets, in its order.
abbrev pub initial_io : List ℕ
initial_io =
    let io0 = set (replicate 128 0) 0x00 0xFF in
    let io1 = set (set (set io0 0x44 0x90) 0x41 0x85) 0x40 0x91 in
    let io2 = set (set (set io1 0x05 0x00) 0x06 0x00) 0x07 0x00 in set (set io2 0x0F 0xE1) 0x26 0xF1

abbrev pub read_io : Mmu → ℕ → ℕ
read_io m offset = get_or m.io offset 0

abbrev pub write_io : Mmu → ℕ → ℕ → Mmu
write_io m offset value = record m { io = set m.io offset value }

abbrev pub vram_bank : Mmu → ℕ
vram_bank m = bit_and (read_io m 0x4F) 0x01

abbrev pub vram_offset : ℕ → ℕ → ℕ
vram_offset bank address = bank * 8192 + (address - 0x8000)

abbrev pub wram_bank : Mmu → ℕ
wram_bank m = let bank = bit_and (read_io m 0x70) 0x07 in if bank == 0 then 1 else bank

abbrev pub wram_offset : Mmu → ℕ → ℕ
wram_offset m address =
    if ltb address 0xD000 then address - 0xC000 else wram_bank m * 4096 + (address - 0xD000)

-- `if pressed { nibble &= !mask }` on a `u8`
