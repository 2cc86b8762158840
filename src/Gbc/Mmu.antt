-- ===== src/Gbc/Mmu.antt =====
-- core/src/gbc/mmu.rs: `Mmu`, the memory map of the Game Boy Color, with its three DMA engines. The
-- lists keep the sizes that `new` gives them, so no index of a `u16` address is out of range. Of the
-- sound unit, a register write reaches the four channels only.
mod State
unfoldable pub use State.*
pub mod Wram
pub mod Sized
pub mod Padded
pub mod Bounds
pub mod Joypad
pub mod Oam
pub mod Palette
pub mod Hdma
mod Tests
use emulator_app.Base.{
  ℕ, zero, suc, ◌+◌, ◌-◌, ◌*◌, ◌^◌, ◌%◌, Bool, true, false, ◌&&◌, ◌||◌, List, [], ◌∷◌, Option, ltb,
  leb, ◌==◌, ◌!=◌, if◌then◌else◌, bit_and, bit_or, get_or, set, replicate, u8, u16, ◌<<◌,
}
use emulator_app.Gbc.Mbc3
use emulator_app.Gbc.Mbc3.{Mbc3}
use emulator_app.Psg.Frame.{Channels, silent, write_channel_register}

unfoldable pub new : List ℕ → Option (List ℕ) → Mmu
new rom initial_ram = record {
  mbc = Mbc3.new rom initial_ram;
  vram = replicate (16 * 1024) 0;
  wram = replicate (32 * 1024) 0;
  oam = replicate 160 0;
  io = initial_io;
  hram = replicate 127 0;
  ie = 0;
  buttons = released;
  apu = silent;
  bg_palette_ram = replicate 64 0xFF;
  obj_palette_ram = replicate 64 0xFF;
  bcps = 0;
  ocps = 0;
  hdma_active = false;
  hdma_src = 0;
  hdma_dst = 0;
  hdma_blocks = 0;
}

abbrev clear_if : Bool → ℕ → ℕ → ℕ
clear_if pressed mask nibble = if pressed then bit_and nibble (255 - mask) else nibble

abbrev actions : ButtonState → ℕ → ℕ
actions k n =
    clear_if k.start 0x08 (clear_if k.select 0x04 (clear_if k.b 0x02 (clear_if k.a 0x01 n)))

abbrev directions : ButtonState → ℕ → ℕ
directions k n =
    clear_if k.down 0x08 (clear_if k.up 0x04 (clear_if k.left 0x02 (clear_if k.right 0x01 n)))

unfoldable pub read_joypad : Mmu → ℕ
read_joypad m =
    let joyp = read_io m 0 in
    let acted = if bit_and joyp 0x20 == 0 then actions m.buttons 0x0F else 0x0F in
    let nibble = if bit_and joyp 0x10 == 0 then directions m.buttons acted else acted in
    bit_or (bit_and (bit_or joyp 0xC0) 0xF0) nibble

unfoldable pub read_register : Mmu → ℕ → ℕ
read_register m offset =
    if offset == 0x00
    then read_joypad m
    else if offset == 0x68
    then m.bcps
    else if offset == 0x69
    then get_or m.bg_palette_ram (bit_and m.bcps 0x3F) 0
    else if offset == 0x6A
    then m.ocps
    else if offset == 0x6B
    then get_or m.obj_palette_ram (bit_and m.ocps 0x3F) 0
    else read_io m offset

-- The echo of work RAM: the handlers call themselves at `address - 0x2000`, which is below the echo,
-- so the call is one deep.
abbrev pub unecho : ℕ → ℕ
unecho address = if leb 0xE000 address && ltb address 0xFE00 then address - 0x2000 else address

-- The arms of `read_byte` other than the echo's.
unfoldable pub read_direct : Mmu → ℕ → ℕ
read_direct m address =
    if ltb address 0x8000
    then Mbc3.read_rom m.mbc address
    else if ltb address 0xA000
    then get_or m.vram (vram_offset (vram_bank m) address) 0
    else if ltb address 0xC000
    then Mbc3.read_ram_or_rtc m.mbc address
    else if ltb address 0xE000
    then get_or m.wram (wram_offset m address) 0
    else if ltb address 0xFEA0
    then get_or m.oam (address - 0xFE00) 0
    else if ltb address 0xFF00
    then 0x00
    else if ltb address 0xFF80
    then read_register m (address - 0xFF00)
    else if ltb address 0xFFFF
    then get_or m.hram (address - 0xFF80) 0
    else m.ie

unfoldable pub read_byte : Mmu → ℕ → ℕ
read_byte m address = read_direct m (unecho address)

-- `for i in 0..160`: `n` rounds are left, `i` is the next.
unfoldable pub oam_dma : Mmu → ℕ → ℕ → ℕ → Mmu
oam_dma m source_base i zero = m
oam_dma m source_base i (suc n) =
    oam_dma (record m { oam = set m.oam i (read_byte m (source_base + i)) }) source_base (i + 1) n

-- One round of the copy that both VRAM engines make.
unfoldable pub copy_byte : Mmu → ℕ → ℕ → ℕ → Mmu
copy_byte m bank source target =
    if leb 0x8000 target && leb target 0x9FFF
    then record m { vram = set m.vram (vram_offset bank target) (read_byte m source) }
    else m

-- `for i in 0..length`: `n` rounds are left, `i` is the next.
unfoldable pub copy : Mmu → ℕ → ℕ → ℕ → ℕ → ℕ → Mmu
copy m bank source target i zero = m
copy m bank source target i (suc n) =
    copy (copy_byte m bank (u16 (source + i)) (u16 (target + i))) bank source target (i + 1) n

abbrev pub dma_source : Mmu → ℕ
dma_source m = bit_or (read_io m 0x51 << 8) (bit_and (read_io m 0x52) 0xF0)

abbrev pub dma_target : Mmu → ℕ
dma_target m =
    bit_or (bit_or 0x8000 (bit_and (read_io m 0x53) 0x1F << 8)) (bit_and (read_io m 0x54) 0xF0)

-- A write to FF55.
unfoldable pub start_dma : Mmu → ℕ → Mmu
start_dma m value =
    let blocks = bit_and value 0x7F + 1 in
    if bit_and value 0x80 == 0
    then if m.hdma_active
      then record m {
        hdma_active = false;
        io = set m.io 0x55 (bit_or (u8 (m.hdma_blocks + 255)) 0x80);
      }
      else write_io (copy m (vram_bank m) (dma_source m) (dma_target m) 0 (blocks * 16)) 0x55 0xFF
    else record m {
      hdma_src = dma_source m;
      hdma_dst = dma_target m;
      hdma_blocks = blocks;
      hdma_active = true;
      io = set m.io 0x55 (bit_and value 0x7F);
    }

-- The index after an access to palette data.
abbrev pub next_palette : ℕ → ℕ
next_palette spec =
    if bit_and spec 0x80 != 0
    then bit_or (bit_and spec 0x80) (bit_and (u8 (bit_and spec 0x3F + 1)) 0x3F)
    else spec

unfoldable pub write_register : Mmu → ℕ → ℕ → Mmu
write_register m offset value =
    if offset == 0x46
    then write_io (oam_dma m (value << 8) 0 160) 0x46 value
    else if offset == 0x55
    then start_dma m value
    else if offset == 0x68
    then record m { bcps = value }
    else if offset == 0x69
    then record m {
      bg_palette_ram = set m.bg_palette_ram (bit_and m.bcps 0x3F) value;
      bcps = next_palette m.bcps;
    }
    else if offset == 0x6A
    then record m { ocps = value }
    else if offset == 0x6B
    then record m {
      obj_palette_ram = set m.obj_palette_ram (bit_and m.ocps 0x3F) value;
      ocps = next_palette m.ocps;
    }
    else if leb 0x10 offset && leb offset 0x26 || leb 0x30 offset && leb offset 0x3F
    then record m { apu = write_channel_register m.apu offset value; io = set m.io offset value }
    else write_io m offset value

-- The arms of `write_byte` other than the echo's.
unfoldable pub write_direct : Mmu → ℕ → ℕ → Mmu
write_direct m address value =
    if ltb address 0x8000
    then record m { mbc = Mbc3.write_rom m.mbc address value }
    else if ltb address 0xA000
    then record m { vram = set m.vram (vram_offset (vram_bank m) address) value }
    else if ltb address 0xC000
    then record m { mbc = Mbc3.write_ram_or_rtc m.mbc address value }
    else if ltb address 0xE000
    then record m { wram = set m.wram (wram_offset m address) value }
    else if ltb address 0xFEA0
    then record m { oam = set m.oam (address - 0xFE00) value }
    else if ltb address 0xFF00
    then m
    else if ltb address 0xFF80
    then write_register m (address - 0xFF00) value
    else if ltb address 0xFFFF
    then record m { hram = set m.hram (address - 0xFF80) value }
    else record m { ie = value }

unfoldable pub write_byte : Mmu → ℕ → ℕ → Mmu
write_byte m address value = write_direct m (unecho address) value

-- `self.hdma_blocks -= 1` wraps.
unfoldable pub hdma_step : Mmu → Mmu
hdma_step m =
    let moved = copy m (vram_bank m) m.hdma_src m.hdma_dst 0 16 in
    let left = u8 (m.hdma_blocks + 255) in
    if m.hdma_active
    then record moved {
      hdma_src = u16 (m.hdma_src + 16);
      hdma_dst = u16 (m.hdma_dst + 16);
      hdma_blocks = left;
      hdma_active = left != 0;
      io = set m.io 0x55 (if left == 0 then 0xFF else left - 1);
    }
    else m
