-- ===== src/Gbc/Mbc3.antt =====
-- core/src/gbc/mbc3.rs: `Mbc3`, the cartridge's ROM and RAM banks, its clock, and its battery image.
pub mod Banks
pub mod Save
pub mod RoundTrip
mod Tests
use emulator_app.Base.{
  ℕ, zero, suc, ◌+◌, ◌-◌, ◌*◌, ◌/◌, ◌%◌, ◌^◌, Bool, true, false, ◌&&◌, ◌||◌, not, List, [], ◌∷◌,
  Option, none, some, ltb, leb, ◌==◌, ◌!=◌, if◌then◌else◌, bit_and, get_or, set, length, replicate,
  u64,
}
use emulator_app.Gbc.Rtc
use emulator_app.Gbc.Rtc.{RealTimeClock}

pub record Mbc3 : Type 0 where
  pub rom : List ℕ
  pub ram : List ℕ
  pub rom_bank : ℕ
  pub ram_bank_or_rtc_reg : ℕ
  pub ram_rtc_enabled : Bool
  pub rtc : RealTimeClock
  pub latch_state : ℕ
  pub is_dirty : Bool

abbrev initial : Option (List ℕ) → List ℕ
initial none = replicate (32 * 1024) 0
initial (some ram) = ram

unfoldable pub new : List ℕ → Option (List ℕ) → Mbc3
new rom initial_ram = record {
  rom = rom;
  ram = initial initial_ram;
  rom_bank = 1;
  ram_bank_or_rtc_reg = 0;
  ram_rtc_enabled = false;
  rtc = Rtc.new;
  latch_state = 0xFF;
  is_dirty = false;
}

unfoldable pub read_rom : Mbc3 → ℕ → ℕ
read_rom m address =
    let bank = if m.rom_bank == 0 then 1 else m.rom_bank in
    let index = if ltb address 0x4000 then address else bank * 0x4000 + (address - 0x4000) in
    get_or m.rom index 0xFF

unfoldable pub write_rom : Mbc3 → ℕ → ℕ → Mbc3
write_rom m address value =
    let bank = bit_and value 0x7F in
    let latched =
      if m.latch_state == 0x00 && value == 0x01 then record m { rtc = Rtc.latch m.rtc } else m in
    if ltb address 0x2000
    then record m { ram_rtc_enabled = bit_and value 0x0F == 0x0A }
    else if ltb address 0x4000
    then record m { rom_bank = if bank == 0 then 1 else bank }
    else if ltb address 0x6000
    then record m { ram_bank_or_rtc_reg = value }
    else if ltb address 0x8000
    then record latched { latch_state = value }
    else m

-- `reg as usize * 8 * 1024 + (address as usize - 0xA000)`; `usize` wraps.
unfoldable pub ram_offset : ℕ → ℕ → ℕ
ram_offset reg address = u64 (reg * 8 * 1024 + u64 (address + 2 ^ 64 - 0xA000))

abbrev pub selects_clock : ℕ → Bool
selects_clock reg = leb 0x08 reg && leb reg 0x0C

unfoldable pub read_ram_or_rtc : Mbc3 → ℕ → ℕ
unfolding ram_offset
read_ram_or_rtc m address =
    let reg = m.ram_bank_or_rtc_reg in
    if not m.ram_rtc_enabled
    then 0xFF
    else if leb reg 0x03
    then get_or m.ram (ram_offset reg address) 0xFF
    else if selects_clock reg
    then Rtc.read_register m.rtc reg
    else 0xFF

unfoldable pub write_ram_or_rtc : Mbc3 → ℕ → ℕ → Mbc3
unfolding ram_offset
write_ram_or_rtc m address value =
    let reg = m.ram_bank_or_rtc_reg in
    let offset = ram_offset reg address in
    if not m.ram_rtc_enabled
    then m
    else if leb reg 0x03
    then if ltb offset (length m.ram)
      then record m { ram = set m.ram offset value; is_dirty = true }
      else m
    else if selects_clock reg
    then record m { rtc = Rtc.write_register m.rtc reg value; is_dirty = true }
    else m
