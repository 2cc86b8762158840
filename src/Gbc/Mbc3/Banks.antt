-- ===== src/Gbc/Mbc3/Banks.antt =====
-- Bank switching of gbc/mbc3.rs: what reads see after writes to the control addresses and to RAM.
use emulator_app.Base.{
  ℕ, ◌+◌, ◌-◌, ◌*◌, ◌%◌, ◌≤◌, ◌<◌, ◌≡◌, ◌≢◌, true, arith, ltb, ◌==◌, if◌then◌else◌, bit_and_low,
  get_or, length, get_or-set,
}
use emulator_app.Gbc.Mbc3.{Mbc3, read_rom, write_rom, ram_offset, read_ram_or_rtc, write_ram_or_rtc}

-- After a write of any value to the ROM bank register, the fixed half still reads the first bank,
-- and the switchable half reads the bank of the value's low seven bits, with bank 1 for bank 0 and
-- 0xFF past the end of the ROM. No RAM and no clock changes.
pub write_rom-read_rom :
    (m : Mbc3) (select value address : ℕ)
    → 0x2000 ≤ select
    → select < 0x4000
    → let after = write_rom m select value in
      (read_rom after address ≡ (
        if ltb address 0x4000
        then get_or m.rom address 0xFF
        else get_or m.rom
            ((if value % 128 == 0 then 1 else value % 128) * 0x4000 + (address - 0x4000))
            0xFF))
      × (after.ram ≡ m.ram)
      × (after.rtc ≡ m.rtc)
unfolding write_rom read_rom
write_rom-read_rom m select value address lo hi = ground (arith, bit_and_low 7 value)

-- While RAM and clock are not enabled, the RAM window reads 0xFF everywhere and a write to it
-- changes nothing; the last write below 0x2000 decides, by the low four bits of its value.
pub ram_rtc-disabled :
    (m : Mbc3) (enable value address byte : ℕ)
    → enable < 0x2000
    → value % 16 ≢ 0x0A
    → let after = write_rom m enable value in
      (read_ram_or_rtc after address ≡ 0xFF) × (write_ram_or_rtc after address byte ≡ after)
unfolding write_rom read_ram_or_rtc write_ram_or_rtc
ram_rtc-disabled m enable value address byte lo ne = ground (arith, bit_and_low 4 value)

ram_offset_lem :
    (reg address : ℕ)
    → reg ≤ 3
    → 0xA000 ≤ address
    → address < 0xC000
    → ram_offset reg address ≡ reg * 8192 + (address - 0xA000)
unfolding ram_offset
ram_offset_lem reg address h lo hi = omega arith

-- With RAM enabled and a RAM bank selected, a byte that is written in the window is read back at its
-- address, and every other address of the window reads as before.
pub write_ram-read_ram :
    (m : Mbc3) (value address other : ℕ)
    → m.ram_rtc_enabled ≡ true
    → m.ram_bank_or_rtc_reg ≤ 3
    → length m.ram ≡ 32768
    → 0xA000 ≤ address
    → address < 0xC000
    → 0xA000 ≤ other
    → other < 0xC000
    → read_ram_or_rtc (write_ram_or_rtc m address value) other
      ≡ (if address == other then value else read_ram_or_rtc m other)
unfolding read_ram_or_rtc write_ram_or_rtc
write_ram-read_ram m value address other on bank size lo hi lo' hi' = ground (
  arith,
  ram_offset_lem m.ram_bank_or_rtc_reg address,
  ram_offset_lem m.ram_bank_or_rtc_reg other,
  get_or-set m.ram (m.ram_bank_or_rtc_reg * 8192 + (address - 0xA000))
      (m.ram_bank_or_rtc_reg * 8192 + (other - 0xA000)) value 0xFF,
)
