-- ===== src/Nds/Spi/Controller.antt =====
-- core/src/nds/spi.rs, `SpiController`: the registers of the bus and the routing of a byte. The
-- register file of nds/mmu.rs reaches it by halfwords or by bytes.
use emulator_app.Base.{
  ℕ, ◌%◌, Bool, true, false, ◌&&◌, ◌==◌, ◌!=◌, if◌then◌else◌, bit_and, bit_or, u16, ◌<<◌, ◌>>◌,
}
use emulator_app.Nds.Spi.Tsc
use emulator_app.Nds.Spi.Tsc.{TouchScreenController}
use emulator_app.Nds.Spi.Pmic
use emulator_app.Nds.Spi.Pmic.{PmicState}
use emulator_app.Nds.Spi.Firmware
use emulator_app.Nds.Spi.Firmware.{FirmwareState}

pub record SpiController : Type 0 where
  pub spicnt : ℕ
  pub spidata : ℕ
  pub tsc : TouchScreenController
  pub pmic : PmicState
  pub firmware : FirmwareState

unfoldable pub new : SpiController
new = record { spicnt = 0; spidata = 0; tsc = Tsc.new; pmic = Pmic.new; firmware = Firmware.new }

abbrev pub enabled : SpiController → Bool
enabled s = bit_and s.spicnt 0x8000 != 0

abbrev pub device : SpiController → ℕ
device s = bit_and (s.spicnt >> 8) 3

abbrev pub held : SpiController → Bool
held s = bit_and s.spicnt 0x0800 != 0

-- Every device's transaction ends.
unfoldable pub release : SpiController → SpiController
unfolding Tsc.reset_state Firmware.reset_state
release s = record s {
  tsc = Tsc.reset_state s.tsc;
  pmic = record s.pmic { state = Pmic.expect_command };
  firmware = Firmware.reset_state s.firmware;
}

unfoldable pub write_spicnt : SpiController → ℕ → SpiController
unfolding release
write_spicnt s val =
    let s1 = record s { spicnt = bit_and val 0xCF03 } in if enabled s1 then s1 else release s1

abbrev from_pmic : SpiController → PmicState × ℕ → SpiController × ℕ
from_pmic s (p, out) = (record s { pmic = p }, out)

abbrev from_firmware : SpiController → FirmwareState × ℕ → SpiController × ℕ
from_firmware s (f, out) = (record s { firmware = f }, out)

abbrev from_tsc : SpiController → TouchScreenController × ℕ → SpiController × ℕ
from_tsc s (t, out) = (record s { tsc = t }, out)

-- The device that is selected takes the byte.
unfoldable pub route : SpiController → ℕ → SpiController × ℕ
route s byte =
    if device s == 0
    then from_pmic s (Pmic.process_byte s.pmic byte)
    else if device s == 1
    then from_firmware s (Firmware.process_byte s.firmware byte)
    else if device s == 2
    then from_tsc s (Tsc.process_byte s.tsc byte)
    else (s, 0xFF)

-- Routed and latched, with the release of chip select still to come.
unfoldable pub clock : SpiController → ℕ → SpiController
unfolding route
clock s byte = let (s1, out) = route s byte in record s1 { spidata = out }

unfoldable pub write_spidata : SpiController → ℕ → SpiController
unfolding clock release
write_spidata s val =
    let s1 = clock s (bit_and val 0xFF) in
    if enabled s then if held s1 then s1 else release s1 else s

-- The interrupt that a write to SPIDATA raises.
abbrev pub interrupts : SpiController → Bool
interrupts s = bit_and s.spicnt 0x4000 != 0 && bit_and s.spicnt 0x8000 != 0

-- The arms of `write_byte_arm7` for the bytes 0x1C0 to 0x1C3: the controller, and whether the SPI
-- interrupt is raised.
unfoldable pub write_byte : SpiController → ℕ → ℕ → SpiController × Bool
unfolding write_spicnt write_spidata
write_byte s offset val =
    let low = write_spidata s val in
    let high = write_spidata s (bit_or (bit_and s.spidata 0x00FF) (u16 (val << 8))) in
    if offset == 0x1C0
    then (write_spicnt s (bit_or (bit_and s.spicnt 0xFF00) val), false)
    else if offset == 0x1C1
    then (write_spicnt s (bit_or (bit_and s.spicnt 0x00FF) (u16 (val << 8))), false)
    else if offset == 0x1C2
    then (low, interrupts low)
    else if offset == 0x1C3
    then (high, interrupts high)
    else (s, false)

-- The arms of `write_halfword_arm7`: SPICNT, or else SPIDATA.
unfoldable pub write_halfword : SpiController → Bool → ℕ → SpiController × Bool
unfolding write_spicnt write_spidata
write_halfword s true val = (write_spicnt s val, false)
write_halfword s false val = (write_spidata s val, interrupts (write_spidata s val))

-- The arms of `read_byte_arm7`.
unfoldable pub read_byte : SpiController → ℕ → ℕ
read_byte s offset =
    if offset == 0x1C0
    then s.spicnt % 256
    else if offset == 0x1C1
    then s.spicnt >> 8
    else if offset == 0x1C2
    then s.spidata % 256
    else s.spidata >> 8
