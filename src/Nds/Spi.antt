-- ===== src/Nds/Spi.antt =====
-- core/src/nds/spi.rs: the SPI bus of the ARM7, with the power management chip, the firmware flash
-- and the touch screen on it.
pub mod Tsc
pub mod Pmic
pub mod Firmware
pub mod Controller
pub mod Conversion
pub mod Bus
pub mod Calibration
pub mod Frames
pub mod Flash
pub mod Readback
pub mod Driver
pub mod Window
pub mod Valid
pub mod Runs
pub mod Snapshots
pub mod Restore
mod Tests
