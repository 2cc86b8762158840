-- ===== src/Nds.antt =====
-- The Nintendo DS: the save chip of the cartridge, the SPI bus with the firmware settings, the registers
-- between the cores, the timers and the square-root unit.
pub mod Backup
pub mod Settings
pub mod Spi
pub mod Ipc
pub mod Timers
pub mod Sqrt
mod Tests
