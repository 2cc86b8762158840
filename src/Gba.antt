-- ===== src/Gba.antt =====
-- The Game Boy Advance: the flash save chip of the cartridge, the DMA channels and the timers.
pub mod Flash
pub mod Dma
pub mod Timers
