-- ===== src/Gbc.antt =====
-- The Game Boy Color: the cartridge clock and bank controller, the memory map, and the processor.
pub mod Rtc
pub mod Mbc3
pub mod Mmu
pub mod Cpu
