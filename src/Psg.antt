-- ===== src/Psg.antt =====
-- core/src/psg.rs: the four programmable sound channels that all three consoles share.
pub mod Units
pub mod Square1
pub mod Square2
pub mod Wave
pub mod Noise
pub mod Frame
pub mod Phase
pub mod Chunks
pub mod Lfsr
pub mod Ranges
pub mod Valid
pub mod Notes
pub mod NoiseChunks
mod Tests
