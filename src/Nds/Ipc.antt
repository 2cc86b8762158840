-- ===== src/Nds/Ipc.antt =====
-- core/src/nds/mmu.rs: the registers through which the two cores of the Nintendo DS talk: IPCSYNC and
-- the FIFOs.
pub mod State
pub mod Sync
pub mod Control
pub mod Probes
pub mod Fifo
pub mod Channel
pub mod Flags
pub mod Sends
pub mod Receives
pub mod Configures
pub mod Runs
pub mod Moves
pub mod Order
mod Tests
