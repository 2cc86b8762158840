-- ===== src/Gbc/Cpu.antt =====
-- core/src/gbc/cpu.rs: `Cpu`, the LR35902 processor of the Game Boy Color. `u8`, `u16` and `u32`
-- arithmetic wraps, as in a release build; an illegal opcode costs four cycles, as it does there.
pub mod Registers
pub mod Alu
pub mod State
pub mod Operands
pub mod Actions
pub mod Cb
pub mod Opcodes
pub mod Timers
pub mod Step
pub mod Decode
pub mod Flags
pub mod Arithmetic
pub mod Chains
pub mod Decimal
pub mod Stack
pub mod Interrupts
pub mod StackPointer
pub mod Stopped
mod Tests
