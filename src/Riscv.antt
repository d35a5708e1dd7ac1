-- ===== src/Riscv.antt =====
-- core/architecture/riscv: registers, the state of a hart, what a trap says, and memory protection.
pub mod Words
pub mod Registers
pub mod Csr
pub mod HartState
pub mod Sbi
pub mod CompressedInstructions
pub mod Protection
pub mod Pmp
mod Tests
