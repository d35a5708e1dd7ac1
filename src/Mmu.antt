-- ===== src/Mmu.antt =====
-- core/memory_protector/mmu: page table entries, the paging system and the page tables.
pub mod Entry
pub mod Paging
pub mod TableMemory
pub mod Table
pub mod Protector
pub mod Drop
pub mod TableCopy
pub mod Copy
mod Tests
mod CopyTests
