-- ===== src/Memory.antt =====
-- core/memory_layout, core/page_allocator/page.rs, core/memory_protector/mmu/page_size.rs and the
-- crate pointers_utility: addresses, the split of physical memory, and page tokens.
pub mod Pointer
pub mod Layout
pub mod PageSize
pub mod Page
mod Tests
