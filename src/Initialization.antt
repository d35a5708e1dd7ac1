-- ===== src/Initialization.antt =====
-- core/initialization/mod.rs and core/heap_allocator/mod.rs: the start of the security monitor on the
-- boot hart. The statics are set once: here they are the results of the functions that set them. The
-- device tree is what its parser reads from it; a string of it is the list of its bytes.
pub mod Harts
pub mod Setup
pub mod Stacks
pub mod Separation
pub mod Enough
mod Tests
mod SetupTests
use ace_riscv.Base.{
  ℕ, zero, suc, ◌+◌, ◌/◌, ◌%◌, ◌*◌, Bool, true, false, not, ltb, ◌==◌, if◌then◌else◌, ◌||◌, ◌&&◌,
  Option, none, some, List, [], ◌∷◌, length, drop, Outcome, ok, err, panic, ◌>>=◌, ◌>>◌, assert,
  assure, assure_not, map_err, add_usize, mul_usize, usize_mod, init, memory_boundary,
  not_enough_memory, not_supported_hardware, sbi_argument,
}
use ace_riscv.Memory.Pointer.{ptr_byte_add_mut, ptr_byte_offset, is_negative}
use ace_riscv.Memory.Layout.{
  MemoryLayout, init_layout, is_aligned_to, confidential_address_at_offset,
}
use ace_riscv.Memory.PageSize.{in_bytes, smallest}
use ace_riscv.HeapAllocator.{Regions, add_free_memory_region}
use ace_riscv.Allocator.{PageAllocator, initialize}
use ace_riscv.InterruptController

pub record FdtMemoryRegion : Type 0 where
  pub base : ℕ
  pub size : ℕ

abbrev pub Bytes : Type 0
Bytes = List ℕ

-- What is read from the device tree: its memory, and for each hart the property `riscv,isa`.
pub record DeviceTree : Type 0 where
  pub memory : Outcome FdtMemoryRegion
  pub harts : List (Option Bytes)

-- `isa.split('_').next().unwrap_or("")`
unfoldable pub first_part : Bytes → Bytes
first_part [] = []
first_part (c ∷ cs) = let rest = first_part cs in if c == 0x5f then [] else c ∷ rest

unfoldable pub contains : Bytes → ℕ → Bool
contains [] c = false
contains (x ∷ xs) c = (x == c) || contains xs c

-- `isa.starts_with("rv64")`
unfoldable pub starts_with_arch : Bytes → Bool
starts_with_arch (a ∷ b ∷ c ∷ d ∷ _) = (a == 0x72) && (b == 0x76) && (c == 0x36) && (d == 0x34)
starts_with_arch _ = false

-- `hart.property_str("riscv,isa").unwrap_or("")`
abbrev or_empty : Option Bytes → Bytes
or_empty none = []
or_empty (some isa) = isa

-- The body of the loop for one hart: `a` and `h` are the required extensions.
unfoldable pub verify_hart : Option Bytes → Outcome (Unit {0})
unfolding first_part contains starts_with_arch
verify_hart property = do
  let isa = or_empty property
  assert (not (ltb (length (first_part isa)) 4))
  let extensions = drop 4 (first_part isa)
  assure (starts_with_arch isa) not_supported_hardware
  assure (contains extensions 0x61) not_supported_hardware
  assure (contains extensions 0x68) not_supported_hardware

unfoldable pub verify_each : List (Option Bytes) → Outcome (Unit {0})
unfolding verify_hart
verify_each [] = ok tt
verify_each (h ∷ hs) = do verify_hart h; verify_each hs

unfoldable pub verify_harts : DeviceTree → Outcome ℕ
unfolding verify_each
verify_harts fdt = do verify_each fdt.harts; ok (length fdt.harts)

unfoldable pub initialize_memory_layout : DeviceTree → Outcome MemoryLayout
unfolding ptr_byte_add_mut init_layout
initialize_memory_layout fdt = do
  region ← fdt.memory
  memory_size ← add_usize region.size region.size
  let memory_end = (region.base + memory_size) % usize_mod
  non_confidential_memory_end ←
      map_err (ptr_byte_add_mut region.base region.size memory_end) (init memory_boundary)
  init_layout region.base non_confidential_memory_end non_confidential_memory_end memory_end

abbrev pub number_of_heap_pages : ℕ
number_of_heap_pages = 40960

-- `size_of::<Page<UnAllocated>>()`: an address and a page size.
abbrev pub size_of_a_page_token_in_bytes : ℕ
size_of_a_page_token_in_bytes = 16

-- How many pages the heap takes of so many.
unfoldable pub heap_pages : ℕ → Outcome ℕ
unfolding in_bytes smallest
heap_pages number_of_pages = do
  bytes_required ← mul_usize number_of_pages size_of_a_page_token_in_bytes
  add_usize number_of_heap_pages (bytes_required / in_bytes smallest)

unfoldable pub init_heap : ℕ → ℕ → Outcome Regions
unfolding add_free_memory_region
init_heap start_address heap_size = add_free_memory_region start_address heap_size []

-- The heap and the page allocator on the confidential memory from `start` to `end`.
unfoldable pub initalize_security_monitor_state :
    MemoryLayout → ℕ → ℕ → Outcome (Regions × PageAllocator)
unfolding in_bytes smallest ptr_byte_offset heap_pages confidential_address_at_offset init_heap
    initialize
initalize_security_monitor_state l start end = do
  confidential_memory_size ← ptr_byte_offset end start
  assure_not (is_negative confidential_memory_size) sbi_argument
  let number_of_pages = confidential_memory_size / in_bytes smallest
  pages_of_heap ← heap_pages number_of_pages
  assure (ltb pages_of_heap number_of_pages) (init not_enough_memory)
  heap_size_in_bytes ← mul_usize pages_of_heap (in_bytes smallest)
  heap_end_address ← confidential_address_at_offset l start heap_size_in_bytes
  heap ← init_heap start heap_size_in_bytes
  assert (is_aligned_to heap_end_address (in_bytes smallest))
  pages ← initialize l none heap_end_address end
  interrupt_controller ← InterruptController.initialize false
  ok (heap, pages)
