-- ===== src/HeapAllocator.antt =====
-- core/heap_allocator/allocator.rs: the global allocator of the security monitor. The list of free regions
-- is kept in the free memory itself in the source; here it is a list of regions, and the lock around it is
-- not part of the model. A `Layout` of the standard library is a size and an alignment.
pub mod Ownership
pub mod Release
mod Tests
use ace_riscv.Base.{
  ℕ, ◌+◌, ◌-◌, ◌*◌, ◌/◌, ◌%◌, max, Bool, true, false, not, ◌&&◌, ◌||◌, ltb, ◌==◌, if◌then◌else◌,
  Option, none, some, List, [], ◌∷◌, Outcome, ok, err, panic, ◌>>=◌, ◌>>◌, assert, assure,
  add_usize, out_of_memory,
}
use ace_riscv.Memory.Pointer.{ptr_align, ptr_byte_add_mut, ptr_byte_offset, is_negative}

abbrev pub isize_max : ℕ
isize_max = 0x7fff_ffff_ffff_ffff

-- The size and the alignment of the type `FreeMemoryRegion`, which holds a size and a pointer.
abbrev pub size_of_region : ℕ
size_of_region = 16

abbrev pub align_of_region : ℕ
align_of_region = 8

pub record FreeMemoryRegion : Type 0 where
  pub start_address : ℕ
  pub size : ℕ

abbrev pub Regions : Type 0
Regions = List FreeMemoryRegion

pub record Layout : Type 0 where
  pub size : ℕ
  pub align : ℕ

-- `Layout::from_size_align(size, align).unwrap()`, for an alignment that is a power of two.
unfoldable pub layout_of : ℕ → ℕ → Outcome Layout
layout_of size align = do
  assert (not (ltb isize_max (size + (align - 1))))
  ok (record { size = size; align = align })

-- The size that `Layout::pad_to_align` gives.
unfoldable pub padded : ℕ → ℕ → ℕ
padded size align = (size + (align - 1)) / align * align

unfoldable pub align_to : Layout → Outcome (ℕ × ℕ)
unfolding layout_of padded
align_to l = do
  l' ← layout_of l.size (max l.align align_of_region)
  ok (max (padded l'.size l'.align) size_of_region, l'.align)

unfoldable pub end_address : FreeMemoryRegion → Outcome ℕ
end_address r = add_usize r.start_address r.size

-- The comparison `free_space_left >= 16` of an `isize` given by its bit pattern.
abbrev pub is_reusable : ℕ → Bool
is_reusable free_space_left =
    (free_space_left == 0)
    || (not (is_negative free_space_left) && not (ltb free_space_left size_of_region))

-- The start and the end of the allocation, and the space behind it.
unfoldable pub try_allocation : ℕ → ℕ → FreeMemoryRegion → Outcome (ℕ × ℕ × ℕ)
unfolding end_address ptr_align ptr_byte_add_mut ptr_byte_offset
try_allocation size_in_bytes align_in_bytes r = do
  end ← end_address r
  alloc_start ← ptr_align r.start_address align_in_bytes end
  alloc_end ← ptr_byte_add_mut alloc_start size_in_bytes end
  free_space_left ← ptr_byte_offset end alloc_end
  assure (is_reusable free_space_left) out_of_memory
  ok (alloc_start, alloc_end, free_space_left)

-- What the region at the front gives, and the rest of the list where it does not serve.
unfoldable pub find_free_memory_region : ℕ → ℕ → Regions → Outcome (Option (ℕ × ℕ × ℕ) × Regions)
unfolding try_allocation
find_free_memory_region size align [] = ok (none, [])
find_free_memory_region size align (r ∷ rs) = elim (try_allocation size align r) [
  | ok found ↦ ok (some found, rs)
  | panic ↦ panic
  | err e ↦ do (found, rs') ← find_free_memory_region size align rs; ok (found, r ∷ rs')
]

unfoldable pub add_free_memory_region : ℕ → ℕ → Regions → Outcome Regions
add_free_memory_region base_address size rs = do
  assert (ltb size isize_max)
  assert (base_address % align_of_region == 0)
  assert (not (ltb 0 size && ltb size size_of_region))
  ok (record { start_address = base_address; size = size } ∷ rs)

-- The closure of `alloc_dynamic`: the space behind the allocation is free again.
unfoldable pub keep_rest : Option (ℕ × ℕ × ℕ) → Regions → Outcome (Option ℕ × Regions)
unfolding add_free_memory_region
keep_rest none rs = ok (none, rs)
keep_rest (some (alloc_start, alloc_end, free_space_left)) rs = do
  rs' ← add_free_memory_region alloc_end free_space_left rs
  ok (some alloc_start, rs')

unfoldable pub alloc_dynamic : Layout → Regions → Outcome (Option ℕ × Regions)
unfolding align_to find_free_memory_region keep_rest
alloc_dynamic l rs = do
  (size, align) ← align_to l
  (found, rs') ← find_free_memory_region size align rs
  keep_rest found rs'

-- `try_alloc`
unfoldable pub try_alloc : Layout → Regions → Outcome (ℕ × Regions)
unfolding alloc_dynamic
try_alloc l rs = do
  (allocated, rs') ← alloc_dynamic l rs
  elim allocated [ some address ↦ ok (address, rs') | none ↦ panic ]

-- The layout that `alloc` asks for.
unfoldable pub at_least_region : Layout → Outcome Layout
unfolding layout_of
at_least_region l = if ltb l.size size_of_region then layout_of size_of_region l.align else ok l

unfoldable pub alloc : Layout → Regions → Outcome (ℕ × Regions)
unfolding at_least_region try_alloc
alloc l rs = do l' ← at_least_region l; try_alloc l' rs

unfoldable pub dealloc : ℕ → Layout → Regions → Outcome Regions
unfolding align_to add_free_memory_region
dealloc address l rs = do (size, align) ← align_to l; add_free_memory_region address size rs
