-- ===== src/Allocator/Tests.antt =====
-- core/page_allocator/page_allocator.rs: runs on a small confidential memory.
use ace_riscv.Base.{ℕ, ◌≡◌, refl, [], ◌∷◌, ok, arith}
use ace_riscv.Memory.PageSize.{size_4KiB, size_2MiB, size_1GiB, size_512GiB, size_128TiB, in_bytes}
use ace_riscv.Memory.Layout.{MemoryLayout}
use ace_riscv.Memory.Page.{Page, unallocated, init}
use ace_riscv.Allocator.{PageAllocator, Pages, empty, add_memory_region, get}
use ace_riscv.Allocator.Acquire.{acquire, acquire_continous_pages_of_given_size, release_pages}
use ace_riscv.Allocator.Tokens.{IsAllocator, free, empty-IsAllocator}
use ace_riscv.Allocator.Region.{Tiles, add_memory_region-Tiles}
use ace_riscv.Allocator.Conservation.{Moves}
use ace_riscv.Allocator.Acquiring.{IsAnswer, acquire-Moves, release-acquire}

abbrev layout : MemoryLayout
layout = record {
  non_confidential_memory_start = 0x1000;
  non_confidential_memory_end = 0x8000;
  confidential_memory_start = 0x9000;
  confidential_memory_end = 0x30_0000;
}

add_memory_region-Tiles_example :
    (a : PageAllocator) × (e : ℕ) × (add_memory_region layout empty 0x9000 0x30_0000 ≡ ok a)
    × Tiles layout empty a 0x9000 e
add_memory_region-Tiles_example =
    add_memory_region-Tiles layout empty 0x9000 0x30_0000 refl (omega arith) refl refl (omega arith)
      (empty-IsAllocator layout)

abbrev token : ℕ → Page unallocated
token address = init address size_4KiB

-- Three free pages, one after the other.
abbrev three : PageAllocator
three = record empty { pages_4KiB = token 0x10000 ∷ token 0x11000 ∷ token 0x12000 ∷ [] }

three-IsAllocator : IsAllocator layout three
unfolding get in_bytes empty
three-IsAllocator size_4KiB = (
  record { of_size = refl; aligned = refl; inside = omega arith },
  (
    record { of_size = refl; aligned = refl; inside = omega arith },
    (record { of_size = refl; aligned = refl; inside = omega arith }, tt),
  ),
)
three-IsAllocator size_2MiB = tt
three-IsAllocator size_1GiB = tt
three-IsAllocator size_512GiB = tt
three-IsAllocator size_128TiB = tt

acquire-Moves_example :
    (pages : Pages) × (a : PageAllocator) × (acquire layout three 2 size_4KiB ≡ ok (pages, a))
    × IsAnswer 2 size_4KiB pages
    × Moves layout size_4KiB three a pages
acquire-Moves_example =
    acquire-Moves layout (omega arith) three 2 size_4KiB (omega arith) three-IsAllocator

abbrev two_pages : Pages
two_pages = token 0x10000 ∷ token 0x11000 ∷ []

abbrev one_left : PageAllocator
one_left = record empty { pages_4KiB = token 0x12000 ∷ [] }

acquire_two : acquire layout three 2 size_4KiB ≡ ok (two_pages, one_left)
unfolding acquire acquire_continous_pages_of_given_size get
    ace_riscv.Allocator.Acquire.find_allocation
    ace_riscv.Allocator.Acquire.is_memory_region_continous in_bytes ace_riscv.Allocator.put
acquire_two = refl

release-acquire_example :
    (pages : Pages) × (a : PageAllocator) × (acquire layout three 2 size_4KiB ≡ ok (pages, a))
    × IsAllocator layout (release_pages a pages)
    × ((x : ℕ) → free (release_pages a pages) x ≡ free three x)
release-acquire_example =
    release-acquire layout three 2 size_4KiB (omega arith) (omega arith) three-IsAllocator
