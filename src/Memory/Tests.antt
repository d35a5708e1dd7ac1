-- ===== src/Memory/Tests.antt =====
-- core/memory_layout and core/page_allocator/page.rs: runs on a small memory.
use ace_riscv.Base.{ℕ, ◌+◌, ◌-◌, ◌≤◌, ◌<◌, ◌≡◌, refl, if◌then◌else◌, ok, arith}
use ace_riscv.Memory.PageSize.{size_4KiB, size_2MiB, in_bytes}
use ace_riscv.Memory.Layout.{
  MemoryLayout, init_layout, non_confidential_address, non_confidential_address_at_offset,
  confidential_address_at_offset_bounded,
}
use ace_riscv.Memory.Layout.Laws.{IsLayout, init_layout-IsLayout}
use ace_riscv.Memory.Page.{
  Page, unallocated, allocated, Memory, init, zeroize, deallocate,
  copy_from_non_confidential_memory, divide,
}
use ace_riscv.Memory.Page.Content.{
  is_word_of, deallocate-zero, copy_from_non_confidential_memory-copies,
}
use ace_riscv.Memory.Page.Ownership.{owns, covers, pieces, divide-owns, divide-pieces}

abbrev layout : MemoryLayout
layout = record {
  non_confidential_memory_start = 0x1000;
  non_confidential_memory_end = 0x8000;
  confidential_memory_start = 0x9000;
  confidential_memory_end = 0x60_0000;
}

init_small : init_layout 0x1000 0x8000 0x8008 0x60_0123 ≡ ok layout
unfolding init_layout ace_riscv.Memory.Pointer.ptr_align ace_riscv.Memory.Layout.aligned_end
init_small = refl

init_layout-IsLayout_example :
    IsLayout layout
    × (0x8008 ≤ 0x9000)
    × (0x60_0000 ≤ 0x60_0123)
    × (0x9000 < 0x8008 + 4096)
    × (0x60_0123 < 0x60_0000 + 4096)
init_layout-IsLayout_example =
    init_layout-IsLayout 0x1000 0x8000 0x8008 0x60_0123 refl (omega arith) init_small

abbrev memory : Memory
memory a = a

abbrev dirty_page : Page allocated
dirty_page = init 0xa000 size_4KiB

abbrev fresh_page : Page unallocated
fresh_page = init 0xa000 size_4KiB

deallocate-zero_example :
    (q : Page unallocated) × (m : Memory) × (deallocate dirty_page memory ≡ ok (q, m))
    × (q.address ≡ 0xa000)
    × (q.size ≡ size_4KiB)
    × ((a : ℕ) → m a ≡ (if is_word_of dirty_page a then 0 else memory a))
unfolding in_bytes
deallocate-zero_example = deallocate-zero dirty_page memory (omega arith)

copy_from_non_confidential_memory-copies_example :
    (q : Page allocated) × (m : Memory) × (copy_from_non_confidential_memory layout fresh_page
        0x3000 memory
      ≡ ok (q, m))
    × (q.address ≡ 0xa000)
    × (q.size ≡ size_4KiB)
    × ((a : ℕ) → m a ≡ (if is_word_of fresh_page a then memory (a - 0xa000 + 0x3000) else memory a))
unfolding in_bytes
copy_from_non_confidential_memory-copies_example =
    copy_from_non_confidential_memory-copies layout fresh_page 0x3000 memory (omega arith)
      (omega arith) (omega arith)

abbrev big_page : Page unallocated
big_page = init 0x20_0000 size_2MiB

divide_big : divide layout big_page ≡ ok (pieces 512 0x20_0000 size_4KiB)
unfolding in_bytes ace_riscv.Memory.Page.smaller_or_same
divide_big = divide-pieces layout big_page (omega arith) (omega arith)

divide-owns_example : owns (pieces 512 0x20_0000 size_4KiB) 0x20_1234 ≡ covers big_page 0x20_1234
unfolding in_bytes
divide-owns_example = divide-owns layout big_page 0x20_1234 (omega arith) (omega arith) divide_big
