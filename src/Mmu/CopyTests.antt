-- ===== src/Mmu/CopyTests.antt =====
-- core/memory_protector/mmu: a page table without entries is copied, and a page table is dropped.
use ace_riscv.Base.{
  ℕ, ◌≡◌, refl, ◌⊎◌, if◌then◌else◌, [], ◌∷◌, Outcome, ok, err, address_translation_failed, arith,
}
use ace_riscv.Memory.PageSize.{size_4KiB}
use ace_riscv.Memory.Layout.{MemoryLayout}
use ace_riscv.Memory.Page.{Page, allocated, unallocated, init}
use ace_riscv.Allocator.{empty}
use ace_riscv.Allocator.Acquire.{release_pages}
use ace_riscv.Mmu.Entry.{shared_page_configuration, shared_page_permission}
use ace_riscv.Mmu.Paging.{sv57x4, level1}
use ace_riscv.Mmu.TableMemory.{Heap}
use ace_riscv.Mmu.Table.{PageTable, page_table, leaf, nil, cons, translate}
use ace_riscv.Mmu.Drop.{drop_table}
use ace_riscv.Mmu.Drop.Erasure.{pages_of, is_word_of_any, tokens, drop_table-erases}
use ace_riscv.Mmu.Copy.{copy_from_non_confidential_memory}
use ace_riscv.Mmu.Copy.EntryShape.{IsTable}
use ace_riscv.Mmu.Copy.Shape.{copy_from_non_confidential_memory-IsTable}
use ace_riscv.Mmu.Copy.Walk.{copy_from_non_confidential_memory-translate}

abbrev layout : MemoryLayout
layout = record {
  non_confidential_memory_start = 0x1000;
  non_confidential_memory_end = 0x10000;
  confidential_memory_start = 0x10000;
  confidential_memory_end = 0x40000;
}

-- Two free pages, and a memory of zeros.
abbrev heap : Heap
heap = record {
  memory = λ a. 0;
  allocator = record empty { pages_4KiB = init 0x10000 size_4KiB ∷ init 0x11000 size_4KiB ∷ [] };
}

abbrev copied : Outcome (Outcome PageTable × Heap)
copied = copy_from_non_confidential_memory layout sv57x4 level1 0x2000 heap

abbrev table_of : Outcome (Outcome PageTable × Heap) → PageTable
table_of (ok (ok t, h)) = t
table_of x = page_table level1 (record { pages = []; number_of_entries = 0; entry_size = 8 }) nil

abbrev heap_of : Outcome (Outcome PageTable × Heap) → Heap
heap_of (ok (r, h)) = h
heap_of x = heap

copies :
    copy_from_non_confidential_memory layout sv57x4 level1 0x2000 heap
    ≡ ok (ok (table_of copied), heap_of copied)
unfolding copy_from_non_confidential_memory ace_riscv.Mmu.Copy.copier ace_riscv.Mmu.Copy.copy_table
    ace_riscv.Mmu.Copy.fill_table ace_riscv.Mmu.Copy.depth ace_riscv.Mmu.TableCopy.copy_table_memory
    ace_riscv.Allocator.Acquire.acquire
    ace_riscv.Allocator.Acquire.acquire_continous_pages_of_given_size ace_riscv.Allocator.get
    ace_riscv.Mmu.Paging.configuration_pages ace_riscv.Memory.PageSize.in_bytes
    ace_riscv.Allocator.Acquire.find_allocation
    ace_riscv.Allocator.Acquire.is_memory_region_continous
    ace_riscv.Memory.Layout.non_confidential_address_at_offset
    ace_riscv.Memory.Page.copy_from_non_confidential_memory ace_riscv.Memory.Page.copy_from
copies = refl

copy_from_non_confidential_memory-IsTable_example : IsTable sv57x4 level1 (table_of copied)
copy_from_non_confidential_memory-IsTable_example =
    copy_from_non_confidential_memory-IsTable layout sv57x4 level1 0x2000 heap (heap_of copied)
      (table_of copied) copies

copy_from_non_confidential_memory-translate_example :
    ((b : ℕ) × (translate sv57x4 0x5000 (table_of copied) ≡ ok b))
    ⊎ (translate sv57x4 0x5000 (table_of copied) ≡ err address_translation_failed)
copy_from_non_confidential_memory-translate_example =
    copy_from_non_confidential_memory-translate layout sv57x4 level1 0x2000 heap (heap_of copied)
      (table_of copied) copies 0x5000

-- A table in one page that maps one page.
abbrev mapping : PageTable
mapping =
    page_table level1
      (record { pages = init 0x10000 size_4KiB ∷ []; number_of_entries = 1; entry_size = 8 })
      (cons (leaf (init 0x11000 size_4KiB) shared_page_configuration shared_page_permission) nil)

drop_table-erases_example :
    (h' : Heap) × (drop_table mapping heap ≡ ok h')
    × ((a : ℕ) → h'.memory a ≡ (if is_word_of_any (pages_of mapping) a then 0 else heap.memory a))
    × (h'.allocator ≡ release_pages heap.allocator (tokens (pages_of mapping)))
unfolding pages_of ace_riscv.Memory.PageSize.in_bytes
drop_table-erases_example = drop_table-erases mapping heap (omega arith, (omega arith, tt))
