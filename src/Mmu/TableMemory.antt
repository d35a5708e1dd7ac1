-- ===== src/Mmu/TableMemory.antt =====
-- core/memory_protector/mmu/page_table_memory.rs: the pages that hold the raw entries of a table.
use ace_riscv.Base.{
  ℕ, ◌*◌, ◌/◌, ◌%◌, ltb, ◌==◌, if◌then◌else◌, Option, none, some, List, [], ◌∷◌, get_elem?, Outcome,
  ok, err, panic, ◌>>=◌,
}
use ace_riscv.Memory.PageSize.{size_4KiB, in_bytes}
use ace_riscv.Memory.Layout.{MemoryLayout}
use ace_riscv.Memory.Page.{Page, allocated, Memory, write, start_address, zeroize, deallocate}
use ace_riscv.Allocator.{PageAllocator, Pages}
use ace_riscv.Allocator.Acquire.{acquire_continous_pages, release_page}
use ace_riscv.Mmu.Paging.{
  PagingSystem, PageTableLevel, configuration_pages, entries, entry_size as bytes_of_entry,
}

-- The memory and the static PAGE_ALLOCATOR, which the operations on tables change.
pub record Heap : Type 0 where
  pub memory : Memory
  pub allocator : PageAllocator

pub record PageTableMemory : Type 0 where
  pub pages : List (Page allocated)
  pub number_of_entries : ℕ
  pub entry_size : ℕ

-- `self.pages[0].start_address()`
unfoldable pub start_address_of : PageTableMemory → Outcome ℕ
unfolding start_address
start_address_of m = elim m.pages [ [] ↦ panic | page ∷ _ ↦ ok (start_address page) ]

unfoldable pub resolve_index : PageTableMemory → ℕ → Option (ℕ × ℕ)
resolve_index m index =
    let entries_per_page = in_bytes size_4KiB / m.entry_size in
    if ltb index m.number_of_entries
    then some (index / entries_per_page, index % entries_per_page)
    else none

-- `set_entry` with the encoded entry; the result of the write is dropped.
unfoldable pub set_raw_entry : PageTableMemory → ℕ → ℕ → Memory → Outcome Memory
unfolding resolve_index write
set_raw_entry m index value memory =
    if value == 0 then ok memory else elim (resolve_index m index) [
      | none ↦ ok memory
      | some (page_id, index_in_page) ↦ elim (get_elem? m.pages page_id) [
        | none ↦ ok memory
        | some page ↦ elim (write page (m.entry_size * index_in_page) value memory) [
          | ok memory' ↦ ok memory'
          | err e ↦ ok memory
          | panic ↦ panic
        ]
      ]
    ]

unfoldable pub zeroize_pages : Pages → Memory → Outcome (List (Page allocated) × Memory)
zeroize_pages [] memory = ok ([], memory)
zeroize_pages (p ∷ ps) memory = do
  (page, memory') ← zeroize p memory
  (pages, memory'') ← zeroize_pages ps memory'
  ok (page ∷ pages, memory'')

-- `PageTableMemory::empty`
unfoldable pub empty :
    MemoryLayout → PagingSystem → PageTableLevel → Heap → Outcome (Outcome PageTableMemory × Heap)
unfolding acquire_continous_pages
empty l s level h = do
  (acquired, allocator) ←
      acquire_continous_pages l h.allocator (configuration_pages s level) size_4KiB
  elim acquired [
    | ok unallocated_pages ↦ do
      (pages, memory) ← zeroize_pages unallocated_pages h.memory
      ok (
        ok (record {
          pages = pages;
          number_of_entries = entries s level;
          entry_size = bytes_of_entry s;
        }),
        record { memory = memory; allocator = allocator },
      )
    | err e ↦ ok (err e, record { memory = h.memory; allocator = allocator })
    | panic ↦ panic
  ]

-- `page.deallocate()` and `PageAllocator::release_page`
unfoldable pub release_allocated : Page allocated → Heap → Outcome Heap
unfolding release_page
release_allocated p h = do
  (page, memory) ← deallocate p h.memory
  ok (record { memory = memory; allocator = release_page h.allocator page })

-- `PageTableMemory::drop`
unfoldable pub drop_pages : List (Page allocated) → Heap → Outcome Heap
drop_pages [] h = ok h
drop_pages (p ∷ ps) h = do h' ← release_allocated p h; drop_pages ps h'
