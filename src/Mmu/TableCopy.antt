-- ===== src/Mmu/TableCopy.antt =====
-- core/memory_protector/mmu/page_table_memory.rs: the pages of a page table are copied from the memory
-- of the hypervisor, and read. What a failed copy of a page wrote is not kept, as it lies in a page whose
-- token is lost.
use ace_riscv.Base.{
  ℕ, suc, ◌*◌, Option, none, some, List, [], ◌∷◌, get_elem?, Outcome, ok, err, panic, ◌>>=◌,
}
use ace_riscv.Memory.PageSize.{size_4KiB, in_bytes}
use ace_riscv.Memory.Layout.{MemoryLayout, non_confidential_address_at_offset}
use ace_riscv.Memory.Page.{Page, allocated, unallocated, Memory, read}
use ace_riscv.Memory.Page
use ace_riscv.Allocator.{Pages}
use ace_riscv.Allocator.Acquire.{acquire_continous_pages}
use ace_riscv.Mmu.Paging.{
  PagingSystem, PageTableLevel, configuration_pages, entries, entry_size as bytes_of_entry,
}
use ace_riscv.Mmu.TableMemory.{PageTableMemory, Heap, resolve_index}

-- `PageTableMemory::entry`
unfoldable pub entry : PageTableMemory → ℕ → Memory → Outcome (Option ℕ)
unfolding resolve_index read
entry m index memory = elim (resolve_index m index) [
  | none ↦ ok none
  | some (page_id, index_in_page) ↦ elim (get_elem? m.pages page_id) [
    | none ↦ ok none
    | some page ↦ elim (read page (m.entry_size * index_in_page) memory) [
      | ok value ↦ ok (some value)
      | err e ↦ ok none
      | panic ↦ panic
    ]
  ]
]

module _ (l : MemoryLayout) (s : PagingSystem) where
  -- The pages of one table, from the `i`-th on.
  unfoldable pub copy_pages :
      ℕ → ℕ → Pages → Memory → Outcome (Outcome (List (Page allocated)) × Memory)
  copy_pages i address [] memory = ok (ok [], memory)
  copy_pages i address (p ∷ ps) memory =
      elim (non_confidential_address_at_offset l address (i * in_bytes p.size) >>= λ page_address.
      Page.copy_from_non_confidential_memory l p page_address memory) [
        | err e ↦ ok (err e, memory)
        | panic ↦ panic
        | ok (page, memory') ↦ do
          (rest, memory'') ← copy_pages (suc i) address ps memory'
          elim rest [
            | ok pages ↦ ok (ok (page ∷ pages), memory'')
            | err e ↦ ok (err e, memory'')
            | panic ↦ panic
          ]
      ]

  -- `PageTableMemory::copy_from_non_confidential_memory`
  unfoldable pub copy_table_memory :
      PageTableLevel → ℕ → Heap → Outcome (Outcome PageTableMemory × Heap)
  unfolding acquire_continous_pages copy_pages
  copy_table_memory level address h = do
    (acquired, allocator) ←
        acquire_continous_pages l h.allocator (configuration_pages s level) size_4KiB
    elim acquired [
      | err e ↦ ok (err e, record h { allocator = allocator })
      | panic ↦ panic
      | ok unallocated_pages ↦ do
        (copied, memory) ← copy_pages 0 address unallocated_pages h.memory
        let h' : Heap = record { memory = memory; allocator = allocator }
        elim copied [
          | err e ↦ ok (err e, h')
          | panic ↦ panic
          | ok pages ↦ ok (
            ok (record {
              pages = pages;
              number_of_entries = entries s level;
              entry_size = bytes_of_entry s;
            }),
            h',
          )
        ]
    ]
