-- ===== src/Mmu/Tests.antt =====
-- core/memory_protector/mmu: runs on concrete entries and tables.
use ace_riscv.Base.{
  ℕ, ◌*◌, ◌≡◌, refl, true, [], ◌∷◌, Outcome, ok, err, panic, address_translation_failed, arith,
}
use ace_riscv.Memory.PageSize.{size_4KiB}
use ace_riscv.Memory.Layout.{MemoryLayout}
use ace_riscv.Memory.Page.{Page, allocated, init}
use ace_riscv.Allocator
use ace_riscv.Mmu.Entry.{
  is_valid, decode_address, decode_configuration, decode_permission, encode_leaf,
  shared_page_configuration, shared_page_permission, empty_configuration,
}
use ace_riscv.Mmu.Entry.Coding.{leaf_roundtrip}
use ace_riscv.Mmu.Paging.{PagingSystem, sv57x4, PageTableLevel, level1, level2, vpn, same_entries}
use ace_riscv.Mmu.TableMemory.{PageTableMemory, Heap}
use ace_riscv.Mmu.Table.{
  SharedPage, PageTable, PageTableEntry, Entries, page_table, leaf, not_valid, nil, cons, translate,
  map_shared_page, map_entry,
}
use ace_riscv.Mmu.Table.Mapping.{
  Remapped, Effect, map_shared_page-Effect, map_shared_page-translate,
}

leaf_roundtrip_example :
    (is_valid (encode_leaf (0x80200 * 4096) shared_page_configuration shared_page_permission)
      ≡ true)
    × (decode_address
          (encode_leaf (0x80200 * 4096) shared_page_configuration shared_page_permission)
        ≡ 0x80200 * 4096)
    × (decode_configuration
          (encode_leaf (0x80200 * 4096) shared_page_configuration shared_page_permission)
        ≡ shared_page_configuration)
    × (decode_permission
          (encode_leaf (0x80200 * 4096) shared_page_configuration shared_page_permission)
        ≡ shared_page_permission)
leaf_roundtrip_example =
    leaf_roundtrip 0x80200 shared_page_configuration shared_page_permission (omega arith)

abbrev layout : MemoryLayout
layout = record {
  non_confidential_memory_start = 0x1000;
  non_confidential_memory_end = 0x10000;
  confidential_memory_start = 0x10000;
  confidential_memory_end = 0x40000;
}

abbrev table_memory : PageTableMemory
table_memory = record {
  pages = init 0x20000 size_4KiB ∷ [];
  number_of_entries = 512;
  entry_size = 8;
}

-- A table of the last level whose first entry maps a confidential page.
abbrev table : PageTable
table = page_table level1 table_memory (
    cons (leaf (init 0x30000 size_4KiB) empty_configuration shared_page_permission)
      (cons not_valid nil))

abbrev heap : Heap
heap = record { memory = λ a. 0; allocator = Allocator.empty }

abbrev page : SharedPage
page = record {
  hypervisor_address = 0x8000;
  confidential_vm_virtual_address = 0x1000;
  page_size = size_4KiB;
}

abbrev mapped : PageTable × Heap
mapped = elim (map_shared_page layout sv57x4 page table heap) [
  | ok (r, t, h) ↦ (t, h)
  | err e ↦ (table, heap)
  | panic ↦ (table, heap)
]

map_page : map_shared_page layout sv57x4 page table heap ≡ ok (ok tt, mapped.0, mapped.1)
unfolding map_shared_page vpn ace_riscv.Mmu.Table.is_level1 ace_riscv.Mmu.Table.set_entry
    ace_riscv.Mmu.TableMemory.set_raw_entry encode_leaf ace_riscv.Memory.PageSize.in_bytes
    ace_riscv.Mmu.Table.release_entry
map_page = refl

map_shared_page-Effect_example : Effect (Remapped sv57x4 page) (ok tt) table mapped.0
map_shared_page-Effect_example =
    map_shared_page-Effect layout sv57x4 page table heap (ok tt) mapped.0 mapped.1 map_page

map_shared_page-translate_example :
    (translate sv57x4 0x1000 mapped.0 ≡ err address_translation_failed)
    × ((a x : ℕ) → translate sv57x4 a mapped.0 ≡ ok x → translate sv57x4 a table ≡ ok x)
map_shared_page-translate_example =
    map_shared_page-translate layout sv57x4 page table heap mapped.0 mapped.1 map_page

-- Two free pages.
abbrev free_heap : Heap
free_heap = record {
  memory = λ a. 0;
  allocator = record Allocator.empty {
    pages_4KiB = init 0x30000 size_4KiB ∷ init 0x31000 size_4KiB ∷ [];
  };
}

abbrev failed : Outcome (Unit {0}) × PageTableEntry × Heap
failed = elim (map_entry layout sv57x4 page level2 table_memory 0 not_valid free_heap) [
  | ok r ↦ r
  | err e ↦ (ok tt, not_valid, free_heap)
  | panic ↦ (ok tt, not_valid, free_heap)
]

map_fails :
    map_entry layout sv57x4 page level2 table_memory 0 not_valid free_heap
    ≡ ok (failed.0, failed.1, failed.2)
unfolding map_entry ace_riscv.Mmu.Table.is_level1 ace_riscv.Mmu.Table.create_table
    ace_riscv.Mmu.TableMemory.empty ace_riscv.Allocator.Acquire.acquire
    ace_riscv.Allocator.Acquire.acquire_continous_pages_of_given_size Allocator.get
    ace_riscv.Mmu.Paging.configuration_pages ace_riscv.Memory.PageSize.in_bytes
    ace_riscv.Allocator.Acquire.find_allocation
    ace_riscv.Allocator.Acquire.is_memory_region_continous ace_riscv.Mmu.TableMemory.zeroize_pages
    ace_riscv.Mmu.TableMemory.drop_pages ace_riscv.Memory.Page.zeroize
    ace_riscv.Memory.Page.deallocate ace_riscv.Memory.Page.clear_from ace_riscv.Memory.Page.write
    ace_riscv.Mmu.TableMemory.release_allocated ace_riscv.Memory.Page.clear
map_fails = refl
