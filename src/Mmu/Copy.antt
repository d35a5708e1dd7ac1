-- ===== src/Mmu/Copy.antt =====
-- core/memory_protector/mmu: a page table and all pages it maps are copied from the memory of the
-- hypervisor (page_table.rs, mod.rs). What a failed copy of a page wrote is not kept, as it lies in a page
-- whose token is lost.
pub mod EntryShape
pub mod Shape
pub mod Walk
use ace_riscv.Base.{
  ℕ, zero, suc, ◌*◌, not, if◌then◌else◌, Option, none, some, List, [], ◌∷◌, get_elem?, Outcome, ok,
  err, panic, ◌>>=◌, ok_or, page_table_corrupted, unsupported_paging_mode,
}
use ace_riscv.Memory.PageSize.{size_4KiB, in_bytes}
use ace_riscv.Memory.Layout.{
  MemoryLayout, non_confidential_address, non_confidential_address_at_offset,
}
use ace_riscv.Memory.Page.{Page, allocated, unallocated, Memory, read}
use ace_riscv.Memory.Page
use ace_riscv.Allocator.{Pages}
use ace_riscv.Allocator.Acquire.{acquire_continous_pages}
use ace_riscv.Riscv.Protection.{hgatp_mode, hgatp_address}
use ace_riscv.Mmu.Entry.{is_valid, is_leaf, decode_address, decode_configuration, decode_permission}
use ace_riscv.Mmu.Paging.{
  PagingSystem, sv57x4, PageTableLevel, level1, level2, level3, level4, level5, levels,
  configuration_pages, entries, entry_size as bytes_of_entry, page_size,
}
use ace_riscv.Mmu.TableMemory.{PageTableMemory, Heap, resolve_index, set_raw_entry, drop_pages}
use ace_riscv.Mmu.Table.{
  PageTable, PageTableEntry, Entries, page_table, pointer, leaf, not_valid, nil, cons, encode,
}
use ace_riscv.Mmu.Drop.{drop_collected}
use ace_riscv.Mmu.Protector.{RootPageTable, ConfidentialVmMemoryProtector}
use ace_riscv.Mmu.TableCopy.{entry, copy_table_memory}

-- A copier of the tables of one level: from their address in the hypervisor's memory.
abbrev pub Copier : Type 0
Copier = ℕ → Heap → Outcome (Outcome PageTable × Heap)

module _ (l : MemoryLayout) (s : PagingSystem) where
  -- The page of a leaf, once its token is acquired.
  unfoldable pub fill_leaf : ℕ → ℕ → Outcome Pages → Heap → Outcome (Outcome PageTableEntry × Heap)
  fill_leaf raw address (ok []) h = panic
  fill_leaf raw address (ok (p ∷ ps)) h =
      elim (Page.copy_from_non_confidential_memory l p address h.memory) [
        | ok (page, memory) ↦ ok (
          ok (leaf page (decode_configuration raw) (decode_permission raw)),
          record h { memory = memory },
        )
        | err e ↦ ok (err page_table_corrupted, h)
        | panic ↦ panic
      ]
  fill_leaf raw address (err e) h = ok (err e, h)
  fill_leaf raw address panic h = panic

  unfoldable pub acquire_leaf :
      PageTableLevel → ℕ → ℕ → Heap → Outcome (Outcome PageTableEntry × Heap)
  unfolding acquire_continous_pages fill_leaf page_size
  acquire_leaf level raw address h = do
    (acquired, allocator) ← acquire_continous_pages l h.allocator 1 (page_size s level)
    fill_leaf raw address acquired (record h { allocator = allocator })

  unfoldable pub copy_leaf : PageTableLevel → ℕ → Heap → Outcome (Outcome PageTableEntry × Heap)
  unfolding non_confidential_address decode_address acquire_leaf
  copy_leaf level raw h = elim (non_confidential_address l (decode_address raw)) [
    | ok address ↦ acquire_leaf level raw address h
    | err e ↦ ok (err e, h)
    | panic ↦ panic
  ]

  unfoldable pub point_to : ℕ → Outcome PageTable → Heap → Outcome (Outcome PageTableEntry × Heap)
  point_to raw (ok t) h = ok (ok (pointer t (decode_configuration raw)), h)
  point_to raw (err e) h = ok (err e, h)
  point_to raw panic h = panic

  unfoldable pub copy_pointed : Copier → ℕ → ℕ → Heap → Outcome (Outcome PageTableEntry × Heap)
  unfolding point_to
  copy_pointed copy raw address h = do (copied, h') ← copy address h; point_to raw copied h'

  -- An entry that points to a table of the level below, which the last level does not have.
  unfoldable pub copy_pointer : Option Copier → ℕ → Heap → Outcome (Outcome PageTableEntry × Heap)
  unfolding non_confidential_address decode_address copy_pointed
  copy_pointer none raw h = ok (err page_table_corrupted, h)
  copy_pointer (some copy) raw h = elim (non_confidential_address l (decode_address raw)) [
    | ok address ↦ copy_pointed copy raw address h
    | err e ↦ ok (err e, h)
    | panic ↦ panic
  ]

  unfoldable pub copy_entry :
      Option Copier → PageTableLevel → ℕ → Heap → Outcome (Outcome PageTableEntry × Heap)
  unfolding is_valid is_leaf copy_leaf copy_pointer
  copy_entry below level raw h =
      if not (is_valid raw)
      then ok (ok not_valid, h)
      else if is_leaf raw
      then copy_leaf level raw h
      else copy_pointer below raw h

  -- `PageTableMemory::entry(index).unwrap()` and its copy.
  unfoldable pub copy_read_entry :
      Option Copier → PageTableLevel → Option ℕ → Heap → Outcome (Outcome PageTableEntry × Heap)
  unfolding copy_entry
  copy_read_entry below level none h = panic
  copy_read_entry below level (some raw) h = copy_entry below level raw h

  -- The copy is written back into the memory of the table.
  unfoldable pub store_copied : PageTableMemory → ℕ → PageTableEntry → Heap → Outcome Heap
  unfolding encode set_raw_entry
  store_copied m index e h = do
    value ← encode e
    memory ← set_raw_entry m index value h.memory
    ok (record h { memory = memory })

  -- The entries from `index` on, `n` of them, up to the first that is not copied.
  unfoldable pub copy_entries :
      Option Copier
      → PageTableLevel
      → PageTableMemory
      → ℕ
      → ℕ
      → Heap
      → Outcome (Outcome (Unit {0}) × Entries × Heap)
  unfolding entry copy_read_entry store_copied
  copy_entries below level m zero index h = ok (ok tt, nil, h)
  copy_entries below level m (suc n) index h = do
    read ← entry m index h.memory
    (copied, h') ← copy_read_entry below level read h
    elim copied [
      | err e ↦ ok (err e, nil, h')
      | panic ↦ panic
      | ok e ↦ do
        h'' ← store_copied m index e h'
        (r, es, h3) ← copy_entries below level m n (suc index) h''
        ok (r, cons e es, h3)
    ]

  -- The end of the copy of a table: its entries so far are dropped where one of them is not copied.
  unfoldable pub finish_table :
      PageTableLevel
      → PageTableMemory
      → Outcome (Unit {0})
      → Entries
      → Heap
      → Outcome (Outcome PageTable × Heap)
  unfolding drop_collected drop_pages
  finish_table level m (ok _) es h = ok (ok (page_table level m es), h)
  finish_table level m panic es h = panic
  finish_table level m (err e) es h = do
    h' ← drop_collected es h
    h'' ← drop_pages m.pages h'
    ok (err e, h'')

  unfoldable pub fill_table :
      Option Copier
      → PageTableLevel
      → Outcome PageTableMemory
      → Heap
      → Outcome (Outcome PageTable × Heap)
  unfolding copy_entries finish_table
  fill_table below level (err e) h = ok (err e, h)
  fill_table below level panic h = panic
  fill_table below level (ok m) h = do
    (r, es, h') ← copy_entries below level m m.number_of_entries 0 h
    finish_table level m r es h'

  -- The tables of one level, given the copier of the level below.
  unfoldable pub copy_table : Option Copier → PageTableLevel → Copier
  unfolding copy_table_memory fill_table
  copy_table below level address h = do
    (memory_copied, h') ← copy_table_memory l s level address h
    fill_table below level memory_copied h'

-- The number of levels below a level, and the level with so many below it.
unfoldable pub depth : PageTableLevel → ℕ
depth level1 = 0
depth level2 = 1
depth level3 = 2
depth level4 = 3
depth level5 = 4

abbrev level_at : ℕ → PageTableLevel
level_at zero = level1
level_at (suc zero) = level2
level_at (suc (suc zero)) = level3
level_at (suc (suc (suc zero))) = level4
level_at (suc (suc (suc (suc n)))) = level5

unfoldable pub copier : MemoryLayout → PagingSystem → ℕ → Copier
unfolding copy_table
copier l s zero = copy_table l s none level1
copier l s (suc n) = copy_table l s (some (copier l s n)) (level_at (suc n))

-- `PageTable::copy_from_non_confidential_memory`. The source recurses on the level.
unfoldable pub copy_from_non_confidential_memory :
    MemoryLayout → PagingSystem → PageTableLevel → Copier
unfolding depth copier
copy_from_non_confidential_memory l s level = copier l s (depth level)

-- `RootPageTable::copy_from_non_confidential_memory`
unfoldable pub copy_root :
    MemoryLayout → PagingSystem → ℕ → Heap → Outcome (Outcome RootPageTable × Heap)
unfolding levels copy_from_non_confidential_memory
copy_root l s address h = do
  (copied, h') ← copy_from_non_confidential_memory l s (levels s) address h
  elim copied [
    | ok t ↦ ok (ok (record { paging_system = s; page_table = t }), h')
    | err e ↦ ok (err e, h')
    | panic ↦ panic
  ]

-- `PagingSystem::from` knows each mode that `Hgatp::mode` returns. The address of the root table.
unfoldable pub root_of_hgatp : MemoryLayout → ℕ → Outcome (PagingSystem × ℕ)
unfolding hgatp_mode hgatp_address non_confidential_address
root_of_hgatp l hgatp = do
  mode ← ok_or (hgatp_mode hgatp) unsupported_paging_mode
  address ← non_confidential_address l (hgatp_address hgatp)
  ok (sv57x4, address)

-- `copy_mmu_configuration_from_non_confidential_memory`
unfoldable pub copy_mmu_configuration_from_non_confidential_memory :
    MemoryLayout → ℕ → Heap → Outcome (Outcome RootPageTable × Heap)
unfolding root_of_hgatp copy_root
copy_mmu_configuration_from_non_confidential_memory l hgatp h = elim (root_of_hgatp l hgatp) [
  | ok (s, address) ↦ copy_root l s address h
  | err e ↦ ok (err e, h)
  | panic ↦ panic
]

-- `ConfidentialVmMemoryProtector::from_vm_state`, for the saved hgatp.
unfoldable pub from_vm_state :
    MemoryLayout → ℕ → Heap → Outcome (Outcome ConfidentialVmMemoryProtector × Heap)
unfolding copy_mmu_configuration_from_non_confidential_memory
from_vm_state l hgatp h = do
  (copied, h') ← copy_mmu_configuration_from_non_confidential_memory l hgatp h
  elim copied [
    | ok root ↦ ok (ok (record { root_page_table = root; hgatp = 0 }), h')
    | err e ↦ ok (err e, h')
    | panic ↦ panic
  ]
