-- ===== src/Mmu/Protector.antt =====
-- core/memory_protector/confidential_vm_memory_protector.rs and `RootPageTable` of page_table.rs: the
-- memory of one confidential VM. The flush of the translation caches is not part of the model.
use ace_riscv.Base.{ℕ, Outcome, panic, ok, ◌>>=◌}
use ace_riscv.Memory.Layout.{MemoryLayout}
use ace_riscv.Riscv.Protection.{hgatp_new}
use ace_riscv.Mmu.Paging.{PagingSystem}
use ace_riscv.Mmu.TableMemory.{Heap}
use ace_riscv.Mmu.Table
use ace_riscv.Mmu.Table.{SharedPage, PageTable}

pub record RootPageTable : Type 0 where
  pub paging_system : PagingSystem
  pub page_table : PageTable

pub record ConfidentialVmMemoryProtector : Type 0 where
  pub root_page_table : RootPageTable
  pub hgatp : ℕ

unfoldable pub set_confidential_vm_id :
    ℕ → ConfidentialVmMemoryProtector → Outcome ConfidentialVmMemoryProtector
set_confidential_vm_id id p = do
  address ← Table.address p.root_page_table.page_table
  ok (record p { hgatp = hgatp_new address id })

unfoldable pub map_shared_page :
    MemoryLayout
    → SharedPage
    → ConfidentialVmMemoryProtector
    → Heap
    → Outcome (Outcome (Unit {0}) × ConfidentialVmMemoryProtector × Heap)
map_shared_page l page p h = do
  let root = p.root_page_table
  (r, table, h') ← Table.map_shared_page l root.paging_system page root.page_table h
  ok (r, record p { root_page_table = record root { page_table = table } }, h')

-- `PageTable::unmap_shared_page` is not implemented.
unfoldable pub unmap_shared_page :
    ℕ
    → ConfidentialVmMemoryProtector
    → Heap
    → Outcome (Outcome (Unit {0}) × ConfidentialVmMemoryProtector × Heap)
unmap_shared_page address p h = panic

unfoldable pub translate : ℕ → ConfidentialVmMemoryProtector → Outcome ℕ
translate address p =
    Table.translate p.root_page_table.paging_system address p.root_page_table.page_table
