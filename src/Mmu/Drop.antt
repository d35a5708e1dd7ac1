-- ===== src/Mmu/Drop.antt =====
-- core/memory_protector/mmu/page_table.rs: what happens to the pages of a page table that is dropped.
pub mod Erasure
use ace_riscv.Base.{Outcome, ok, ◌>>=◌}
use ace_riscv.Mmu.TableMemory.{Heap, release_allocated, drop_pages}
use ace_riscv.Mmu.Table.{
  PageTable, PageTableEntry, Entries, page_table, pointer, leaf, shared, not_valid, nil, cons,
}

-- `PageTable::drop`, then the `drop` of the memory of the table. The tables that the entries point to
-- are dropped with their entries.
unfoldable mutual
  pub drop_table : PageTable → Heap → Outcome Heap
  drop_table (page_table level m es) h = do h' ← drop_entries es h; drop_pages m.pages h'

  pub drop_entries : Entries → Heap → Outcome Heap
  drop_entries nil h = ok h
  drop_entries (cons e es) h = do h' ← drop_entry e h; drop_entries es h'

  pub drop_entry : PageTableEntry → Heap → Outcome Heap
  drop_entry (pointer t c) h = drop_table t h
  drop_entry (leaf page c p) h = release_allocated page h
  drop_entry (shared page c p) h = ok h
  drop_entry not_valid h = ok h

-- The drop of entries that are not part of a table yet: `Page` has no `drop`, so only the tables that
-- the entries point to give pages back.
unfoldable pub drop_collected : Entries → Heap → Outcome Heap
unfolding drop_table
drop_collected nil h = ok h
drop_collected (cons (pointer t c) es) h = do h' ← drop_table t h; drop_collected es h'
drop_collected (cons (leaf page c p) es) h = drop_collected es h
drop_collected (cons (shared page c p) es) h = drop_collected es h
drop_collected (cons not_valid es) h = drop_collected es h
