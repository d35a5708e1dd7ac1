-- ===== src/Mmu/Table/Walk.antt =====
-- core/memory_protector/mmu/page_table.rs: walks of a page table before and after a mapping.
use ace_riscv.Base.{ℕ, zero, suc, ◌+◌, ◌^◌, ◌≡◌, ◌≢◌, refl, Outcome, ok, arith}
use ace_riscv.Memory.Layout.{MemoryLayout}
use ace_riscv.Mmu.Paging.{PagingSystem, PageTableLevel, vpn, vpn_ignores_top_bit}
use ace_riscv.Mmu.TableMemory.{PageTableMemory, Heap}
use ace_riscv.Mmu.Table.{
  SharedPage, PageTable, PageTableEntry, Entries, page_table, pointer, leaf, shared, not_valid, nil,
  cons, translate, translate_at, translate_entry, set_entry, missing_entry, create_table,
}

mutual
  unfolding translate translate_at translate_entry

  walk_ignores_top_bit :
      (s : PagingSystem) (a : ℕ) (t : PageTable) → translate s (a + 2 ^ 58) t ≡ translate s a t
  walk_ignores_top_bit s a (page_table level m es) =
      rw (vpn_ignores_top_bit s a level) (walk_at_ignores_top_bit s a (vpn s a level) es)

  walk_at_ignores_top_bit :
      (s : PagingSystem) (a i : ℕ) (es : Entries)
      → translate_at s (a + 2 ^ 58) i es ≡ translate_at s a i es
  walk_at_ignores_top_bit s a i nil = refl
  walk_at_ignores_top_bit s a zero (cons e es) = walk_entry_ignores_top_bit s a e
  walk_at_ignores_top_bit s a (suc i) (cons e es) = walk_at_ignores_top_bit s a i es

  walk_entry_ignores_top_bit :
      (s : PagingSystem) (a : ℕ) (e : PageTableEntry)
      → translate_entry s (a + 2 ^ 58) e ≡ translate_entry s a e
  walk_entry_ignores_top_bit s a (pointer t c) = walk_ignores_top_bit s a t
  walk_entry_ignores_top_bit s a (leaf page c p) = refl
  walk_entry_ignores_top_bit s a (shared page c p) = refl
  walk_entry_ignores_top_bit s a not_valid = refl

-- Adding `2 ^ 58`, the weight of the top bit that selects an entry of the root table, to a guest
-- physical address does not change what it translates to.
pub translate_ignores_top_bit :
    (s : PagingSystem) (a : ℕ) (t : PageTable) → translate s (a + 2 ^ 58) t ≡ translate s a t
translate_ignores_top_bit s a t = walk_ignores_top_bit s a t

-- The new entry is stored where `set_entry` returns.
pub set_entry-stores :
    (m : PageTableMemory) (i : ℕ) (new old : PageTableEntry) (h : Heap) {r : Outcome (Unit {0})}
    {e : PageTableEntry} {h' : Heap}
    → set_entry m i new old h ≡ ok (r, e, h')
    → (r ≡ ok tt) × (e ≡ new)
unfolding set_entry
set_entry-stores m i new old h q = ground arith

pub create_table-fails :
    (l : MemoryLayout) (s : PagingSystem) (page : SharedPage) (level : PageTableLevel)
    (m : PageTableMemory) (i : ℕ) (h : Heap) {r : Outcome (Unit {0})} {e : PageTableEntry}
    {h' : Heap}
    → create_table l s page level m i h ≡ ok (r, e, h')
    → (r ≢ ok tt) × (e ≡ not_valid)
unfolding create_table missing_entry
create_table-fails l s page level m i h q = ground arith
