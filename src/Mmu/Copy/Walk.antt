-- ===== src/Mmu/Copy/Walk.antt =====
-- core/memory_protector/mmu/page_table.rs: what a walk of a copied page table can end with.
use ace_riscv.Base.{
  ℕ, zero, suc, ◌<◌, ◌≡◌, refl, ◌⊎◌, inl, inr, Outcome, ok, err, address_translation_failed, arith,
}
use ace_riscv.Memory.Layout.{MemoryLayout}
use ace_riscv.Memory.Page.{start_address}
use ace_riscv.Mmu.Paging.{PagingSystem, PageTableLevel, vpn, vpn-lt}
use ace_riscv.Mmu.TableMemory.{Heap}
use ace_riscv.Mmu.Table.{
  PageTable, PageTableEntry, Entries, page_table, pointer, leaf, shared, not_valid, nil, cons,
  translate, translate_at, translate_entry,
}
use ace_riscv.Mmu.Copy.{copy_from_non_confidential_memory}
use ace_riscv.Mmu.Copy.EntryShape.{count, IsTable, AreEntries, IsEntry}
use ace_riscv.Mmu.Copy.Shape.{copy_from_non_confidential_memory-IsTable}

-- An address, or the error of an address that nothing is mapped at.
abbrev Walked : Outcome ℕ → Type 0
Walked o = ((b : ℕ) × (o ≡ ok b)) ⊎ (o ≡ err address_translation_failed)

mutual
  unfolding translate translate_at translate_entry IsTable AreEntries IsEntry

  walk :
      (s : PagingSystem) (level : PageTableLevel) (a : ℕ) (t : PageTable)
      → IsTable s level t
      → Walked (translate s a t)
  walk s level a (page_table level' m es) (p, q, r) =
      let k : vpn s a level' < count es = rw (p, q) (vpn-lt s a level) in
      walk_at s level a (vpn s a level') es k r

  walk_at :
      (s : PagingSystem) (level : PageTableLevel) (a i : ℕ) (es : Entries)
      → i < count es
      → AreEntries s level es
      → Walked (translate_at s a i es)
  walk_at s level a i nil k r = absurd (omega arith)
  walk_at s level a zero (cons e es) k (r, rs) = walk_entry s level a e r
  walk_at s level a (suc i) (cons e es) k (r, rs) = walk_at s level a i es (omega arith) rs

  walk_entry :
      (s : PagingSystem) (level : PageTableLevel) (a : ℕ) (e : PageTableEntry)
      → IsEntry s level e
      → Walked (translate_entry s a e)
  walk_entry s level a (pointer t c) (level', p, r) = walk s level' a t r
  walk_entry s level a (leaf page c p) r = inl (start_address page, refl)
  walk_entry s level a (shared page c p) r = inr refl
  walk_entry s level a not_valid r = inr refl

-- Every guest physical address that is looked up in a page table copied from the memory of the
-- hypervisor is translated or is not mapped: the walk never leaves a table.
pub copy_from_non_confidential_memory-translate :
    (l : MemoryLayout) (s : PagingSystem) (level : PageTableLevel) (address : ℕ) (h h' : Heap)
    (t : PageTable)
    → copy_from_non_confidential_memory l s level address h ≡ ok (ok t, h')
    → (a : ℕ)
    → ((b : ℕ) × (translate s a t ≡ ok b)) ⊎ (translate s a t ≡ err address_translation_failed)
copy_from_non_confidential_memory-translate l s level address h h' t q a =
    walk s level a t (copy_from_non_confidential_memory-IsTable l s level address h h' t q)
