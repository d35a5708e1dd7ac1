-- ===== src/Mmu/Copy/Shape.antt =====
-- core/memory_protector/mmu/page_table.rs: the shape of a page table that is copied from the memory of
-- the hypervisor.
use ace_riscv.Base.{
  ℕ, ◌≡◌, refl, inl, inr, subst, Option, none, some, Outcome, Outcome-cases, ok, err, panic,
  >>=-ok-elim, arith,
}
use ace_riscv.Memory.Layout.{MemoryLayout}
use ace_riscv.Allocator.Acquire.{acquire_continous_pages}
use ace_riscv.Mmu.Paging.{
  PagingSystem, PageTableLevel, level1, level2, level3, level4, level5, lower, entries,
  configuration_pages,
}
use ace_riscv.Mmu.TableMemory.{PageTableMemory, Heap, drop_pages}
use ace_riscv.Mmu.Drop.{drop_collected}
use ace_riscv.Memory.PageSize.{size_4KiB}
use ace_riscv.Mmu.Table.{PageTable, Entries, page_table}
use ace_riscv.Mmu.TableCopy.{copy_pages, copy_table_memory}
use ace_riscv.Mmu.Copy.{
  finish_table, fill_table, Copier, copy_entries, copy_table, copier, depth,
  copy_from_non_confidential_memory,
}
use ace_riscv.Mmu.Copy.EntryShape.{count, IsTable, AreEntries, Copies, copy_entries-AreEntries}

-- The copier of the level below, which the last level does not have.
unfoldable pub copy_lower : MemoryLayout → PagingSystem → PageTableLevel → Option Copier
unfolding lower copy_from_non_confidential_memory
copy_lower l s level = elim (lower level) [
  | none ↦ none
  | some level' ↦ some (copy_from_non_confidential_memory l s level')
]

-- The copy of a table is the recursion of the source: it copies the tables of the level below, and it
-- ends at the last level, so tables that point to each other in a cycle are an error.
pub copy_from_non_confidential_memory-recursion :
    (l : MemoryLayout) (s : PagingSystem) (level : PageTableLevel)
    → copy_from_non_confidential_memory l s level ≡ copy_table l s (copy_lower l s level) level
unfolding copy_from_non_confidential_memory copier depth copy_lower lower
copy_from_non_confidential_memory-recursion l s level1 = refl
copy_from_non_confidential_memory-recursion l s level2 = refl
copy_from_non_confidential_memory-recursion l s level3 = refl
copy_from_non_confidential_memory-recursion l s level4 = refl
copy_from_non_confidential_memory-recursion l s level5 = refl

module _ (l : MemoryLayout) (s : PagingSystem) where
  copy_table_memory-entries :
      (level : PageTableLevel) (address : ℕ) (h h1 : Heap) (m : PageTableMemory)
      → copy_table_memory l s level address h ≡ ok (ok m, h1)
      → m.number_of_entries ≡ entries s level
  unfolding copy_table_memory
  copy_table_memory-entries level address h h1 m q =
      >>=-ok-elim (acquire_continous_pages l h.allocator (configuration_pages s level) size_4KiB) _
        q
        (λ (acquired, allocator) a q1. elim (Outcome-cases acquired) [
          | inr (inl (x, b)) ↦ absurd (ground arith)
          | inr (inr b) ↦ absurd (ground arith)
          | inl (pages, b) ↦
              >>=-ok-elim (copy_pages l s 0 address pages h.memory) _ (rw b at q1)
                (λ (copied, memory) d q2. elim (Outcome-cases copied) [
                  | inr (inl (x, f)) ↦ absurd (ground arith)
                  | inr (inr f) ↦ absurd (ground arith)
                  | inl (ps, f) ↦ ground arith
                ])
        ])

  finish_table-IsTable :
      (level : PageTableLevel) (m : PageTableMemory) (r : Outcome (Unit {0})) (es : Entries)
      (h h' : Heap) (t : PageTable)
      → (r ≡ ok tt → (count es ≡ entries s level) × AreEntries s level es)
      → finish_table l s level m r es h ≡ ok (ok t, h')
      → IsTable s level t
  unfolding finish_table IsTable
  finish_table-IsTable level m (ok u) es h h' t a q =
      let b : page_table level m es ≡ t = ground arith in
      let (d, e) = a refl in subst (IsTable s level) b (refl, d, e)
  finish_table-IsTable level m (err e) es h h' t a q =
      >>=-ok-elim (drop_collected es h) _ q
        (λ h1 b q1. >>=-ok-elim (drop_pages m.pages h1) _ q1 (λ h2 d q2. absurd (ground arith)))
  finish_table-IsTable level m panic es h h' t a q = absurd (ground arith)

  fill_table-IsTable :
      (below : Option Copier) (level : PageTableLevel)
      → Copies s level below
      → (copied : Outcome PageTableMemory) (h h' : Heap) (t : PageTable)
      → ((m : PageTableMemory) → copied ≡ ok m → m.number_of_entries ≡ entries s level)
      → fill_table l s below level copied h ≡ ok (ok t, h')
      → IsTable s level t
  unfolding fill_table
  fill_table-IsTable below level c (ok m) h h' t a q =
      >>=-ok-elim (copy_entries l s below level m m.number_of_entries 0 h) _ q (λ (r, es, h1) b q1.
        finish_table-IsTable level m r es h1 h' t
          (λ k.
            rw (a m refl) at (
              copy_entries-AreEntries l s below level c m m.number_of_entries 0 h es h1
                (rw k at b)))
          q1)
  fill_table-IsTable below level c (err e) h h' t a q = absurd (ground arith)
  fill_table-IsTable below level c panic h h' t a q = absurd (ground arith)

  copy_table-IsTable :
      (below : Option Copier) (level : PageTableLevel)
      → Copies s level below
      → (address : ℕ) (h h' : Heap) (t : PageTable)
      → copy_table l s below level address h ≡ ok (ok t, h')
      → IsTable s level t
  unfolding copy_table copy_table_memory IsTable
  copy_table-IsTable below level c address h h' t q =
      >>=-ok-elim (copy_table_memory l s level address h) _ q (λ (copied, h1) a q1.
        fill_table-IsTable below level c copied h1 h' t
          (λ m b. copy_table_memory-entries level address h h1 m (rw b at a)) q1)

  copier-IsTable :
      (level level' : PageTableLevel)
      → lower level ≡ some level'
      → ((address : ℕ) (h h' : Heap) (t : PageTable)
          → copy_from_non_confidential_memory l s level' address h ≡ ok (ok t, h')
          → IsTable s level' t)
      → (address : ℕ) (h h' : Heap) (t : PageTable)
      → copy_from_non_confidential_memory l s level address h ≡ ok (ok t, h')
      → IsTable s level t
  unfolding copy_lower
  copier-IsTable level level' a c address h h' t q =
      let e : copy_lower l s level ≡ some (copy_from_non_confidential_memory l s level') =
        rw (copy_lower, a) refl in
      copy_table-IsTable (some (copy_from_non_confidential_memory l s level')) level (level', a, c)
        address h h' t (rw (copy_from_non_confidential_memory-recursion l s level, e) at q)

  copy_level1-IsTable :
      (address : ℕ) (h h' : Heap) (t : PageTable)
      → copy_from_non_confidential_memory l s level1 address h ≡ ok (ok t, h')
      → IsTable s level1 t
  unfolding copy_from_non_confidential_memory copier depth
  copy_level1-IsTable address h h' t q = copy_table-IsTable none level1 tt address h h' t q

  -- A page table that is copied from the memory of the hypervisor has all entries of its level, and at
  -- each level below too, and its pointers lead to tables of the next lower level only, whatever the
  -- memory holds.
  pub copy_from_non_confidential_memory-IsTable :
      (level : PageTableLevel) (address : ℕ) (h h' : Heap) (t : PageTable)
      → copy_from_non_confidential_memory l s level address h ≡ ok (ok t, h')
      → IsTable s level t
  unfolding lower
  copy_from_non_confidential_memory-IsTable level1 = copy_level1-IsTable
  copy_from_non_confidential_memory-IsTable level2 =
      copier-IsTable level2 level1 refl copy_level1-IsTable
  copy_from_non_confidential_memory-IsTable level3 =
      copier-IsTable level3 level2 refl (copier-IsTable level2 level1 refl copy_level1-IsTable)
  copy_from_non_confidential_memory-IsTable level4 =
      copier-IsTable level4 level3 refl
        (copier-IsTable level3 level2 refl (copier-IsTable level2 level1 refl copy_level1-IsTable))
  copy_from_non_confidential_memory-IsTable level5 = copier-IsTable level5 level4 refl (
      copier-IsTable level4 level3 refl
        (copier-IsTable level3 level2 refl (copier-IsTable level2 level1 refl copy_level1-IsTable)))
