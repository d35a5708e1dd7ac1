-- ===== src/Mmu/Copy/EntryShape.antt =====
-- core/memory_protector/mmu/page_table.rs: the shape of a page table, and of the entries that are copied.
use ace_riscv.Base.{
  ℕ, zero, suc, ◌≡◌, refl, inl, inr, Bool-cases, [], ◌∷◌, subst, ap, Option, none, some, Outcome,
  Outcome-cases, ok, err, panic, >>=-eq-ok, >>=-ok-elim, arith,
}
use ace_riscv.Memory.Layout.{MemoryLayout, non_confidential_address}
use ace_riscv.Memory.Page.{start_address}
use ace_riscv.Memory.Page
use ace_riscv.Allocator.{Pages}
use ace_riscv.Allocator.Acquire.{acquire_continous_pages}
use ace_riscv.Mmu.Paging.{PagingSystem, PageTableLevel, lower, entries, page_size}
use ace_riscv.Mmu.Entry.{is_valid, is_leaf, decode_address, decode_configuration, decode_permission}
use ace_riscv.Mmu.TableMemory.{PageTableMemory, Heap}
use ace_riscv.Mmu.Table.{
  PageTable, PageTableEntry, Entries, page_table, pointer, leaf, shared, not_valid, nil, cons,
}
use ace_riscv.Mmu.TableCopy.{entry}
use ace_riscv.Mmu.Copy.{
  copy_read_entry, store_copied, Copier, fill_leaf, acquire_leaf, copy_leaf, point_to, copy_pointed,
  copy_pointer, copy_entry, copy_entries,
}

abbrev pub count : Entries → ℕ
count nil = 0
count (cons e es) = suc (count es)

-- A table of the level has all entries of the level, and its entries point to tables of the level below.
unfoldable mutual
  pub IsTable : PagingSystem → PageTableLevel → PageTable → Type 0
  IsTable s level (page_table level' m es) =
      (level' ≡ level) × (count es ≡ entries s level) × AreEntries s level es

  pub AreEntries : PagingSystem → PageTableLevel → Entries → Type 0
  AreEntries s level nil = Unit
  AreEntries s level (cons e es) = IsEntry s level e × AreEntries s level es

  pub IsEntry : PagingSystem → PageTableLevel → PageTableEntry → Type 0
  IsEntry s level (pointer t c) =
      (level' : PageTableLevel) × (lower level ≡ some level') × IsTable s level' t
  IsEntry s level (leaf page c p) = Unit
  IsEntry s level (shared page c p) = Unit
  IsEntry s level not_valid = Unit

-- A copier of the level below makes tables of the level below.
abbrev pub Copies : PagingSystem → PageTableLevel → Option Copier → Type 0
Copies s level none = Unit
Copies s level (some copy) =
    (level' : PageTableLevel) × (lower level ≡ some level')
    × ((address : ℕ) (h h' : Heap) (t : PageTable)
        → copy address h ≡ ok (ok t, h')
        → IsTable s level' t)

module _ (l : MemoryLayout) (s : PagingSystem) where
  fill_leaf-IsEntry :
      (level : PageTableLevel) (raw address : ℕ) (pages : Outcome Pages) (h : Heap)
      {e : PageTableEntry} {h' : Heap}
      → fill_leaf l s raw address pages h ≡ ok (ok e, h')
      → IsEntry s level e
  unfolding fill_leaf IsEntry
  fill_leaf-IsEntry level raw address (ok []) h q = absurd (ground arith)
  fill_leaf-IsEntry level raw address (ok (p ∷ ps)) h {e} {h'} q =
      elim (Outcome-cases (Page.copy_from_non_confidential_memory l p address h.memory)) [
        | inl ((page, memory), a) ↦
            let b : leaf page (decode_configuration raw) (decode_permission raw) ≡ e =
              ground arith in
            subst (IsEntry s level) b tt
        | inr (inl (x, a)) ↦ absurd (ground arith)
        | inr (inr a) ↦ absurd (ground arith)
      ]
  fill_leaf-IsEntry level raw address (err x) h q = absurd (ground arith)
  fill_leaf-IsEntry level raw address panic h q = absurd (ground arith)

  copy_leaf-IsEntry :
      (level : PageTableLevel) (raw : ℕ) (h : Heap) {e : PageTableEntry} {h' : Heap}
      → copy_leaf l s level raw h ≡ ok (ok e, h')
      → IsEntry s level e
  unfolding copy_leaf acquire_leaf
  copy_leaf-IsEntry level raw h {e} {h'} q =
      elim (Outcome-cases (non_confidential_address l (decode_address raw))) [
        | inl (address, a) ↦
            let (acquired, b, q1) =
              >>=-eq-ok (acquire_continous_pages l h.allocator 1 (page_size s level)) _
                (rw (a, copy_leaf) at q) in
            fill_leaf-IsEntry level raw address acquired.0 _ q1
        | inr (inl (x, a)) ↦ absurd (ground arith)
        | inr (inr a) ↦ absurd (ground arith)
      ]

  point_to-IsEntry :
      (level level' : PageTableLevel) (raw : ℕ) (t : Outcome PageTable) (h : Heap)
      → lower level ≡ some level'
      → ((t' : PageTable) → t ≡ ok t' → IsTable s level' t')
      → {e : PageTableEntry} {h' : Heap} → point_to l s raw t h ≡ ok (ok e, h')
      → IsEntry s level e
  unfolding point_to IsEntry
  point_to-IsEntry level level' raw (ok t) h a b {e} {h'} q =
      let c : pointer t (decode_configuration raw) ≡ e = ground arith in
      subst (IsEntry s level) c (level', a, b t refl)
  point_to-IsEntry level level' raw (err x) h a b q = absurd (ground arith)
  point_to-IsEntry level level' raw panic h a b q = absurd (ground arith)

  copy_pointer-IsEntry :
      (below : Option Copier) (level : PageTableLevel)
      → Copies s level below
      → (raw : ℕ) (h : Heap) {e : PageTableEntry} {h' : Heap}
      → copy_pointer l s below raw h ≡ ok (ok e, h')
      → IsEntry s level e
  unfolding copy_pointer copy_pointed
  copy_pointer-IsEntry none level c raw h q = absurd (ground arith)
  copy_pointer-IsEntry (some copy) level (level', d, c) raw h {e} {h'} q =
      elim (Outcome-cases (non_confidential_address l (decode_address raw))) [
        | inl (address, a) ↦
            let ((t, h1), b, q1) = >>=-eq-ok (copy address h) _ (rw (a, copy_pointer) at q) in
            point_to-IsEntry level level' raw t h1 d
              (λ t' f. c address h h1 t' (rw b (ground arith))) q1
        | inr (inl (x, a)) ↦ absurd (ground arith)
        | inr (inr a) ↦ absurd (ground arith)
      ]

  copy_entry-IsEntry :
      (below : Option Copier) (level : PageTableLevel)
      → Copies s level below
      → (raw : ℕ) (h : Heap) {e : PageTableEntry} {h' : Heap}
      → copy_entry l s below level raw h ≡ ok (ok e, h')
      → IsEntry s level e
  unfolding copy_entry IsEntry
  copy_entry-IsEntry below level c raw h {e} {h'} q = elim (Bool-cases (is_valid raw)) [
    | inr a ↦ let b : not_valid ≡ e = ground arith in subst (IsEntry s level) b tt
    | inl a ↦ elim (Bool-cases (is_leaf raw)) [
      | inl b ↦ copy_leaf-IsEntry level raw h {h' = h'} (ground arith)
      | inr b ↦ copy_pointer-IsEntry below level c raw h {h' = h'} (ground arith)
    ]
  ]

  copy_read_entry-IsEntry :
      (below : Option Copier) (level : PageTableLevel)
      → Copies s level below
      → (read : Option ℕ) (h h' : Heap) (e : PageTableEntry)
      → copy_read_entry l s below level read h ≡ ok (ok e, h')
      → IsEntry s level e
  unfolding copy_read_entry
  copy_read_entry-IsEntry below level c none h h' e q = absurd (ground arith)
  copy_read_entry-IsEntry below level c (some raw) h h' e q =
      copy_entry-IsEntry below level c raw h {h' = h'} q

  cons-AreEntries :
      (level : PageTableLevel) (n : ℕ) (e : PageTableEntry) (rest es : Entries)
      (r : Outcome (Unit {0})) (h1 h2 : Heap)
      → ◌≡◌ {A = Outcome (Outcome (Unit {0}) × Entries × Heap)}
          (ok (r, cons e rest, h1))
          (ok (ok tt, es, h2))
      → IsEntry s level e
      → (r ≡ ok tt → (count rest ≡ n) × AreEntries s level rest)
      → (count es ≡ suc n) × AreEntries s level es
  unfolding AreEntries
  cons-AreEntries level n e rest es r h1 h2 q a b =
      let c : (r ≡ ok tt) × (cons e rest ≡ es) = ground arith in
      let (v, w) = b c.0 in
      subst (λ x. (count x ≡ suc n) × AreEntries s level x) c.1 (ap suc v, (a, w))

  pub copy_entries-AreEntries :
      (below : Option Copier) (level : PageTableLevel)
      → Copies s level below
      → (m : PageTableMemory) (n index : ℕ) (h : Heap) (es : Entries) (h' : Heap)
      → copy_entries l s below level m n index h ≡ ok (ok tt, es, h')
      → (count es ≡ n) × AreEntries s level es
  unfolding copy_entries AreEntries
  copy_entries-AreEntries below level c m zero index h es h' q =
      let a : nil ≡ es = ground arith in
      subst (λ x. (count x ≡ 0) × AreEntries s level x) a (refl, tt)
  copy_entries-AreEntries below level c m (suc n) index h es h' q =
      >>=-ok-elim (entry m index h.memory) _ q (λ read a q1.
        >>=-ok-elim (copy_read_entry l s below level read h) _ q1 (λ (copied, h1) b q2.
          elim (Outcome-cases copied) [
            | inr (inl (x, f)) ↦ absurd (ground arith)
            | inr (inr f) ↦ absurd (ground arith)
            | inl (e, f) ↦ >>=-ok-elim (store_copied l s m index e h1) _ (rw f at q2) (λ h2 g q3.
                >>=-ok-elim (copy_entries l s below level m n (suc index) h2) _ q3
                  (λ (r, rest, h3) j q4.
                    cons-AreEntries level n e rest es r h3 h' q4
                      (copy_read_entry-IsEntry below level c read h h1 e (rw f at b))
                      (λ k.
                        copy_entries-AreEntries below level c m n (suc index) h2 rest h3
                          (rw k at j))))
          ]))
