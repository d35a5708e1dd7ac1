-- ===== src/Mmu/Table/Mapping.antt =====
-- core/memory_protector/mmu/page_table.rs: what mapping a shared page does to the walks of the table.
use ace_riscv.Base.{
  ℕ, zero, suc, ◌≡◌, ◌≢◌, refl, sym, ap, ◌∙◌, ◌⊎◌, inl, inr, Bool, true, false, Bool-cases, Outcome,
  ok, err, >>=-eq-ok, address_translation_failed, arith,
}
use ace_riscv.Memory.Layout.{MemoryLayout}
use ace_riscv.Mmu.Paging.{PagingSystem, PageTableLevel, vpn}
use ace_riscv.Mmu.TableMemory.{PageTableMemory, Heap}
use ace_riscv.Mmu.Table.{
  SharedPage, PageTable, PageTableEntry, Entries, page_table, pointer, leaf, shared, not_valid, nil,
  cons, translate, translate_at, translate_entry, is_level1, set_entry, shared_entry, missing_entry,
  create_table, map_shared_page, map_at, map_entry,
}
use ace_riscv.Mmu.Table.Walk.{set_entry-stores, create_table-fails}

abbrev pub is_pointer : PageTableEntry → Bool
is_pointer (pointer t c) = true
is_pointer (leaf page c p) = false
is_pointer (shared page c p) = false
is_pointer not_valid = false

-- The second table is the first one with the last entry on the walk of the page's address replaced
-- by the shared page: what mapping the page is to do.
module _ (s : PagingSystem) (page : SharedPage) where
  mutual
    pub data Remapped : PageTable → PageTable → Type 0 where
      at_index :
          {level : PageTableLevel} {m : PageTableMemory} {es es' : Entries}
          → RemappedAt (vpn s page.confidential_vm_virtual_address level) es es'
          → Remapped (page_table level m es) (page_table level m es')

    pub data RemappedAt : ℕ → Entries → Entries → Type 0 where
      here :
          {e e' : PageTableEntry} {es : Entries}
          → RemappedEntry e e'
          → RemappedAt zero (cons e es) (cons e' es)
      there :
          {i : ℕ} {e : PageTableEntry} {es es' : Entries}
          → RemappedAt i es es'
          → RemappedAt (suc i) (cons e es) (cons e es')

    pub data RemappedEntry : PageTableEntry → PageTableEntry → Type 0 where
      below :
          {t t' : PageTable} {c : _} → Remapped t t' → RemappedEntry (pointer t c) (pointer t' c)
      replaced : (e : PageTableEntry) → is_pointer e ≡ false → RemappedEntry e (shared_entry page)

-- How a result relates what was to what is: success comes with `R`, an error with no change.
abbrev pub Effect : {A : Type 0} → (A → A → Type 0) → Outcome (Unit {0}) → A → A → Type 0
Effect R r x x' = ((r ≡ ok tt) × R x x') ⊎ ((r ≢ ok tt) × (x' ≡ x))

Effect-map :
    {A B : Type 0} (R : A → A → Type 0) (S : B → B → Type 0) (k : A → B)
    (f : (x x' : A) → R x x' → S (k x) (k x')) (r : Outcome (Unit {0})) (x x' : A)
    → Effect R r x x'
    → Effect S r (k x) (k x')
Effect-map R S k f r x x' (inl (e, p)) = inl (e, f x x' p)
Effect-map R S k f r x x' (inr (n, e)) = inr (n, ap k e)

module _ (l : MemoryLayout) (s : PagingSystem) (page : SharedPage) where
  mutual
    unfolding map_shared_page map_at map_entry missing_entry

    map-Effect :
        (t : PageTable) (h : Heap) {r : Outcome (Unit {0})} {t' : PageTable} {h' : Heap}
        → map_shared_page l s page t h ≡ ok (r, t', h')
        → Effect (Remapped s page) r t t'
    map-Effect (page_table level m es) h {r} {t'} {h'} q =
        let index = vpn s page.confidential_vm_virtual_address level in
        let ((r1, es1, h1), e, f) = >>=-eq-ok (map_at l s page level m index index es h) _ q in
        let (a, b) : (r ≡ r1) × (t' ≡ page_table level m es1) = ground arith in
        rw (a, b)
          (Effect-map (RemappedAt s page index) (Remapped s page) (page_table level m)
            (λ x x' p. at_index p) r1 es es1 (map_at-Effect level m index index es h e))

    map_at-Effect :
        (level : PageTableLevel) (m : PageTableMemory) (index i : ℕ) (es : Entries) (h : Heap)
        {r : Outcome (Unit {0})} {es' : Entries} {h' : Heap}
        → map_at l s page level m index i es h ≡ ok (r, es', h')
        → Effect (RemappedAt s page i) r es es'
    map_at-Effect level m index i nil h {r} {es'} {h'} q = inr (ground arith, ground arith)
    map_at-Effect level m index zero (cons e es) h {r} {es'} {h'} q =
        let ((r1, e1, h1), g, f) = >>=-eq-ok (map_entry l s page level m index e h) _ q in
        let (a, b) : (r ≡ r1) × (es' ≡ cons e1 es) = ground arith in
        rw (a, b)
          (Effect-map (RemappedEntry s page) (RemappedAt s page zero) (λ x. cons x es)
            (λ x x' p. here p) r1 e e1 (map_entry-Effect level m index e h g))
    map_at-Effect level m index (suc i) (cons e es) h {r} {es'} {h'} q =
        let ((r1, es1, h1), g, f) = >>=-eq-ok (map_at l s page level m index i es h) _ q in
        let (a, b) : (r ≡ r1) × (es' ≡ cons e es1) = ground arith in
        rw (a, b)
          (Effect-map (RemappedAt s page i) (RemappedAt s page (suc i)) (cons e) (λ x x' p. there p)
            r1 es es1 (map_at-Effect level m index i es h g))

    map_entry-Effect :
        (level : PageTableLevel) (m : PageTableMemory) (index : ℕ) (e : PageTableEntry) (h : Heap)
        {r : Outcome (Unit {0})} {e' : PageTableEntry} {h' : Heap}
        → map_entry l s page level m index e h ≡ ok (r, e', h')
        → Effect (RemappedEntry s page) r e e'
    map_entry-Effect level m index (pointer t c) h {r} {e'} {h'} q =
        let ((r1, t1, h1), g, f) = >>=-eq-ok (map_shared_page l s page t h) _ q in
        let (a, b) : (r ≡ r1) × (e' ≡ pointer t1 c) = ground arith in
        rw (a, b)
          (Effect-map (Remapped s page) (RemappedEntry s page) (λ x. pointer x c)
            (λ x x' p. below p) r1 t t1 (map-Effect t h g))
    map_entry-Effect level m index (leaf old c p) h {r} {e'} {h'} q =
        let (a, b) = set_entry-stores m index (shared_entry page) (leaf old c p) h q in
        inl (a, rw b (replaced _ refl))
    map_entry-Effect level m index (shared old c p) h {r} {e'} {h'} q =
        let (a, b) = set_entry-stores m index (shared_entry page) (shared old c p) h q in
        inl (a, rw b (replaced _ refl))
    map_entry-Effect level m index not_valid h {r} {e'} {h'} q =
        elim (Bool-cases (is_level1 level)) [
          | inl k ↦
              let d : map_entry l s page level m index not_valid h
                  ≡ set_entry m index (shared_entry page) not_valid h =
                rw k refl in
              let q1 : set_entry m index (shared_entry page) not_valid h ≡ ok (r, e', h') =
                sym d ∙ q in
              let (a, b) = set_entry-stores m index (shared_entry page) not_valid h q1 in
              inl (a, rw b (replaced _ refl))
          | inr k ↦
              let d : map_entry l s page level m index not_valid h
                  ≡ create_table l s page level m index h =
                rw k refl in
              let q1 : create_table l s page level m index h ≡ ok (r, e', h') = sym d ∙ q in
              inr (create_table-fails l s page level m index h q1)
        ]

-- Where `map_shared_page` of a table returns, either its result is `Ok` and the new table is the old
-- one with the last entry on the walk of the page's address replaced by the shared page, or its result
-- is an error and the table is as before.
pub map_shared_page-Effect :
    (l : MemoryLayout) (s : PagingSystem) (page : SharedPage) (t : PageTable) (h : Heap)
    (r : Outcome (Unit {0})) (t' : PageTable) (h' : Heap)
    → map_shared_page l s page t h ≡ ok (r, t', h')
    → Effect (Remapped s page) r t t'
map_shared_page-Effect l s page t h r t' h' q = map-Effect l s page t h q

module _ (s : PagingSystem) (page : SharedPage) where
  mutual
    unfolding translate translate_at translate_entry

    Remapped-translate :
        {t t' : PageTable}
        → Remapped s page t t'
        → translate s page.confidential_vm_virtual_address t' ≡ err address_translation_failed
    Remapped-translate (at_index p) = RemappedAt-translate p

    RemappedAt-translate :
        {i : ℕ} {es es' : Entries}
        → RemappedAt s page i es es'
        → translate_at s page.confidential_vm_virtual_address i es' ≡ err address_translation_failed
    RemappedAt-translate (here p) = RemappedEntry-translate p
    RemappedAt-translate (there p) = RemappedAt-translate p

    RemappedEntry-translate :
        {e e' : PageTableEntry}
        → RemappedEntry s page e e'
        → translate_entry s page.confidential_vm_virtual_address e' ≡ err address_translation_failed
    RemappedEntry-translate (below p) = Remapped-translate p
    RemappedEntry-translate (replaced e k) = refl

  mutual
    unfolding translate translate_at translate_entry

    Remapped-adds_none :
        (a x : ℕ) {t t' : PageTable}
        → Remapped s page t t'
        → translate s a t' ≡ ok x
        → translate s a t ≡ ok x
    Remapped-adds_none a x (at_index {level = level} p) w =
        RemappedAt-adds_none a x (vpn s a level) p w

    RemappedAt-adds_none :
        (a x j : ℕ) {i : ℕ} {es es' : Entries}
        → RemappedAt s page i es es'
        → translate_at s a j es' ≡ ok x
        → translate_at s a j es ≡ ok x
    RemappedAt-adds_none a x zero (here p) w = RemappedEntry-adds_none a x p w
    RemappedAt-adds_none a x (suc j) (here p) w = w
    RemappedAt-adds_none a x zero (there p) w = w
    RemappedAt-adds_none a x (suc j) (there p) w = RemappedAt-adds_none a x j p w

    RemappedEntry-adds_none :
        (a x : ℕ) {e e' : PageTableEntry}
        → RemappedEntry s page e e'
        → translate_entry s a e' ≡ ok x
        → translate_entry s a e ≡ ok x
    RemappedEntry-adds_none a x (below p) w = Remapped-adds_none a x p w
    RemappedEntry-adds_none a x (replaced e k) w = absurd (ground arith)

-- After a shared page is mapped, its address no longer translates to confidential memory, and every
-- address that still translates does so to the confidential page it had before.
pub map_shared_page-translate :
    (l : MemoryLayout) (s : PagingSystem) (page : SharedPage) (t : PageTable) (h : Heap)
    (t' : PageTable) (h' : Heap)
    → map_shared_page l s page t h ≡ ok (ok tt, t', h')
    → (translate s page.confidential_vm_virtual_address t' ≡ err address_translation_failed)
      × ((a x : ℕ) → translate s a t' ≡ ok x → translate s a t ≡ ok x)
map_shared_page-translate l s page t h t' h' q = elim (map-Effect l s page t h q) [
  | inl (e, p) ↦ (Remapped-translate s page p, λ a x w. Remapped-adds_none s page a x p w)
  | inr (n, e) ↦ absurd (n refl)
]

-- Where the walk of the page's address ends at an entry that is not valid above the last level,
-- mapping never succeeds: the table that the code creates for the next level has no entries.
pub map_entry-creates_no_table :
    (l : MemoryLayout) (s : PagingSystem) (page : SharedPage) (level : PageTableLevel)
    (m : PageTableMemory) (index : ℕ) (h : Heap) (r : Outcome (Unit {0})) (e : PageTableEntry)
    (h' : Heap)
    → is_level1 level ≡ false
    → map_entry l s page level m index not_valid h ≡ ok (r, e, h')
    → (r ≢ ok tt) × (e ≡ not_valid)
unfolding map_entry
map_entry-creates_no_table l s page level m index h r e h' k q =
    let d : map_entry l s page level m index not_valid h ≡ create_table l s page level m index h =
      rw k refl in
    create_table-fails l s page level m index h (sym d ∙ q)
