-- ===== src/Mmu/Drop/Erasure.antt =====
-- core/memory_protector/mmu/page_table.rs: which pages a page table owns, and what is left in them once it
-- is dropped.
use ace_riscv.Base.{
  ℕ, ◌+◌, ◌<◌, ◌≡◌, refl, sym, ap, ◌∙◌, Bool, false, ◌||◌, if◌then◌else◌, List, [], ◌∷◌, ◌++◌, map,
  All, Outcome, ok, err, panic, ◌>>=◌, usize_mod, arith,
}
use ace_riscv.Memory.PageSize.{in_bytes}
use ace_riscv.Memory.Page.{Page, allocated, unallocated, convert}
use ace_riscv.Memory.Page.Content.{is_word_of, deallocate-zero}
use ace_riscv.Allocator.{push}
use ace_riscv.Allocator.Acquire.{release_pages, release_page}
use ace_riscv.Mmu.TableMemory.{Heap, release_allocated, drop_pages}
use ace_riscv.Mmu.Table.{
  PageTable, PageTableEntry, Entries, page_table, pointer, leaf, shared, not_valid, nil, cons,
}
use ace_riscv.Mmu.Drop.{drop_table, drop_entries, drop_entry}

-- The pages that hold the data of the confidential VM and the tables, in the order of their release.
unfoldable mutual
  pub pages_of : PageTable → List (Page allocated)
  pages_of (page_table level m es) = pages_of_entries es ++ m.pages

  pub pages_of_entries : Entries → List (Page allocated)
  pages_of_entries nil = []
  pages_of_entries (cons e es) = pages_of_entry e ++ pages_of_entries es

  pub pages_of_entry : PageTableEntry → List (Page allocated)
  pages_of_entry (pointer t c) = pages_of t
  pages_of_entry (leaf page c p) = page ∷ []
  pages_of_entry (shared page c p) = []
  pages_of_entry not_valid = []

bind-ok : (o : Outcome Heap) → (o >>= ok) ≡ o
bind-ok (ok h) = refl
bind-ok (err e) = refl
bind-ok panic = refl

bind-ap :
    (o : Outcome Heap) (f g : Heap → Outcome Heap)
    → ((h : Heap) → f h ≡ g h)
    → (o >>= f) ≡ (o >>= g)
bind-ap (ok h) f g e = e h
bind-ap (err x) f g e = refl
bind-ap panic f g e = refl

bind_assoc :
    (o : Outcome Heap) (f g : Heap → Outcome Heap) → ((o >>= f) >>= g) ≡ (o >>= λ h. f h >>= g)
bind_assoc (ok h) f g = refl
bind_assoc (err e) f g = refl
bind_assoc panic f g = refl

drop_pages-append :
    (ps qs : List (Page allocated)) (h : Heap)
    → drop_pages (ps ++ qs) h ≡ (drop_pages ps h >>= drop_pages qs)
unfolding drop_pages
drop_pages-append [] qs h = refl
drop_pages-append (p ∷ ps) qs h =
    bind-ap (release_allocated p h) (drop_pages (ps ++ qs))
      (λ h'. drop_pages ps h' >>= drop_pages qs) (drop_pages-append ps qs)
    ∙ sym (bind_assoc (release_allocated p h) (drop_pages ps) (drop_pages qs))

mutual
  unfolding drop_pages drop_table drop_entries drop_entry pages_of pages_of_entries pages_of_entry

  -- The recursive drop of a table releases the list of its pages.
  table-flat : (t : PageTable) (h : Heap) → drop_table t h ≡ drop_pages (pages_of t) h
  table-flat (page_table level m es) h =
      rw (drop_pages-append (pages_of_entries es) m.pages h, entries-flat es h) refl

  entries-flat : (es : Entries) (h : Heap) → drop_entries es h ≡ drop_pages (pages_of_entries es) h
  entries-flat nil h = refl
  entries-flat (cons e es) h =
      bind-ap (drop_entry e h) (drop_entries es) (drop_pages (pages_of_entries es))
        (entries-flat es)
      ∙ ap (λ o. o >>= drop_pages (pages_of_entries es)) (entry-flat e h)
      ∙ sym (drop_pages-append (pages_of_entry e) (pages_of_entries es) h)

  entry-flat : (e : PageTableEntry) (h : Heap) → drop_entry e h ≡ drop_pages (pages_of_entry e) h
  entry-flat (pointer t c) h = table-flat t h
  entry-flat (leaf page c p) h = sym (bind-ok (release_allocated page h))
  entry-flat (shared page c p) h = refl
  entry-flat not_valid h = refl

abbrev pub is_word_of_any : List (Page allocated) → ℕ → Bool
is_word_of_any [] a = false
is_word_of_any (p ∷ ps) a = is_word_of p a || is_word_of_any ps a

abbrev pub Addressable : Page allocated → Type 0
Addressable p = p.address + in_bytes p.size < usize_mod

abbrev pub tokens : List (Page allocated) → List (Page unallocated)
tokens ps = map convert ps

release_allocated-erases :
    (p : Page allocated) (h : Heap)
    → Addressable p
    → (h' : Heap) × (release_allocated p h ≡ ok h')
      × ((a : ℕ) → h'.memory a ≡ (if is_word_of p a then 0 else h.memory a))
      × (h'.allocator ≡ push h.allocator (convert p))
unfolding release_allocated release_page release_pages
release_allocated-erases p h fit =
    let (q, m, returns, k1, k2, zeroed) = deallocate-zero p h.memory fit in
    let e : q ≡ convert p = ground arith in
    (
      record { memory = m; allocator = push h.allocator q },
      rw returns refl,
      zeroed,
      ap (push h.allocator) e,
    )

drop_pages-erases :
    (ps : List (Page allocated)) (h : Heap)
    → All Addressable ps
    → (h' : Heap) × (drop_pages ps h ≡ ok h')
      × ((a : ℕ) → h'.memory a ≡ (if is_word_of_any ps a then 0 else h.memory a))
      × (h'.allocator ≡ release_pages h.allocator (tokens ps))
unfolding drop_pages release_pages
drop_pages-erases [] h fits = (h, refl, (λ a. refl), refl)
drop_pages-erases (p ∷ ps) h (fit, fits) =
    let (h1, returns, zeroed, pushed) = release_allocated-erases p h fit in
    let (h', returns', zeroed', released) = drop_pages-erases ps h1 fits in
    (h', (rw returns returns'), (λ a. ground (arith, zeroed a, zeroed' a)), (rw pushed at released))

-- Dropping a page table does not panic, leaves zero in every word of the pages that hold the tables
-- and the data it maps and every other word as it was, and gives these pages back to the
-- allocator, for pages that end inside the address space.
pub drop_table-erases :
    (t : PageTable) (h : Heap)
    → All Addressable (pages_of t)
    → (h' : Heap) × (drop_table t h ≡ ok h')
      × ((a : ℕ) → h'.memory a ≡ (if is_word_of_any (pages_of t) a then 0 else h.memory a))
      × (h'.allocator ≡ release_pages h.allocator (tokens (pages_of t)))
drop_table-erases t h fits = rw (table-flat t h) (drop_pages-erases (pages_of t) h fits)
