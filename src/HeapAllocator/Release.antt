-- ===== src/HeapAllocator/Release.antt =====
-- core/heap_allocator/allocator.rs: memory that is released after it was allocated.
use ace_riscv.Base.{
  ℕ, zero, suc, ◌+◌, ◌-◌, ◌*◌, ◌/◌, ◌%◌, ◌≤◌, ◌<◌, ◌≡◌, refl, lt_cases, ◌⊎◌, inl, inr, ◌∙◌, sym, ap,
  max, some, ◌∷◌, Option-cases, ok, >>=-ok-elim, arith,
}
use native.Mathlib.Nat.{div-add-mod', mod-lt}
use ace_riscv.HeapAllocator.{
  Regions, Layout, layout_of, padded, align_to, at_least_region, size_of_region, align_of_region,
  add_free_memory_region, alloc_dynamic, try_alloc, alloc, dealloc,
}
use ace_riscv.HeapAllocator.Ownership.{covers, free, alloc_dynamic-ok, layout_of-eq_ok}

one_multiple : (q m r n : ℕ) → q * m + r ≡ n → r < m → m ≤ n → n < m + m → q * m ≡ m
one_multiple zero m r n e h g k = absurd (omega arith)
one_multiple (suc zero) m r n e h g k = omega arith
one_multiple (suc (suc q)) m r n e h g k = absurd (omega arith)

-- A size up to the alignment takes one multiple of it.
padded-one : (size m : ℕ) → 0 < size → size ≤ m → padded size m ≡ m
unfolding padded
padded-one size m pos h =
    let n = size + (m - 1) in
    one_multiple (n / m) m (n % m) n (div-add-mod' n m) (mod-lt n (omega arith)) (omega arith)
      (omega arith)

eight : (size : ℕ) → size < 16 → max (padded 16 8) 16 ≡ max (padded size 8) 16
unfolding padded
eight size h = omega arith

same_size :
    (size m : ℕ)
    → 0 < size
    → size < 16
    → (m ≡ 8) ⊎ (16 ≤ m)
    → max (padded 16 m) 16 ≡ max (padded size m) 16
same_size size m pos small (inl e) = rw e (eight size small)
same_size size m pos small (inr h) =
    rw (padded-one 16 m (omega arith) h, padded-one size m pos (omega arith)) refl

align_to-eq_ok :
    (l : Layout) {size align : ℕ}
    → align_to l ≡ ok (size, align)
    → size ≡ max (padded l.size (max l.align align_of_region)) size_of_region
unfolding align_to
align_to-eq_ok l {size} {align} q =
    let m = max l.align align_of_region in
    >>=-ok-elim (layout_of l.size m) _ q (λ l' c q1.
      let (c1, c2, _) = layout_of-eq_ok l.size m c in
      let d : max (padded l'.size l'.align) size_of_region ≡ size = ground arith in
      sym d ∙ rw (c1, c2) refl)

at_least_region-align_to :
    (l : Layout) {l' : Layout} {size align size' align' : ℕ}
    → 0 < l.size
    → (l.align ≤ 8) ⊎ (16 ≤ l.align)
    → at_least_region l ≡ ok l'
    → align_to l ≡ ok (size, align)
    → align_to l' ≡ ok (size', align')
    → size ≡ size'
unfolding at_least_region
at_least_region-align_to l {l'} {size} {align} {size'} {align'} pos h q e f =
    let m = max l.align align_of_region in
    let a = align_to-eq_ok l e in
    let b = align_to-eq_ok l' f in
    elim (lt_cases l.size size_of_region) [
      | inl small ↦
          let c : layout_of size_of_region l.align ≡ ok l' = ground arith in
          let (c1, c2, _) = layout_of-eq_ok size_of_region l.align c in
          let k : (m ≡ 8) ⊎ (16 ≤ m) = elim h [
            | inl x ↦ inl (omega arith)
            | inr x ↦ inr (omega arith)
          ] in
          a ∙ sym (same_size l.size m pos small k) ∙ sym (b ∙ rw (c1, c2) refl)
      | inr large ↦ let c : l ≡ l' = ground arith in a ∙ sym (b ∙ rw (← c) refl)
    ]

dealloc-eq_ok :
    (address : ℕ) (l : Layout) (rs : Regions) {rs' : Regions}
    → dealloc address l rs ≡ ok rs'
    → (size : ℕ) × (align : ℕ) × (align_to l ≡ ok (size, align))
      × (rs' ≡ record { start_address = address; size = size } ∷ rs)
unfolding dealloc add_free_memory_region
dealloc-eq_ok address l rs {rs'} q =
    >>=-ok-elim (align_to l) _ q (λ (size, align) a q1. (size, align, a, ground arith))

given_back : (p x u v w : ℕ) → u ≡ p + x + v → w ≡ x + v → w + p ≡ u
given_back p x u v w a b = omega arith

-- Memory that is released with the layout it was allocated with is free again: after the release, every
-- byte is free in as many regions as before the allocation, but for those of a gap that ends where the
-- allocation starts. The size is positive and the alignment at most 8 or at least 16, as every
-- power of two is.
pub dealloc-alloc :
    (l : Layout) (rs rs' rs'' : Regions) (address : ℕ)
    → 0 < l.size
    → (l.align ≤ 8) ⊎ (16 ≤ l.align)
    → alloc l rs ≡ ok (address, rs')
    → dealloc address l rs' ≡ ok rs''
    → (gap : ℕ) × (gap ≤ address)
      × ((a : ℕ) → free rs'' a + covers gap (address - gap) a ≡ free rs a)
unfolding alloc try_alloc free
dealloc-alloc l rs rs' rs'' address pos h q r = >>=-ok-elim (at_least_region l) _ q (λ l' b q1.
    >>=-ok-elim (alloc_dynamic l' rs) _ q1 (λ (allocated, rest) c q2.
      elim (Option-cases allocated) [
        | inl n ↦ absurd (ground arith)
        | inr (start, n) ↦
            let d : (start ≡ address) × (rest ≡ rs') = ground arith in
            let e : alloc_dynamic l' rs ≡ ok (some address, rs') = ground arith in
            let (size, align, f, gap, before, g) = alloc_dynamic-ok l' rs rs' address e in
            let (size', align', k, m) = dealloc-eq_ok address l rs' r in
            let same = at_least_region-align_to l pos h b k f in
            (
              gap,
              before,
              λ a.
                  given_back (covers gap (address - gap) a) (covers address size a) (free rs a)
                    (free rs' a) (free rs'' a) (g a) (ap (λ x. free x a) m ∙ rw same refl),
            )
      ]))
