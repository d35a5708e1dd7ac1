-- ===== src/HeapAllocator/Ownership.antt =====
-- core/heap_allocator/allocator.rs: memory that is allocated is free before and not after.
use ace_riscv.Base.{
  ℕ, ◌+◌, ◌-◌, ◌≤◌, ◌<◌, ◌≡◌, refl, inl, inr, ◌&&◌, leb, ltb, if◌then◌else◌, some, [], ◌∷◌,
  Outcome-cases, Option-cases, max, ◌*◌, ◌/◌, ◌%◌, ok, >>=-ok-elim, assure, out_of_memory,
  usize_mod, mul_usize, ap, sym, subst, ◌∙◌, arith,
}
use native.Mathlib.Nat.{div-add-mod', mod-lt}
use ace_riscv.Memory.Pointer.{
  ptr_align, ptr_byte_add_mut, ptr_byte_offset, align_offset, ptr_byte_add_mut-eq_ok,
}
use ace_riscv.HeapAllocator.{
  FreeMemoryRegion, Regions, Layout, layout_of, padded, isize_max, size_of_region, align_of_region,
  align_to, end_address, is_reusable, try_allocation, find_free_memory_region,
  add_free_memory_region, keep_rest, alloc_dynamic, try_alloc, alloc, at_least_region,
}

abbrev pub covers : ℕ → ℕ → ℕ → ℕ
covers start size a = if leb start a && ltb a (start + size) then 1 else 0

-- How many free regions hold a byte.
unfoldable pub free : Regions → ℕ → ℕ
free [] a = 0
free (r ∷ rs) a = covers r.start_address r.size a + free rs a

end_address-eq_ok :
    (r : FreeMemoryRegion) {end : ℕ}
    → end_address r ≡ ok end
    → (end ≡ r.start_address + r.size) × (end < usize_mod)
unfolding end_address
end_address-eq_ok r {end} q = ground arith

ptr_align-eq_ok :
    (p align end : ℕ) {s : ℕ} → p < usize_mod → ptr_align p align end ≡ ok s → (p ≤ s) × (s < end)
unfolding ptr_align
ptr_align-eq_ok p align end {s} h q =
    >>=-ok-elim (mul_usize (align_offset p align) 8) _ q (λ offset a q1.
      let fits : offset < usize_mod = ground arith in
      let (b, c) = ptr_byte_add_mut-eq_ok p offset end h fits q1 in (omega (arith, b), c))

-- The distance of an end from a start before it.
ptr_byte_offset-eq_ok :
    (end start : ℕ) {f : ℕ}
    → start < end
    → end < usize_mod
    → ptr_byte_offset end start ≡ ok f
    → start + f ≡ end
unfolding ptr_byte_offset
ptr_byte_offset-eq_ok end start {f} h l q = ground arith

-- The three parts of a region that an allocation is taken from: a gap in front for the alignment, the
-- allocation, and the space behind it.
try_allocation-ok :
    (size align : ℕ) (r : FreeMemoryRegion) {start end left : ℕ}
    → size < usize_mod
    → try_allocation size align r ≡ ok (start, end, left)
    → (r.start_address ≤ start)
      × (end ≡ start + size)
      × (end + left ≡ r.start_address + r.size)
      × (16 ≤ left)
unfolding try_allocation
try_allocation-ok size align r {start} {end} {left} fits q =
    >>=-ok-elim (end_address r) _ q (λ region_end a q1.
      >>=-ok-elim (ptr_align r.start_address align region_end) _ q1 (λ s b q2.
        >>=-ok-elim (ptr_byte_add_mut s size region_end) _ q2 (λ e c q3.
          >>=-ok-elim (ptr_byte_offset region_end e) _ q3 (λ f d q4.
            >>=-ok-elim (assure (is_reusable f) out_of_memory) _ q4 (λ u g q5.
              let (a1, a2) = end_address-eq_ok r a in
              let (b1, b2) = ptr_align-eq_ok r.start_address align region_end (omega arith) b in
              let (c1, c2) = ptr_byte_add_mut-eq_ok s size region_end (omega arith) fits c in
              let d1 = ptr_byte_offset-eq_ok region_end e c2 a2 d in
              let (e1, e2, e3) : (s ≡ start) × (e ≡ end) × (f ≡ left) = ground arith in
              let g1 : 16 ≤ f = ground arith in
              (omega arith, omega arith, omega arith, omega arith))))))

reorder : (x y z u v : ℕ) → y ≡ z + v → x + v ≡ u → x + y ≡ z + u
reorder x y z u v a b = omega arith

find_free_memory_region-ok :
    (size align : ℕ) (rs rs' : Regions) (start end left : ℕ)
    → size < usize_mod
    → find_free_memory_region size align rs ≡ ok (some (start, end, left), rs')
    → (r : FreeMemoryRegion) × (r.start_address ≤ start)
      × (end ≡ start + size)
      × (end + left ≡ r.start_address + r.size)
      × ((a : ℕ) → free rs a ≡ covers r.start_address r.size a + free rs' a)
unfolding find_free_memory_region free
find_free_memory_region-ok size align [] rs' start end left fits q = absurd (ground arith)
find_free_memory_region-ok size align (r ∷ rs) rs' start end left fits q =
    elim (Outcome-cases (try_allocation size align r)) [
      | inl ((s, e, f), b) ↦
          let c : (s ≡ start) × (e ≡ end) × (f ≡ left) × (rs ≡ rs') = ground arith in
          let (g, h, i, j) = try_allocation-ok size align r fits b in
          let (c1, c2, c3, c4) = c in
          (
            r,
            omega arith,
            omega arith,
            omega arith,
            (λ a. ap (λ x. covers r.start_address r.size a + free x a) c4),
          )
      | inr (inl (x, b)) ↦
          >>=-ok-elim (find_free_memory_region size align rs) _
            (rw (b, find_free_memory_region) at q)
            (λ (found, rest) c q1.
              let d : (found ≡ some (start, end, left)) × (r ∷ rest ≡ rs') = ground arith in
              let (t, g, h, i, j) =
                find_free_memory_region-ok size align rs rest start end left fits (rw d.0 at c) in
              (
                t,
                g,
                h,
                i,
                (λ a.
                    reorder (covers r.start_address r.size a) (free rs a)
                      (covers t.start_address t.size a) (free rs' a) (free rest a) (j a)
                      (ap (λ y. free y a) d.1)),
              ))
      | inr (inr b) ↦ absurd (ground arith)
    ]

padded-bounds :
    (size align : ℕ)
    → 0 < align
    → (size ≤ padded size align) × (padded size align ≤ size + (align - 1))
unfolding padded
padded-bounds size align h =
    let n = size + (align - 1) in
    let a : n / align * align + n % align ≡ n = div-add-mod' n align in
    let b : n % align < align = mod-lt n h in (omega (arith, a, b), omega (arith, a, b))

pub layout_of-eq_ok :
    (size align : ℕ) {l : Layout}
    → layout_of size align ≡ ok l
    → (l.size ≡ size) × (l.align ≡ align) × (size + (align - 1) ≤ isize_max)
unfolding layout_of
layout_of-eq_ok size align {l} q = ground arith

-- The size that is taken is at least the one that is asked for, and a word.
align_to-bounds :
    (l : Layout) {size align : ℕ}
    → align_to l ≡ ok (size, align)
    → (l.size ≤ size) × (size < usize_mod)
unfolding align_to layout_of
align_to-bounds l {size} {align} q =
    let m = max l.align align_of_region in
    let (a, b) = padded-bounds l.size m (omega arith) in
    >>=-ok-elim (layout_of l.size m) _ q (λ l' c q1.
      let (c1, c2, c3) = layout_of-eq_ok l.size m c in
      let d : max (padded l'.size l'.align) size_of_region ≡ size = ground arith in
      let e : padded l'.size l'.align ≡ padded l.size m = rw (c1, c2) refl in
      (omega (arith, a, d, e), omega (arith, b, c3, d, e)))

-- The gap in front of an allocation, the allocation and the space behind it make up the region that is
-- taken.
covers-split :
    (r : FreeMemoryRegion) (start size end left a : ℕ)
    → r.start_address ≤ start
    → end ≡ start + size
    → end + left ≡ r.start_address + r.size
    → covers r.start_address (start - r.start_address) a + covers start size a + covers end left a
      ≡ covers r.start_address r.size a
covers-split r start size end left a g h i = ground arith

keep_rest-eq_ok :
    (start end left : ℕ) (rest rs' : Regions) (address : ℕ)
    → keep_rest (some (start, end, left)) rest ≡ ok (some address, rs')
    → (start ≡ address) × (rs' ≡ record { start_address = end; size = left } ∷ rest)
unfolding keep_rest add_free_memory_region
keep_rest-eq_ok start end left rest rs' address q =
    >>=-ok-elim (add_free_memory_region end left rest) _ q (λ rs a b.
      let c : rs ≡ record { start_address = end; size = left } ∷ rest = ground arith in
      let d : (start ≡ address) × (rs ≡ rs') = ground arith in (d.0, (sym d.1 ∙ c)))

taken : (p x y z u v w : ℕ) → v ≡ y + z → u ≡ w + z → p + x + y ≡ w → u ≡ p + x + v
taken p x y z u v w a b c = omega arith

-- What is taken is the allocation and the gap in front of it.
pub alloc_dynamic-ok :
    (l : Layout) (rs rs' : Regions) (address : ℕ)
    → alloc_dynamic l rs ≡ ok (some address, rs')
    → (size : ℕ) × (align : ℕ) × (align_to l ≡ ok (size, align))
      × (gap : ℕ) × (gap ≤ address)
      × ((a : ℕ) → free rs a ≡ covers gap (address - gap) a + covers address size a + free rs' a)
unfolding alloc_dynamic free
alloc_dynamic-ok l rs rs' address q = >>=-ok-elim (align_to l) _ q (λ (size, align) b q1.
    >>=-ok-elim (find_free_memory_region size align rs) _ q1 (λ (found, rest) c q2.
      elim (Option-cases found) [
        | inl n ↦ absurd (ground arith)
        | inr ((start, end, left), n) ↦
            let (k1, k2) = keep_rest-eq_ok start end left rest rs' address (rw n at q2) in
            let (e1, e2) = align_to-bounds l b in
            let (r, g, h, i, j) =
              find_free_memory_region-ok size align rs rest start end left e2 (rw n at c) in
            (
              size,
              align,
              b,
              r.start_address,
              subst (λ y. r.start_address ≤ y) k1 g,
              (λ a.
                  taken (covers r.start_address (address - r.start_address) a)
                    (covers address size a) (covers end left a) (free rest a) (free rs a)
                    (free rs' a) (covers r.start_address r.size a) (ap (λ y. free y a) k2) (j a)
                    (subst
                      (λ y.
                        covers r.start_address (y - r.start_address) a
                          + covers y size a
                          + covers end left a
                        ≡ covers r.start_address r.size a)
                      k1 (covers-split r start size end left a g h i))),
            )
      ]))

at_least_region-ok : (l : Layout) {l' : Layout} → at_least_region l ≡ ok l' → l.size ≤ l'.size
unfolding at_least_region layout_of
at_least_region-ok l {l'} q = ground arith

-- Memory that is allocated is at least as large as asked for, every byte of it was free in as many
-- regions as it is now and one more, and no other byte has become free: while no two free regions
-- overlap, it is free no longer.
pub alloc-exclusive :
    (l : Layout) (rs rs' : Regions) (address : ℕ)
    → alloc l rs ≡ ok (address, rs')
    → (size : ℕ) × (l.size ≤ size) × ((a : ℕ) → covers address size a + free rs' a ≤ free rs a)
unfolding alloc try_alloc
alloc-exclusive l rs rs' address q = >>=-ok-elim (at_least_region l) _ q (λ l' a q1.
    >>=-ok-elim (alloc_dynamic l' rs) _ q1 (λ (allocated, rest) b q2.
      elim (Option-cases allocated) [
        | inl n ↦ absurd (ground arith)
        | inr (start, n) ↦
            let c : (start ≡ address) × (rest ≡ rs') = ground arith in
            let d : alloc_dynamic l' rs ≡ ok (some address, rs') = ground arith in
            let (size, align, e, gap, _, f) = alloc_dynamic-ok l' rs rs' address d in
            let (g, _) = align_to-bounds l' e in
            (size, omega (arith, at_least_region-ok l a, g), λ x. omega (arith, f x))
      ]))
