-- ===== src/Initialization/Enough.antt =====
-- core/initialization/mod.rs: for which memories the heap and the page allocator are set up.
use ace_riscv.Base.{
  ℕ, ◌+◌, ◌-◌, ◌*◌, ◌/◌, ◌%◌, ◌^◌, ◌≤◌, ◌<◌, ◌≡◌, refl, ◌⊎◌, inl, inr, lt_cases, [], ◌∷◌, ok, err,
  arith, usize_mod, init, not_enough_memory, none, mul_usize,
}
use ace_riscv.Memory.Pointer.{ptr_byte_offset, ptr_byte_add_mut-ok}
use ace_riscv.Memory.Layout.{MemoryLayout, confidential_address_at_offset}
use ace_riscv.Memory.Layout.Laws.{IsLayout}
use ace_riscv.HeapAllocator.{FreeMemoryRegion, add_free_memory_region}
use ace_riscv.Allocator.{PageAllocator, empty, initialize}
use ace_riscv.Allocator.Tokens.{empty-IsAllocator}
use ace_riscv.Allocator.Region.{add_memory_region-Tiles}
use ace_riscv.Initialization.{heap_pages, init_heap, initalize_security_monitor_state}

-- The pages of the confidential memory, and those that the heap takes of them.
abbrev pub pages_of : MemoryLayout → ℕ
pages_of l = (l.confidential_memory_end - l.confidential_memory_start) / 4096

abbrev pub needed : ℕ → ℕ
needed number_of_pages = 40960 + number_of_pages * 16 / 4096

abbrev pub heap_of : MemoryLayout → FreeMemoryRegion
heap_of l = record {
  start_address = l.confidential_memory_start;
  size = needed (pages_of l) * 4096;
}

heap_pages-ok : (n : ℕ) → n < 2 ^ 51 → heap_pages n ≡ ok (needed n)
unfolding heap_pages
heap_pages-ok n h = ground arith

offset-ok :
    (start end : ℕ)
    → start ≤ end
    → end < 0x8000_0000_0000_0000
    → ptr_byte_offset end start ≡ ok (end - start)
unfolding ptr_byte_offset
offset-ok start end h g = ground arith

init_heap-ok :
    (start size : ℕ)
    → start % 4096 ≡ 0
    → size < 0x7fff_ffff_ffff_ffff
    → 16 ≤ size
    → init_heap start size ≡ ok (record { start_address = start; size = size } ∷ [])
unfolding init_heap add_free_memory_region
init_heap-ok start size a h g = ground arith

heap_end-ok :
    (l : MemoryLayout) (start size : ℕ)
    → start < usize_mod
    → size < usize_mod
    → l.confidential_memory_end < usize_mod
    → start + size < l.confidential_memory_end
    → confidential_address_at_offset l start size ≡ ok (start + size)
unfolding confidential_address_at_offset
heap_end-ok l start size h g k i =
    let e = ptr_byte_add_mut-ok start size l.confidential_memory_end h g (omega arith) i in
    ground (arith, e)

initialize-ok :
    (l : MemoryLayout) (middle : ℕ)
    → IsLayout l
    → middle % 4096 ≡ 0
    → middle < l.confidential_memory_end
    → (pages : PageAllocator) × (initialize l none middle l.confidential_memory_end ≡ ok pages)
unfolding initialize
initialize-ok l middle v aligned below =
    let (a, _, returns, _) =
      add_memory_region-Tiles l empty middle l.confidential_memory_end refl v.addressable aligned
        v.end_aligned below (empty-IsAllocator l) in
    (a, returns)

-- On a layout below `2 ^ 63`, the heap and the page allocator are set up where the confidential memory
-- has more pages than the heap needs: 40960 and one for each 256 pages; the heap is that many pages
-- from the start. Everywhere else the initialization ends with an error, and never with a panic.
pub initalize_security_monitor_state-total :
    (l : MemoryLayout)
    → IsLayout l
    → l.confidential_memory_end < 0x8000_0000_0000_0000
    → ((needed (pages_of l) < pages_of l)
        × ((pages : PageAllocator) × (initalize_security_monitor_state l l.confidential_memory_start
                l.confidential_memory_end
              ≡ ok (heap_of l ∷ [], pages))))
      ⊎ ((pages_of l ≤ needed (pages_of l))
          × (initalize_security_monitor_state l l.confidential_memory_start
                l.confidential_memory_end
              ≡ err (init not_enough_memory)))
unfolding initalize_security_monitor_state
initalize_security_monitor_state-total l v below =
    let start = l.confidential_memory_start in
    let end = l.confidential_memory_end in
    let a = offset-ok start end v.confidential_ordered below in
    let b = heap_pages-ok (pages_of l) (omega arith) in
    let size = needed (pages_of l) * 4096 in
    elim (lt_cases (needed (pages_of l)) (pages_of l)) [
      | inl enough ↦
          let c : mul_usize (needed (pages_of l)) 4096 ≡ ok size = ground arith in
          let inside : start + size < end = omega arith in
          let d = heap_end-ok l start size (omega arith) (omega arith) v.addressable inside in
          let e = init_heap-ok start size v.start_aligned (omega arith) (omega arith) in
          let aligned : (start + size) % 4096 ≡ 0 = omega (arith, v.start_aligned) in
          let (pages, f) = initialize-ok l (start + size) v aligned inside in
          inl (enough, (pages, ground (arith, a, b, c, d, e, aligned, f)))
      | inr few ↦ inr (few, ground (arith, a, b))
    ]
