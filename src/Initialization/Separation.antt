-- ===== src/Initialization/Separation.antt =====
-- core/initialization/mod.rs: what the parts of the monitor own after the initialization.
use ace_riscv.Base.{
  ℕ, ◌+◌, ◌/◌, ◌%◌, ◌≤◌, ◌<◌, ◌≡◌, refl, [], ◌∷◌, length, ok, >>=-ok-elim, assert, assure,
  assure_not, map_err, add_usize, mul_usize, usize_mod, init, memory_boundary, not_enough_memory,
  sbi_argument, ltb, none, subst, ◌∙◌, arith, ◌==◌,
}
use ace_riscv.Memory.Pointer.{
  ptr_byte_add_mut, ptr_byte_offset, is_negative, ptr_byte_add_mut-eq_ok,
}
use ace_riscv.Memory.Layout.{MemoryLayout, confidential_address_at_offset}
use ace_riscv.Memory.Layout.Laws.{IsLayout, init_layout-IsLayout}
use ace_riscv.Memory.Page.{Memory}
use ace_riscv.Memory.Page.Ownership.{owns, in_range}
use ace_riscv.HeapAllocator.{Regions, add_free_memory_region}
use ace_riscv.HeapAllocator.Ownership
use ace_riscv.Allocator.{PageAllocator, empty, initialize}
use ace_riscv.Allocator.Tokens.{free, IsAllocator, empty-free, empty-IsAllocator}
use ace_riscv.Allocator.Region.{add_memory_region-Tiles}
use ace_riscv.Riscv.Csr.{Csrs}
use ace_riscv.Initialization.{
  FdtMemoryRegion, DeviceTree, heap_pages, init_heap, initialize_memory_layout,
  initalize_security_monitor_state, verify_each, verify_harts,
}
use ace_riscv.Initialization.Harts.{
  SecurityMonitor, prepare_from, prepare_harts, init_security_monitor,
}
use ace_riscv.Initialization.Stacks.{stacks, prepare_from-conserves}

-- The regions for a memory of the device tree whose start and size are multiples of the word size.
initialize_memory_layout-IsLayout :
    (fdt : DeviceTree) (region : FdtMemoryRegion) {l : MemoryLayout}
    → fdt.memory ≡ ok region
    → region.base % 8 ≡ 0
    → region.size % 8 ≡ 0
    → region.base < usize_mod
    → initialize_memory_layout fdt ≡ ok l
    → IsLayout l
unfolding initialize_memory_layout
initialize_memory_layout-IsLayout fdt region {l} given base_aligned size_aligned fits q =
    >>=-ok-elim (add_usize region.size region.size) _ (rw given at q) (λ size a q1.
      let end = (region.base + size) % usize_mod in
      >>=-ok-elim (map_err (ptr_byte_add_mut region.base region.size end) (init memory_boundary)) _
        q1
        (λ middle b q2.
          let c : ptr_byte_add_mut region.base region.size end ≡ ok middle = ground arith in
          let d : region.size < usize_mod = ground arith in
          let (e, f) = ptr_byte_add_mut-eq_ok region.base region.size end fits d c in
          (init_layout-IsLayout region.base middle middle end (omega (arith, e)) (omega arith)
            q2).0))

init_heap-eq_ok :
    (start size : ℕ) {heap : Regions}
    → init_heap start size ≡ ok heap
    → heap ≡ record { start_address = start; size = size } ∷ []
unfolding init_heap add_free_memory_region
init_heap-eq_ok start size {heap} q = ground arith

heap_end-eq_ok :
    (l : MemoryLayout) (start size : ℕ) {middle : ℕ}
    → start < usize_mod
    → size < usize_mod
    → confidential_address_at_offset l start size ≡ ok middle
    → (middle ≡ start + size) × (middle < l.confidential_memory_end)
unfolding confidential_address_at_offset
heap_end-eq_ok l start size {middle} h g q =
    let e : ptr_byte_add_mut start size l.confidential_memory_end ≡ ok middle = ground arith in
    ptr_byte_add_mut-eq_ok start size l.confidential_memory_end h g e

-- The page allocator on the rest of the confidential memory.
initialize-tiles :
    (l : MemoryLayout) (middle : ℕ) {pages : PageAllocator}
    → IsLayout l
    → middle % 4096 ≡ 0
    → middle < l.confidential_memory_end
    → initialize l none middle l.confidential_memory_end ≡ ok pages
    → IsAllocator l pages × ((x : ℕ) → free pages x ≤ in_range middle l.confidential_memory_end x)
unfolding initialize
initialize-tiles l middle {pages} v aligned below q =
    let end = l.confidential_memory_end in
    let (a, e, returns, t) =
      add_memory_region-Tiles l empty middle end refl v.addressable aligned v.end_aligned below
        (empty-IsAllocator l) in
    let same : a ≡ pages = ground arith in
    (
      rw (← same) t.tokens,
      λ x. rw (← same) (ground (arith, t.covered x, empty-free x, t.up_to_end)),
    )

heap_below :
    (heap : Regions) (start size middle end pages x : ℕ)
    → heap ≡ record { start_address = start; size = size } ∷ []
    → middle ≡ start + size
    → middle < end
    → pages ≤ in_range middle end x
    → Ownership.free heap x + pages ≤ in_range start end x
unfolding Ownership.free
heap_below heap start size middle end pages x e f g h = ground arith

-- The state of the heap and of the page allocator: no byte of the confidential memory is free in both.
initalize_security_monitor_state-separates :
    (l : MemoryLayout) {heap : Regions} {pages : PageAllocator}
    → IsLayout l
    → initalize_security_monitor_state l l.confidential_memory_start l.confidential_memory_end
      ≡ ok (heap, pages)
    → IsAllocator l pages
      × ((x : ℕ)
          → Ownership.free heap x + free pages x
            ≤ in_range l.confidential_memory_start l.confidential_memory_end x)
unfolding initalize_security_monitor_state
initalize_security_monitor_state-separates l {heap} {pages} v q =
    let start = l.confidential_memory_start in
    let end = l.confidential_memory_end in
    >>=-ok-elim (ptr_byte_offset end start) _ q (λ size a q1.
      >>=-ok-elim (assure_not (is_negative size) sbi_argument) _ q1 (λ _ b q2.
        >>=-ok-elim (heap_pages (size / 4096)) _ q2 (λ n c q3.
          >>=-ok-elim (assure (ltb n (size / 4096)) (init not_enough_memory)) _ q3 (λ _ d q4.
            >>=-ok-elim (mul_usize n 4096) _ q4 (λ bytes e q5.
              >>=-ok-elim (confidential_address_at_offset l start bytes) _ q5 (λ middle f q6.
                >>=-ok-elim (init_heap start bytes) _ q6 (λ heap' g q7.
                  >>=-ok-elim (assert (middle % 4096 == 0)) _ q7 (λ _ h q8.
                    >>=-ok-elim (initialize l none middle end) _ q8 (λ pages' i q9.
                      let k : (heap' ≡ heap) × (pages' ≡ pages) = ground arith in
                      let fits = v.addressable in
                      let ordered = v.confidential_ordered in
                      let small : bytes < usize_mod = ground arith in
                      let (m1, m2) = heap_end-eq_ok l start bytes (omega arith) small f in
                      let aligned : middle % 4096 ≡ 0 = ground arith in
                      let (t, u) = initialize-tiles l middle v aligned m2 (rw k.1 at i) in
                      (
                        t,
                        λ x.
                            heap_below heap start bytes middle end (free pages x) x
                              (rw k.0 at (init_heap-eq_ok start bytes g)) m1 m2 (u x),
                      ))))))))))

verify_harts-count : (fdt : DeviceTree) {n : ℕ} → verify_harts fdt ≡ ok n → n ≡ length fdt.harts
unfolding verify_harts
verify_harts-count fdt {n} q = >>=-ok-elim (verify_each fdt.harts) _ q (λ _ a q1. ground arith)

-- Where the monitor is initialized on a memory of the device tree whose start and size are multiples of
-- the word size, the two regions are aligned and disjoint, the page allocator holds tokens inside the
-- confidential memory, each hart of the device tree has its state, and no byte belongs to two of
-- the free heap, the free pages and the stacks of the harts, nor to any of them outside of the
-- confidential memory.
pub init_security_monitor-separates :
    (entry_point : ℕ) (csrs : ℕ → Csrs) (fdt : DeviceTree) (region : FdtMemoryRegion)
    (memory : Memory) {s : SecurityMonitor}
    → fdt.memory ≡ ok region
    → region.base % 8 ≡ 0
    → region.size % 8 ≡ 0
    → region.base < usize_mod
    → init_security_monitor entry_point csrs (ok fdt) memory ≡ ok s
    → IsLayout s.layout
      × IsAllocator s.layout s.pages
      × (length s.harts ≡ length fdt.harts)
      × ((x : ℕ)
          → Ownership.free s.heap x + free s.pages x + owns (stacks s.harts) x
            ≤ in_range s.layout.confidential_memory_start s.layout.confidential_memory_end x)
unfolding init_security_monitor prepare_harts verify_harts
init_security_monitor-separates entry_point csrs fdt region memory {s} given base_aligned
      size_aligned fits q =
    >>=-ok-elim (initialize_memory_layout fdt) _ q (λ l a q1.
      let v = initialize_memory_layout-IsLayout fdt region given base_aligned size_aligned fits a in
      let start = l.confidential_memory_start in
      >>=-ok-elim (initalize_security_monitor_state l start l.confidential_memory_end) _ q1
        (λ (heap, pages) b q2.
          let (t, u) = initalize_security_monitor_state-separates l v b in
          >>=-ok-elim (verify_harts fdt) _ q2 (λ n c q3.
            let count : n ≡ length fdt.harts = verify_harts-count fdt c in
            >>=-ok-elim (prepare_from entry_point csrs l n 0 pages memory) _ q3
              (λ (harts, pages', memory') d q4.
                let (e, f, g) =
                  prepare_from-conserves entry_point csrs l n 0 pages memory v.addressable t d in
                let k : record {
                  layout = l;
                  heap = heap;
                  pages = pages';
                  harts = harts;
                  memory = memory';
                }
                    ≡ s =
                  ground arith in
                (
                  subst (λ y. IsLayout y.layout) k v,
                  subst (λ y. IsAllocator y.layout y.pages) k f,
                  rw (← k) (e ∙ count),
                  λ x. rw (← k) (omega (arith, u x, g x)),
                )))))
