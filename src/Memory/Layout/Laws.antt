-- ===== src/Memory/Layout/Laws.antt =====
-- What MemoryLayout guarantees: aligned, disjoint regions, and offsets that stay inside them.
use ace_riscv.Base.{
  ℕ, ◌+◌, ◌*◌, ◌/◌, ◌%◌, ◌≤◌, ◌<◌, ◌≡◌, >>=-eq-ok, assert, map_err, ltb, leb, ok, err, arith,
  usize_mod, memory_access_authorization,
}
use ace_riscv.Memory.Pointer.{
  ptr_align, ptr_byte_add_mut-eq_ok, ptr_byte_add_mut-ok, ptr_byte_add_mut-overflow,
}
use ace_riscv.Memory.Layout.{
  MemoryLayout, aligned_end, init_layout, confidential_address_at_offset_bounded,
  non_confidential_address_at_offset, non_confidential_address,
}

pub record IsLayout (l : MemoryLayout) : Type 0 where
  pub non_confidential_ordered : l.non_confidential_memory_start < l.non_confidential_memory_end
  pub regions_disjoint : l.non_confidential_memory_end ≤ l.confidential_memory_start
  pub confidential_ordered : l.confidential_memory_start ≤ l.confidential_memory_end
  pub start_aligned : l.confidential_memory_start % 4096 ≡ 0
  pub end_aligned : l.confidential_memory_end % 4096 ≡ 0
  pub addressable : l.confidential_memory_end < usize_mod

-- Aligning a word-aligned address moves it up by less than a page.
ptr_align-page :
    (p end : ℕ) {q : ℕ}
    → p % 8 ≡ 0
    → p < usize_mod
    → ptr_align p 4096 end ≡ ok q
    → (q % 4096 ≡ 0) × (p ≤ q) × (q < p + 4096) × (q < end)
unfolding ptr_align
ptr_align-page p end word fits h = ground arith

aligned_end-page :
    (start end : ℕ) {e : ℕ}
    → start % 4096 ≡ 0
    → start < end
    → end < usize_mod
    → aligned_end start end ≡ ok e
    → (e % 4096 ≡ 0) × (start ≤ e) × (e ≤ end) × (end < e + 4096)
unfolding aligned_end
aligned_end-page start end aligned ordered fits h = ground arith

-- Where `init` on a word-aligned start and an end below `2 ^ 64` returns, its layout has ordered and
-- disjoint regions and a confidential memory that is a whole number of pages inside the given range
-- and loses less than a page at either end.
pub init_layout-IsLayout :
    (nc_start nc_end c_start c_end : ℕ) {l : MemoryLayout}
    → c_start % 8 ≡ 0
    → c_end < usize_mod
    → init_layout nc_start nc_end c_start c_end ≡ ok l
    → IsLayout l
      × (c_start ≤ l.confidential_memory_start)
      × (l.confidential_memory_end ≤ c_end)
      × (l.confidential_memory_start < c_start + 4096)
      × (c_end < l.confidential_memory_end + 4096)
unfolding init_layout
init_layout-IsLayout nc_start nc_end c_start c_end word fits h =
    let (_, a, h1) = >>=-eq-ok (assert (ltb nc_start nc_end)) _ h in
    let (_, b, h2) = >>=-eq-ok (assert (leb nc_end c_start)) _ h1 in
    let (_, c, h3) = >>=-eq-ok (assert (ltb c_start c_end)) _ h2 in
    let (start, d, h4) = >>=-eq-ok (map_err (ptr_align c_start 4096 c_end) _) _ h3 in
    let (end, f, h5) = >>=-eq-ok (aligned_end start c_end) _ h4 in
    ground (arith, ptr_align-page c_start c_end {q = start}, aligned_end-page start c_end {e = end})

ptr_align-page_total :
    (p end : ℕ)
    → p % 8 ≡ 0
    → p + 4096 ≤ end
    → end < usize_mod
    → ptr_align p 4096 end ≡ ok ((p + 4095) / 4096 * 4096)
unfolding ptr_align
ptr_align-page_total p end word room fits = ground arith

aligned_end-page_total :
    (start end : ℕ)
    → start % 4096 ≡ 0
    → start < end
    → end < 0x8000_0000_0000_0000
    → aligned_end start end ≡ ok (end / 4096 * 4096)
unfolding aligned_end
aligned_end-page_total start end aligned ordered fits = ground arith

-- `init` succeeds wherever the non-confidential region is not empty and ends before the confidential
-- one, which has room for a page and a start that is a multiple of the word size.
pub init_layout_total :
    (nc_start nc_end c_start c_end : ℕ)
    → nc_start < nc_end
    → nc_end ≤ c_start
    → c_start % 8 ≡ 0
    → c_start + 4096 ≤ c_end
    → c_end < 0x8000_0000_0000_0000
    → init_layout nc_start nc_end c_start c_end
      ≡ ok (record {
        non_confidential_memory_start = nc_start;
        non_confidential_memory_end = nc_end;
        confidential_memory_start = (c_start + 4095) / 4096 * 4096;
        confidential_memory_end = c_end / 4096 * 4096;
      })
unfolding init_layout
init_layout_total nc_start nc_end c_start c_end nc before word room fits = ground (
  arith,
  ptr_align-page_total c_start c_end word room (omega arith),
  aligned_end-page_total ((c_start + 4095) / 4096 * 4096) c_end,
)

-- An offset address in the confidential memory is the sum, and lies below the end of the region.
pub bounded-eq_ok :
    (l : MemoryLayout) (address offset upper_bound : ℕ) {q : ℕ}
    → address < usize_mod
    → offset < usize_mod
    → confidential_address_at_offset_bounded l address offset upper_bound ≡ ok q
    → (q ≡ address + offset)
      × (q < l.confidential_memory_end)
      × (upper_bound ≤ l.confidential_memory_end)
unfolding confidential_address_at_offset_bounded
bounded-eq_ok l address offset upper_bound {q} ha ho h =
    ground (arith, ptr_byte_add_mut-eq_ok address offset l.confidential_memory_end {q = q})

-- It is given wherever the sum stays below the end of the region and the bound inside it.
pub bounded-ok :
    (l : MemoryLayout) (address offset upper_bound : ℕ)
    → address < usize_mod
    → offset < usize_mod
    → l.confidential_memory_end < usize_mod
    → upper_bound ≤ l.confidential_memory_end
    → address + offset < l.confidential_memory_end
    → confidential_address_at_offset_bounded l address offset upper_bound ≡ ok (address + offset)
unfolding confidential_address_at_offset_bounded
bounded-ok l address offset upper_bound ha ho he hu h =
    ground (arith, ptr_byte_add_mut-ok address offset l.confidential_memory_end)

-- And refused wherever the sum reaches the end of the region.
pub bounded-err :
    (l : MemoryLayout) (address offset upper_bound : ℕ)
    → address < usize_mod
    → offset < usize_mod
    → l.confidential_memory_end < usize_mod
    → l.confidential_memory_end ≤ address + offset
    → confidential_address_at_offset_bounded l address offset upper_bound
      ≡ err memory_access_authorization
unfolding confidential_address_at_offset_bounded
bounded-err l address offset upper_bound ha ho he h =
    ground (arith, ptr_byte_add_mut-overflow address offset l.confidential_memory_end)

-- The upper bound itself is only compared with the end of the region: two bounds inside the region
-- give the same answer, also where the address lies beyond one of them.
pub bounded_ignores_bound :
    (l : MemoryLayout) (address offset upper_bound other : ℕ)
    → upper_bound ≤ l.confidential_memory_end
    → other ≤ l.confidential_memory_end
    → confidential_address_at_offset_bounded l address offset upper_bound
      ≡ confidential_address_at_offset_bounded l address offset other
unfolding confidential_address_at_offset_bounded
bounded_ignores_bound l address offset upper_bound other h k = ground arith

-- No address that the non-confidential interface hands out, by `new` and then at an offset, lies in
-- the confidential memory.
pub non_confidential-outside :
    (l : MemoryLayout) (address offset : ℕ) {base q : ℕ}
    → IsLayout l
    → address < usize_mod
    → offset < usize_mod
    → non_confidential_address l address ≡ ok base
    → non_confidential_address_at_offset l base offset ≡ ok q
    → (l.non_confidential_memory_start ≤ q) × (q < l.confidential_memory_start)
unfolding non_confidential_address non_confidential_address_at_offset
non_confidential-outside l address offset {q = q} v ha ho h k =
    ground (arith, ptr_byte_add_mut-eq_ok address offset l.non_confidential_memory_end {q = q})

pub non_confidential-ok :
    (l : MemoryLayout) (address offset : ℕ)
    → address < usize_mod
    → offset < usize_mod
    → l.non_confidential_memory_end ≤ usize_mod
    → address + offset < l.non_confidential_memory_end
    → non_confidential_address_at_offset l address offset ≡ ok (address + offset)
unfolding non_confidential_address_at_offset
non_confidential-ok l address offset ha ho he h =
    ground (arith, ptr_byte_add_mut-ok address offset l.non_confidential_memory_end)
