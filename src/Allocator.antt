-- ===== src/Allocator.antt =====
-- core/page_allocator/page_allocator.rs. The map has a key for every page size, so it is a record
-- with one list of tokens for each. The static PAGE_ALLOCATOR and its lock are explicit state.
pub mod Tokens
pub mod Region
pub mod Acquire
pub mod Conservation
pub mod Dividing
pub mod Acquiring
mod Tests
use ace_riscv.Base.{
  ℕ, zero, suc, ◌+◌, ◌-◌, ◌*◌, ◌/◌, ◌%◌, ◌≤◌, ◌<◌, Bool, true, false, not, ◌&&◌, ◌||◌, ltb, leb,
  ◌==◌, if◌then◌else◌, Option, none, some, List, [], ◌∷◌, ◌++◌, length, take, drop, Outcome, ok,
  err, panic, ◌>>=◌, ◌>>◌, assert, assure_not, is_ok, out_of_pages, reinitialization,
}
use ace_riscv.Memory.Layout.{MemoryLayout, confidential_address_at_offset_bounded, is_aligned_to}
use ace_riscv.Memory.PageSize.{
  PageSize, in_bytes, smaller, larger, smallest, rank, size_4KiB, size_2MiB, size_1GiB, size_512GiB,
  size_128TiB,
}
use ace_riscv.Memory.Page.{Page, unallocated, init, divide}

abbrev pub Pages : Type 0
Pages = List (Page unallocated)

pub record PageAllocator : Type 0 where
  pub pages_4KiB : Pages
  pub pages_2MiB : Pages
  pub pages_1GiB : Pages
  pub pages_512GiB : Pages
  pub pages_128TiB : Pages

-- `self.map.get_mut(&size).unwrap()`
unfoldable pub get : PageAllocator → PageSize → Pages
get a size_4KiB = a.pages_4KiB
get a size_2MiB = a.pages_2MiB
get a size_1GiB = a.pages_1GiB
get a size_512GiB = a.pages_512GiB
get a size_128TiB = a.pages_128TiB

unfoldable pub put : PageAllocator → PageSize → Pages → PageAllocator
put a size_4KiB ps = record a { pages_4KiB = ps }
put a size_2MiB ps = record a { pages_2MiB = ps }
put a size_1GiB ps = record a { pages_1GiB = ps }
put a size_512GiB ps = record a { pages_512GiB = ps }
put a size_128TiB ps = record a { pages_128TiB = ps }

unfoldable pub push : PageAllocator → Page unallocated → PageAllocator
push a p = put a p.size (get a p.size ++ p ∷ [])

unfoldable pub empty : PageAllocator
empty = record {
  pages_4KiB = [];
  pages_2MiB = [];
  pages_1GiB = [];
  pages_512GiB = [];
  pages_128TiB = [];
}

-- The closure `can_create_page` of `add_memory_region`.
unfoldable pub can_create_page : MemoryLayout → ℕ → ℕ → PageSize → Bool
can_create_page l region_end address size =
    is_ok (confidential_address_at_offset_bounded l address (in_bytes size - 1) region_end)

-- The loop to the largest size that the address is aligned to. There are five sizes, so five rounds
-- end it.
unfoldable pub largest_aligned : ℕ → ℕ → PageSize → PageSize
largest_aligned zero address size = size
largest_aligned (suc rounds) address size = elim (larger size) [
  | none ↦ size
  | some larger_size ↦
      let rest = largest_aligned rounds address larger_size in
      if is_aligned_to address (in_bytes larger_size) then rest else size
]

-- The loop that follows it: to the next smaller size as long as that one does not fit.
unfoldable pub shrink_while_unfit : MemoryLayout → ℕ → ℕ → ℕ → PageSize → PageSize
shrink_while_unfit l region_end zero address size = size
shrink_while_unfit l region_end (suc rounds) address size = elim (smaller size) [
  | none ↦ size
  | some smaller_size ↦
      let rest = shrink_while_unfit l region_end rounds address smaller_size in
      if not (can_create_page l region_end address smaller_size) then rest else size
]

unfoldable pub chosen_size : MemoryLayout → ℕ → ℕ → PageSize → PageSize
chosen_size l region_end address size =
    shrink_while_unfit l region_end 5 address (largest_aligned 5 address size)

-- The outer loop of `add_memory_region`; `none` is a lack of fuel.
unfoldable pub add_tokens :
    MemoryLayout → ℕ → ℕ → ℕ → PageSize → PageAllocator → Option PageAllocator
add_tokens l region_end zero address size a = none
add_tokens l region_end (suc fuel) address size a =
    let size' = chosen_size l region_end address size in
    let next = confidential_address_at_offset_bounded l address (in_bytes size') region_end in
    let a' =
      if is_ok next || can_create_page l region_end address size'
      then push a (init address size')
      else a in
    elim next [
      | ok address' ↦ add_tokens l region_end fuel address' size' a'
      | err e ↦ some a'
      | panic ↦ some a'
    ]

-- Each round moves the address up by a page inside the confidential memory: that bounds the rounds.
abbrev pub rounds_below : ℕ → ℕ
rounds_below end = suc (end / 4096)

unfoldable pub add_memory_region : MemoryLayout → PageAllocator → ℕ → ℕ → Outcome PageAllocator
add_memory_region l a region_start region_end = do
  assert (is_aligned_to region_start (in_bytes smallest))
  assert (is_aligned_to region_end (in_bytes smallest))
  assert (ltb region_start region_end)
  elim (add_tokens l region_end (rounds_below l.confidential_memory_end) region_start smallest a) [
    | some a' ↦ ok a'
    | none ↦ panic
  ]

-- `PageAllocator::initialize`; the static is `none` before.
unfoldable pub initialize : MemoryLayout → Option PageAllocator → ℕ → ℕ → Outcome PageAllocator
initialize l none memory_start memory_end = add_memory_region l empty memory_start memory_end
initialize l (some a) memory_start memory_end = err reinitialization
