-- ===== src/Allocator/Acquire.antt =====
-- core/page_allocator/page_allocator.rs: acquiring and releasing page tokens.
use ace_riscv.Base.{
  ℕ, zero, suc, ◌+◌, ◌-◌, Bool, true, false, ◌&&◌, ltb, ◌==◌, if◌then◌else◌, Option, none, some, [],
  ◌∷◌, ◌++◌, length, take, drop, Outcome, ok, err, panic, ◌>>=◌, out_of_pages,
}
use ace_riscv.Memory.Layout.{MemoryLayout}
use ace_riscv.Memory.PageSize.{PageSize, in_bytes, smaller, larger, rank}
use ace_riscv.Memory.Page.{Page, unallocated, divide}
use ace_riscv.Allocator.{PageAllocator, Pages, get, put, push}

-- Each page ends where the next one starts. Tokens end inside the confidential memory, so
-- `end_address` does not overflow.
unfoldable pub is_memory_region_continous : Pages → Bool
is_memory_region_continous [] = true
is_memory_region_continous (p ∷ []) = true
is_memory_region_continous (p ∷ q ∷ ps) =
    (p.address + in_bytes p.size == q.address) && is_memory_region_continous (q ∷ ps)

-- `find` over `candidates` start indices from `index` on.
unfoldable pub find_allocation : ℕ → ℕ → ℕ → Pages → Option ℕ
find_allocation zero index number_of_pages pages = none
find_allocation (suc candidates) index number_of_pages pages =
    let rest = find_allocation candidates (suc index) number_of_pages pages in
    if is_memory_region_continous (take number_of_pages (drop index pages))
    then some index
    else rest

-- `number_of_pages` times `pages.remove(index)`: what was removed, and what stays.
abbrev pub remove_at : ℕ → ℕ → Pages → Pages × Pages
remove_at index number_of_pages pages = (
  take number_of_pages (drop index pages),
  take index pages ++ drop number_of_pages (drop index pages),
)

-- A request for no page at all underflows `end_index - 1` where there is a token to look at.
unfoldable pub acquire_continous_pages_of_given_size :
    PageAllocator → ℕ → PageSize → Outcome (Pages × PageAllocator)
acquire_continous_pages_of_given_size a number_of_pages size =
    let pages = get a size in
    if ltb (length pages) number_of_pages
    then ok ([], a)
    else if (number_of_pages == 0) && ltb 0 (length pages)
    then panic
    else elim (find_allocation (length pages - number_of_pages) 0 number_of_pages pages) [
      | none ↦ ok ([], a)
      | some index ↦
          let (allocated, rest) = remove_at index number_of_pages pages in
          ok (allocated, put a size rest)
    ]

-- `Vec::pop`
unfoldable pub pop : Pages → Option (Page unallocated × Pages)
pop [] = none
pop (p ∷ ps) = elim (pop ps) [ none ↦ some (p, []) | some (q, qs) ↦ some (q, p ∷ qs) ]

unfoldable pub divide_page :
    MemoryLayout → PageAllocator → PageSize → Outcome (Bool × PageAllocator)
divide_page l a from_size = elim (smaller from_size) [
  | none ↦ ok (false, a)
  | some to_size ↦ elim (pop (get a from_size)) [
    | none ↦ ok (false, a)
    | some (page, rest) ↦ do
      pages ← divide l page
      let a' = put a from_size rest
      ok (true, put a' to_size (get a' to_size ++ pages))
  ]
]

-- The loop of `divide_pages`; `none` is a lack of fuel.
unfoldable pub divide_loop :
    MemoryLayout → ℕ → PageSize → Option PageSize → PageAllocator → Option (Outcome PageAllocator)
divide_loop l fuel page_size none a = some (ok a)
divide_loop l zero page_size (some now) a = none
divide_loop l (suc fuel) page_size (some now) a =
    if rank now == rank page_size then some (ok a) else elim (divide_page l a now) [
      | ok (divided, a') ↦
          let next = if divided then smaller now else larger now in
          divide_loop l fuel page_size next a'
      | err e ↦ some (err e)
      | panic ↦ some panic
    ]

-- At most four rounds up to a size with a token, and four down to the requested one.
unfoldable pub divide_pages : MemoryLayout → PageAllocator → PageSize → Outcome PageAllocator
divide_pages l a page_size = elim (divide_loop l 9 page_size (larger page_size) a) [
  | some r ↦ r
  | none ↦ panic
]

unfoldable pub acquire :
    MemoryLayout → PageAllocator → ℕ → PageSize → Outcome (Pages × PageAllocator)
acquire l a number_of_pages size = do
  (available_pages, a') ← acquire_continous_pages_of_given_size a number_of_pages size
  elim available_pages [
    | [] ↦ do
      a'' ← divide_pages l a' size
      acquire_continous_pages_of_given_size a'' number_of_pages size
    | p ∷ ps ↦ ok (p ∷ ps, a')
  ]

-- The caller drops the lock before it tests the result, so the allocator is changed on the error too.
unfoldable pub acquire_continous_pages :
    MemoryLayout → PageAllocator → ℕ → PageSize → Outcome (Outcome Pages × PageAllocator)
acquire_continous_pages l a number_of_pages size = do
  (pages, a') ← acquire l a number_of_pages size
  elim pages [ [] ↦ ok (err out_of_pages, a') | p ∷ ps ↦ ok (ok (p ∷ ps), a') ]

unfoldable pub release_pages : PageAllocator → Pages → PageAllocator
release_pages a [] = a
release_pages a (p ∷ ps) = release_pages (push a p) ps

unfoldable pub release_page : PageAllocator → Page unallocated → PageAllocator
unfolding release_pages
release_page a p = release_pages a (p ∷ [])
