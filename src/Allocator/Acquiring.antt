-- ===== src/Allocator/Acquiring.antt =====
-- What a request for pages returns, and what the allocator keeps.
use ace_riscv.Base.{
  ℕ, zero, suc, ◌+◌, ◌-◌, ◌≤◌, ◌<◌, ◌≡◌, refl, ◌⊎◌, inl, inr, true, false, ltb, ◌==◌, [], ◌∷◌,
  length, take, drop, some, Option-cases, Bool-cases, ok, arith, usize_mod,
}
use ace_riscv.Memory.Layout.{MemoryLayout}
use ace_riscv.Memory.PageSize.{PageSize, in_bytes}
use ace_riscv.Memory.Page.{Page, unallocated}
use ace_riscv.Memory.Page.Ownership.{owns}
use ace_riscv.Allocator.{PageAllocator, Pages, get, put, push}
use ace_riscv.Allocator.Tokens.{free, IsToken, AreTokens, IsAllocator, push-free, push-IsAllocator}
use ace_riscv.Allocator.Acquire.{
  is_memory_region_continous, find_allocation, remove_at, acquire_continous_pages_of_given_size,
  acquire, release_pages,
}
use ace_riscv.Allocator.Conservation.{Moves, acquire_of_size-Moves, acquire_of_size_cases}
use ace_riscv.Allocator.Dividing.{divide_pages-Keeps}

-- Pages of one size, one after the other in memory.
abbrev pub IsRun : PageSize → ℕ → Pages → Type 0
IsRun size start [] = Unit
IsRun size start (p ∷ ps) = (p.address ≡ start) × IsRun size (start + in_bytes size) ps

continous-IsRun :
    (l : MemoryLayout) (size : PageSize) (p : Page unallocated) (ps : Pages)
    → AreTokens l size (p ∷ ps)
    → is_memory_region_continous (p ∷ ps) ≡ true
    → IsRun size p.address (p ∷ ps)
unfolding is_memory_region_continous
continous-IsRun l size p [] t h = (refl, tt)
continous-IsRun l size p (q ∷ ps) t h =
    let same : p.size ≡ size = t.0.of_size in
    let next : q.address ≡ p.address + in_bytes size = ground arith in
    (refl, rw (← next) (continous-IsRun l size q ps t.1 (ground arith)))

find_allocation-some :
    (candidates index n : ℕ) (pages : Pages) {found : ℕ}
    → find_allocation candidates index n pages ≡ some found
    → (found < index + candidates) × (is_memory_region_continous (take n (drop found pages)) ≡ true)
unfolding find_allocation
find_allocation-some zero index n pages h = absurd (ground arith)
find_allocation-some (suc candidates) index n pages {found} h =
    elim (Bool-cases (is_memory_region_continous (take n (drop index pages)))) [
      | inl here ↦ let same : index ≡ found = ground arith in (omega arith, rw (← same) here)
      | inr not_here ↦
          let later =
            find_allocation-some candidates (suc index) n pages {found = found} (ground arith) in
          (omega (arith, later.0), later.1)
    ]

length-take-drop :
    (n index : ℕ) (pages : Pages)
    → index + n ≤ length pages
    → length (take n (drop index pages)) ≡ n
length-take-drop zero zero pages h = refl
length-take-drop zero (suc index) [] h = refl
length-take-drop zero (suc index) (p ∷ ps) h = length-take-drop zero index ps (omega arith)
length-take-drop (suc n) zero [] h = absurd (omega arith)
length-take-drop (suc n) zero (p ∷ ps) h = omega (arith, length-take-drop n zero ps (omega arith))
length-take-drop (suc n) (suc index) [] h = absurd (omega arith)
length-take-drop (suc n) (suc index) (p ∷ ps) h = length-take-drop (suc n) index ps (omega arith)

-- What was asked for: nothing, or `n` pages of the size in a row.
abbrev pub IsAnswer : ℕ → PageSize → Pages → Type 0
IsAnswer n size pages = (pages ≡ []) ⊎ ((length pages ≡ n) × ((start : ℕ) × IsRun size start pages))

run-IsAnswer :
    (l : MemoryLayout) (n : ℕ) (size : PageSize) (pages : Pages)
    → length pages ≡ n
    → AreTokens l size pages
    → is_memory_region_continous pages ≡ true
    → IsAnswer n size pages
run-IsAnswer l n size [] len t h = inl refl
run-IsAnswer l n size (p ∷ ps) len t h = inr (len, (p.address, continous-IsRun l size p ps t h))

acquire_of_size-IsAnswer :
    (l : MemoryLayout) (a : PageAllocator) (n : ℕ) (size : PageSize) {pages : Pages}
    {a' : PageAllocator}
    → IsAllocator l a
    → acquire_continous_pages_of_given_size a n size ≡ ok (pages, a')
    → IsAnswer n size pages
acquire_of_size-IsAnswer l a n size {pages} {a'} v h = elim (acquire_of_size_cases a n size h) [
  | inl (e, _) ↦ inl e
  | inr (index, found, e, _) ↦
      let (within, continous) =
        find_allocation-some (length (get a size) - n) 0 n (get a size) found in
      let moves = acquire_of_size-Moves l a n size v h in
      run-IsAnswer l n size pages (rw e (length-take-drop n index (get a size) (omega arith)))
        moves.handed_out (rw e continous)
]

acquire_of_size_total :
    (a : PageAllocator) (n : ℕ) (size : PageSize)
    → 0 < n
    → (pages : Pages) × (a' : PageAllocator) × (acquire_continous_pages_of_given_size a n size
        ≡ ok (pages, a'))
unfolding acquire_continous_pages_of_given_size
acquire_of_size_total a n size pos =
    elim (Option-cases (find_allocation (length (get a size) - n) 0 n (get a size))) [
      | inl e ↦ ([], a, ground arith)
      | inr (index, e) ↦ elim (Bool-cases (ltb (length (get a size)) n)) [
        | inl few ↦ ([], a, ground arith)
        | inr enough ↦
            let (allocated, rest) = remove_at index n (get a size) in
            (allocated, put a size rest, ground arith)
      ]
    ]

module _ (l : MemoryLayout) (fits : l.confidential_memory_end < usize_mod) where
  -- A request for at least one page ends without a panic: it hands out nothing, or the pages asked
  -- for, one after the other in memory; and what is handed out is what the free tokens lose.
  pub acquire-Moves :
      (a : PageAllocator) (n : ℕ) (size : PageSize)
      → 0 < n
      → IsAllocator l a
      → (pages : Pages) × (a' : PageAllocator) × (acquire l a n size ≡ ok (pages, a'))
        × IsAnswer n size pages
        × Moves l size a a' pages
  unfolding acquire owns
  acquire-Moves a n size pos v =
      let (pages, a1, first) = acquire_of_size_total a n size pos in go pages a1 first
    where
      go :
          (pages : Pages) (a1 : PageAllocator)
          → acquire_continous_pages_of_given_size a n size ≡ ok (pages, a1)
          → (pages : Pages) × (a' : PageAllocator) × (acquire l a n size ≡ ok (pages, a'))
            × IsAnswer n size pages
            × Moves l size a a' pages
      go [] a1 first =
          let moved = acquire_of_size-Moves l a n size v first in
          let (a2, divides, kept) = divide_pages-Keeps l fits a1 size moved.still_tokens in
          let (pages, a3, second) = acquire_of_size_total a2 n size pos in
          let moved2 = acquire_of_size-Moves l a2 n size kept.tokens second in
          (
            pages,
            a3,
            rw (first, divides, second),
            acquire_of_size-IsAnswer l a2 n size kept.tokens second,
            record {
              conserved = λ x. omega (arith, moved.conserved x, kept.kept x, moved2.conserved x);
              still_tokens = moved2.still_tokens;
              handed_out = moved2.handed_out;
            },
          )
      go (p ∷ ps) a1 first = (
        p ∷ ps,
        a1,
        rw first,
        acquire_of_size-IsAnswer l a n size v first,
        acquire_of_size-Moves l a n size v first,
      )

-- A request for all tokens of the size finds none of them: the last start index is not tried.
pub acquire_of_size_exact :
    (a : PageAllocator) (n : ℕ) (size : PageSize)
    → 0 < n
    → length (get a size) ≡ n
    → acquire_continous_pages_of_given_size a n size ≡ ok ([], a)
unfolding acquire_continous_pages_of_given_size find_allocation
acquire_of_size_exact a n size pos all =
    let none_left : length (get a size) - n ≡ 0 = omega arith in
    let not_few : ltb (length (get a size)) n ≡ false = ground arith in
    let asked : (n == 0) ≡ false = ground arith in
    rw (not_few, acquire_continous_pages_of_given_size) (rw (asked, none_left))

-- The tokens of a list, each well placed for its own size.
abbrev pub AreReleasable : MemoryLayout → Pages → Type 0
AreReleasable l [] = Unit
AreReleasable l (p ∷ ps) = IsToken l p.size p × AreReleasable l ps

-- Releasing pages gives the allocator the claims of those pages, and nothing else.
pub release_pages-free :
    (l : MemoryLayout) (a : PageAllocator) (ps : Pages)
    → IsAllocator l a
    → AreReleasable l ps
    → IsAllocator l (release_pages a ps)
      × ((x : ℕ) → free (release_pages a ps) x ≡ free a x + owns ps x)
unfolding release_pages owns
release_pages-free l a [] v t = (v, λ x. omega arith)
release_pages-free l a (p ∷ ps) v t =
    let (v', f) = release_pages-free l (push a p) ps (push-IsAllocator l a p t.0 v) t.1 in
    (v', λ x. omega (arith, f x, push-free a p x))

AreTokens-AreReleasable :
    (l : MemoryLayout) (size : PageSize) (ps : Pages) → AreTokens l size ps → AreReleasable l ps
AreTokens-AreReleasable l size [] t = tt
AreTokens-AreReleasable l size (p ∷ ps) t = (token, AreTokens-AreReleasable l size ps t.1)
  where
    token : IsToken l p.size p
    token = record {
      of_size = refl;
      aligned = rw t.0.of_size t.0.aligned;
      inside = rw t.0.of_size t.0.inside;
    }

-- On a confidential memory that ends below `2 ^ 64` and free tokens inside it, a request for at least one
-- page returns, and when the pages it returns are released, the free tokens are again such tokens and
-- every address is as free as before the request.
pub release-acquire :
    (l : MemoryLayout) (a : PageAllocator) (n : ℕ) (size : PageSize)
    → l.confidential_memory_end < usize_mod
    → 0 < n
    → IsAllocator l a
    → (pages : Pages) × (a' : PageAllocator) × (acquire l a n size ≡ ok (pages, a'))
      × IsAllocator l (release_pages a' pages)
      × ((x : ℕ) → free (release_pages a' pages) x ≡ free a x)
release-acquire l a n size fits pos v =
    let (pages, a', returns, _, moved) = acquire-Moves l fits a n size pos v in
    let (v', f) =
      release_pages-free l a' pages moved.still_tokens
        (AreTokens-AreReleasable l size pages moved.handed_out) in
    (pages, a', returns, v', λ x. omega (arith, f x, moved.conserved x))
