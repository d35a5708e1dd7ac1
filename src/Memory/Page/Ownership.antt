-- ===== src/Memory/Page/Ownership.antt =====
-- Page tokens as claims on addresses: how many tokens of a list cover an address. Tokens are disjoint
-- where no address is covered twice.
use ace_riscv.Base.{
  ℕ, zero, suc, ◌+◌, ◌*◌, ◌/◌, ◌≤◌, ◌<◌, ◌≡◌, refl, List, [], ◌∷◌, ◌++◌, ◌&&◌, leb, ltb,
  if◌then◌else◌, ok, arith, add_usize-ok, usize_mod,
}
use native.Mathlib.Nat.{zero-mul, add-zero}
use ace_riscv.Memory.Layout.{MemoryLayout}
use ace_riscv.Memory.Layout.Laws.{bounded-ok}
use ace_riscv.Memory.PageSize.{PageSize, in_bytes, size_4KiB}
use ace_riscv.Memory.Page.{
  PageState, Page, unallocated, init, divide, divide_from, end_address, smaller_or_same,
}

-- 1 for an address inside the page.
abbrev pub covers : {s : PageState} → Page s → ℕ → ℕ
covers p x = if leb p.address x && ltb x (p.address + in_bytes p.size) then 1 else 0

-- How many of the tokens cover the address.
unfoldable pub owns : {s : PageState} → List (Page s) → ℕ → ℕ
owns [] x = 0
owns (p ∷ ps) x = covers p x + owns ps x

-- 1 for an address of the range.
abbrev pub in_range : ℕ → ℕ → ℕ → ℕ
in_range start end x = if leb start x && ltb x end then 1 else 0

pub owns-append :
    {s : PageState} (ps qs : List (Page s)) (x : ℕ) → owns (ps ++ qs) x ≡ owns ps x + owns qs x
unfolding owns
owns-append [] qs x = omega arith
owns-append (p ∷ ps) qs x = omega (arith, owns-append ps qs x)

pub owns-singleton : {s : PageState} (p : Page s) (x : ℕ) → owns (p ∷ []) x ≡ covers p x
unfolding owns
owns-singleton p x = omega arith

-- `n` pages of one size, one after the other.
unfoldable pub pieces : ℕ → ℕ → PageSize → List (Page unallocated)
pieces zero start size = []
pieces (suc n) start size = init start size ∷ pieces n (start + in_bytes size) size

pub pieces-owns :
    (n start : ℕ) (size : PageSize) (x : ℕ)
    → owns (pieces n start size) x ≡ in_range start (start + n * in_bytes size) x
unfolding owns pieces
pieces-owns zero start size x = ground arith
pieces-owns (suc n) start size x = ground (arith, pieces-owns n (start + in_bytes size) size x)

divide_from-pieces :
    (l : MemoryLayout) (n i address : ℕ) (size : PageSize) (page_end : ℕ)
    → l.confidential_memory_end < usize_mod
    → page_end ≤ l.confidential_memory_end
    → address + (i + n) * in_bytes size ≤ page_end
    → 0 < in_bytes size
    → divide_from l n i address size page_end ≡ ok (pieces n (address + i * in_bytes size) size)
unfolding divide_from pieces
divide_from-pieces l zero i address size page_end fits inside h pos = refl
divide_from-pieces l (suc n) i address size page_end fits inside h pos =
    let rest = divide_from-pieces l n (suc i) address size page_end fits inside (omega arith) pos in
    let start =
      bounded-ok l address (i * in_bytes size) page_end (omega arith) (omega arith) fits inside
        (omega arith) in
    let next : address + suc i * in_bytes size ≡ address + i * in_bytes size + in_bytes size =
      omega arith in
    rw (start, divide_from) (rw (rest, next))

-- A size is a whole number of smaller pages.
pub smaller_size_divides :
    (size : PageSize)
    → in_bytes size / in_bytes (smaller_or_same size) * in_bytes (smaller_or_same size)
      ≡ in_bytes size
unfolding in_bytes smaller_or_same
smaller_size_divides size_4KiB = refl
smaller_size_divides _ = refl

pub in_bytes_pos : (size : PageSize) → 4096 ≤ in_bytes size
unfolding in_bytes
in_bytes_pos size_4KiB = omega arith
in_bytes_pos _ = omega arith

-- Dividing a page of the confidential memory gives the pages of the next smaller size that follow
-- one another from its start, as many as fit.
pub divide-pieces :
    (l : MemoryLayout) (p : Page unallocated)
    → l.confidential_memory_end < usize_mod
    → p.address + in_bytes p.size ≤ l.confidential_memory_end
    → divide l p
      ≡ ok (
          pieces
            (in_bytes p.size / in_bytes (smaller_or_same p.size))
            p.address
            (smaller_or_same p.size))
unfolding divide end_address
divide-pieces l p fits inside =
    let small = smaller_or_same p.size in
    let count = in_bytes p.size / in_bytes small in
    let end = add_usize-ok p.address (in_bytes p.size) (omega arith) in
    let parts =
      divide_from-pieces l count 0 p.address small (p.address + in_bytes p.size) fits inside
        (omega (arith, smaller_size_divides p.size)) (omega (arith, in_bytes_pos small)) in
    rw end (rw (zero-mul, add-zero) at parts)

-- Where a page that ends inside the confidential memory is divided, the new pages cover each address
-- exactly as often as the page did.
pub divide-owns :
    (l : MemoryLayout) (p : Page unallocated) {ps : List (Page unallocated)} (x : ℕ)
    → l.confidential_memory_end < usize_mod
    → p.address + in_bytes p.size ≤ l.confidential_memory_end
    → divide l p ≡ ok ps
    → owns ps x ≡ covers p x
divide-owns l p {ps} x fits inside h =
    let small = smaller_or_same p.size in
    let count = in_bytes p.size / in_bytes small in
    let e : ps ≡ pieces count p.address small = ground (arith, divide-pieces l p fits inside) in
    rw e (ground (arith, pieces-owns count p.address small x, smaller_size_divides p.size))
