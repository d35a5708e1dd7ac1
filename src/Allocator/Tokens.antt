-- ===== src/Allocator/Tokens.antt =====
-- The tokens that a page allocator holds: how often an address is covered, and that each token stands
-- under its size, aligned and inside the confidential memory.
use ace_riscv.Base.{ℕ, ◌+◌, ◌%◌, ◌≤◌, ◌≡◌, refl, [], ◌∷◌, ◌++◌, All, All-append, arith}
use ace_riscv.Memory.Layout.{MemoryLayout}
use ace_riscv.Memory.PageSize.{
  PageSize, in_bytes, size_4KiB, size_2MiB, size_1GiB, size_512GiB, size_128TiB,
}
use ace_riscv.Memory.Page.{Page, unallocated}
use ace_riscv.Memory.Page.Ownership.{owns, owns-append, owns-singleton, covers}
use ace_riscv.Allocator.{PageAllocator, Pages, get, put, push, empty}

-- How many of the free tokens cover the address.
unfoldable pub free : PageAllocator → ℕ → ℕ
free a x =
    owns a.pages_4KiB x
    + owns a.pages_2MiB x
    + owns a.pages_1GiB x
    + owns a.pages_512GiB x
    + owns a.pages_128TiB x

pub record IsToken (l : MemoryLayout) (size : PageSize) (p : Page unallocated) : Type 0 where
  pub of_size : p.size ≡ size
  pub aligned : p.address % in_bytes size ≡ 0
  pub inside : p.address + in_bytes size ≤ l.confidential_memory_end

abbrev pub AreTokens : MemoryLayout → PageSize → Pages → Type 0
AreTokens l size = All (IsToken l size)

abbrev pub IsAllocator : MemoryLayout → PageAllocator → Type 0
IsAllocator l a = (size : PageSize) → AreTokens l size (get a size)

pub empty-free : (x : ℕ) → free empty x ≡ 0
unfolding free empty owns
empty-free x = refl

pub empty-IsAllocator : (l : MemoryLayout) → IsAllocator l empty
unfolding empty get
empty-IsAllocator l size_4KiB = tt
empty-IsAllocator l _ = tt

-- Replacing the list of one size changes the count by the difference of the two lists.
pub put-free :
    (a : PageAllocator) (size : PageSize) (ps : Pages) (x : ℕ)
    → free (put a size ps) x + owns (get a size) x ≡ free a x + owns ps x
unfolding free put get
put-free a size_4KiB ps x = omega arith
put-free a _ ps x = omega arith

pub push-free :
    (a : PageAllocator) (p : Page unallocated) (x : ℕ) → free (push a p) x ≡ free a x + covers p x
unfolding push
push-free a p x = omega (
  arith,
  put-free a p.size (get a p.size ++ p ∷ []) x,
  owns-append (get a p.size) (p ∷ []) x,
  owns-singleton p x,
)

pub get-put_self :
    (a : PageAllocator) (size : PageSize) (ps : Pages) → get (put a size ps) size ≡ ps
unfolding get put
get-put_self a size_4KiB ps = refl
get-put_self a _ ps = refl

pub put-IsAllocator :
    (l : MemoryLayout) (a : PageAllocator) (size : PageSize) (ps : Pages)
    → AreTokens l size ps
    → IsAllocator l a
    → IsAllocator l (put a size ps)
unfolding put get
put-IsAllocator l a size_4KiB ps h v size_4KiB = h
put-IsAllocator l a size_2MiB ps h v size_2MiB = h
put-IsAllocator l a size_1GiB ps h v size_1GiB = h
put-IsAllocator l a size_512GiB ps h v size_512GiB = h
put-IsAllocator l a size_128TiB ps h v size_128TiB = h
put-IsAllocator l a _ ps h v size_4KiB = v size_4KiB
put-IsAllocator l a _ ps h v size_2MiB = v size_2MiB
put-IsAllocator l a _ ps h v size_1GiB = v size_1GiB
put-IsAllocator l a _ ps h v size_512GiB = v size_512GiB
put-IsAllocator l a _ ps h v size_128TiB = v size_128TiB

pub push-IsAllocator :
    (l : MemoryLayout) (a : PageAllocator) (p : Page unallocated)
    → IsToken l p.size p
    → IsAllocator l a
    → IsAllocator l (push a p)
unfolding push
push-IsAllocator l a p h v =
    put-IsAllocator l a p.size (get a p.size ++ p ∷ [])
      (All-append _ (get a p.size) (p ∷ []) (v p.size) (h, tt)) v
