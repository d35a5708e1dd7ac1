-- ===== src/Memory/Page/Content.antt =====
-- What reading, writing, clearing and copying a page do to the memory.
use ace_riscv.Base.{
  Bool, ◌-◌, ℕ, zero, suc, ◌+◌, ◌*◌, ◌/◌, ◌%◌, ◌≤◌, ◌<◌, ◌≡◌, refl, ok, arith, usize_mod, ◌==◌,
  if◌then◌else◌, ◌&&◌, leb, ltb,
}
use native.Mathlib.Nat.{add-zero}
use ace_riscv.Memory.Pointer.{ptr_byte_add_mut-ok}
use ace_riscv.Memory.Layout.{MemoryLayout}
use ace_riscv.Memory.Layout.Laws.{non_confidential-ok}
use ace_riscv.Memory.PageSize.{PageSize, in_bytes, size_4KiB}
use ace_riscv.Memory.Page.{
  copy_from_non_confidential_memory, PageState, Page, Memory, update, write, clear_from, clear,
  copy_from, zeroize, deallocate, unallocated, allocated,
}

-- A token of physical memory: aligned to its size, which ends inside the address space.
pub record IsPage {s : PageState} (p : Page s) : Type 0 where
  pub aligned : p.address % in_bytes p.size ≡ 0
  pub addressable : p.address + in_bytes p.size < usize_mod

abbrev pub IsInside : {s : PageState} → Page s → ℕ → Type 0
IsInside p a = (p.address ≤ a) × (a < p.address + in_bytes p.size)

-- The address of one of `n` words from `lo` on.
abbrev pub is_word_in : ℕ → ℕ → ℕ → Bool
is_word_in lo n a = leb lo a && ltb a (lo + n * 8) && ((a - lo) % 8 == 0)

module _ {s : PageState} (p : Page s) (addressable : p.address + in_bytes p.size < usize_mod) where
  -- A write at an aligned offset inside the page updates the one word.
  pub write-ok :
      (offset value : ℕ) (memory : Memory)
      → offset % 8 ≡ 0
      → offset < in_bytes p.size
      → write p offset value memory ≡ ok (update memory (p.address + offset) value)
  unfolding write
  write-ok offset value memory a h =
      ground (arith, ptr_byte_add_mut-ok p.address offset (p.address + in_bytes p.size))

  pub clear_from-zero :
      (n offset : ℕ) (memory : Memory)
      → offset % 8 ≡ 0
      → offset + n * 8 ≤ in_bytes p.size
      → (m : Memory) × (clear_from n offset p memory ≡ ok m)
        × ((a : ℕ) → m a ≡ (if is_word_in (p.address + offset) n a then 0 else memory a))
  unfolding clear_from
  clear_from-zero zero offset memory a h = (memory, refl, λ x. ground arith)
  clear_from-zero (suc n) offset memory a h =
      let written = write-ok offset 0 memory a (omega arith) in
      let (m, returns, zeroed) =
        clear_from-zero n (offset + 8) (update memory (p.address + offset) 0) (omega arith)
          (omega arith) in
      (m, rw (written, clear_from) returns, λ x. ground (arith, zeroed x))

-- The words of a page.
abbrev pub is_word_of : {s : PageState} → Page s → ℕ → Bool
is_word_of p a = is_word_in p.address (in_bytes p.size / 8) a

words_of_size : (size : PageSize) → (in_bytes size + 7) / 8 ≡ in_bytes size / 8
unfolding in_bytes
words_of_size size_4KiB = refl
words_of_size _ = refl

whole_words : (size : PageSize) → in_bytes size / 8 * 8 ≡ in_bytes size
unfolding in_bytes
whole_words size_4KiB = refl
whole_words _ = refl

clear-zero :
    {s : PageState} (p : Page s) (memory : Memory)
    → p.address + in_bytes p.size < usize_mod
    → (m : Memory) × (clear p memory ≡ ok m)
      × ((a : ℕ) → m a ≡ (if is_word_of p a then 0 else memory a))
unfolding clear
clear-zero p memory fits = rw (words_of_size p.size) (
    rw add-zero at (
      clear_from-zero p fits (in_bytes p.size / 8) 0 memory refl
        (omega (arith, whole_words p.size))))

-- A page that comes back from `deallocate` is the same region, it reads zero at each of its words,
-- and no other word of the memory has changed. It never panics on a page inside the address space.
pub deallocate-zero :
    (p : Page allocated) (memory : Memory)
    → p.address + in_bytes p.size < usize_mod
    → (q : Page unallocated) × (m : Memory) × (deallocate p memory ≡ ok (q, m))
      × (q.address ≡ p.address)
      × (q.size ≡ p.size)
      × ((a : ℕ) → m a ≡ (if is_word_of p a then 0 else memory a))
unfolding deallocate
deallocate-zero p memory fits =
    let (m, returns, zeroed) = clear-zero p memory fits in
    (record { address = p.address; size = p.size }, m, rw returns, refl, refl, zeroed)

-- So does a page that `zeroize` hands to its user.
pub zeroize-zero :
    (p : Page unallocated) (memory : Memory)
    → p.address + in_bytes p.size < usize_mod
    → (q : Page allocated) × (m : Memory) × (zeroize p memory ≡ ok (q, m))
      × (q.address ≡ p.address)
      × (q.size ≡ p.size)
      × ((a : ℕ) → m a ≡ (if is_word_of p a then 0 else memory a))
unfolding zeroize
zeroize-zero p memory fits =
    let (m, returns, zeroed) = clear-zero p memory fits in
    (record { address = p.address; size = p.size }, m, rw returns, refl, refl, zeroed)

module _ (l : MemoryLayout) (p : Page unallocated) (source : ℕ) where
  copy_from-copies :
      (n offset : ℕ) (memory : Memory)
      → p.address + in_bytes p.size < usize_mod
      → l.non_confidential_memory_end ≤ p.address
      → offset % 8 ≡ 0
      → offset + n * 8 ≤ in_bytes p.size
      → source + in_bytes p.size ≤ l.non_confidential_memory_end
      → (m : Memory) × (copy_from l n offset p source memory ≡ ok m)
        × ((a : ℕ)
            → m a ≡ (
                if is_word_in (p.address + offset) n a
                then memory (a - p.address + source)
                else memory a))
  unfolding copy_from
  copy_from-copies zero offset memory fits apart a h k = (memory, refl, λ x. ground arith)
  copy_from-copies (suc n) offset memory fits apart a h k =
      let value = memory (source + offset) in
      let source_ok =
        non_confidential-ok l source offset (omega arith) (omega arith) (omega arith)
          (omega arith) in
      let written = write-ok p fits offset value memory a (omega arith) in
      let (m, returns, copied) =
        copy_from-copies n (offset + 8) (update memory (p.address + offset) value) fits apart
          (omega arith) (omega arith) k in
      (m, rw (source_ok, written, copy_from) returns, λ x. ground (arith, copied x))

-- A page filled from non-confidential memory holds, word for word, the page at the source, and no
-- other word of the memory has changed, for a source that lies in the non-confidential memory and
-- a page that lies behind it.
pub copy_from_non_confidential_memory-copies :
    (l : MemoryLayout) (p : Page unallocated) (source : ℕ) (memory : Memory)
    → p.address + in_bytes p.size < usize_mod
    → l.non_confidential_memory_end ≤ p.address
    → source + in_bytes p.size ≤ l.non_confidential_memory_end
    → (q : Page allocated) × (m : Memory) × (copy_from_non_confidential_memory l p source memory
        ≡ ok (q, m))
      × (q.address ≡ p.address)
      × (q.size ≡ p.size)
      × ((a : ℕ) → m a ≡ (if is_word_of p a then memory (a - p.address + source) else memory a))
unfolding copy_from_non_confidential_memory
copy_from_non_confidential_memory-copies l p source memory fits apart inside =
    let (m, returns, copied) =
      copy_from-copies l p source (in_bytes p.size / 8) 0 memory fits apart refl
        (omega (arith, whole_words p.size)) inside in
    (
      record { address = p.address; size = p.size },
      m,
      rw (words_of_size p.size, returns),
      refl,
      refl,
      (rw add-zero at copied),
    )
