-- ===== src/Memory/Page.antt =====
-- core/page_allocator/page.rs. A page token owns `size` bytes from `address`; the type parameter
-- says whether it is allocated. The memory is a function from the addresses of words to words, and
-- `read_volatile` and `write_volatile` are its application and its update.
pub mod Content
pub mod Ownership
use ace_riscv.Base.{
  ℕ, zero, suc, ◌+◌, ◌*◌, ◌/◌, ◌%◌, Bool, ◌==◌, if◌then◌else◌, Option, none, some, List, [], ◌∷◌,
  Outcome, ok, err, panic, ◌>>=◌, ◌>>◌, assure, assert, checked, add_usize,
  memory_access_authorization,
}
use ace_riscv.Memory.Pointer.{word}
use ace_riscv.Memory.Layout.{
  MemoryLayout, address_add, confidential_address_at_offset_bounded,
  non_confidential_address_at_offset,
}
use ace_riscv.Memory.PageSize.{PageSize, in_bytes, smaller}

pub data PageState : Type 0 where
  unallocated allocated : PageState

pub record Page (state : PageState) : Type 0 where
  pub address : ℕ
  pub size : PageSize

abbrev pub Memory : Type 0
Memory = ℕ → ℕ

abbrev pub update : Memory → ℕ → ℕ → Memory
update memory address value a = if a == address then value else memory a

-- `Page::init`
abbrev pub init : {s : PageState} → ℕ → PageSize → Page s
init address size = record { address = address; size = size }

module _ {s : PageState} where
  -- The state of a page is a phantom: a conversion keeps its address and its size.
  abbrev pub convert : {t : PageState} → Page s → Page t
  convert p = record { address = p.address; size = p.size }

  unfoldable pub start_address : Page s → ℕ
  start_address p = p.address

  unfoldable pub end_address : Page s → Outcome ℕ
  end_address p = add_usize p.address (in_bytes p.size)

  unfoldable pub read : Page s → ℕ → Memory → Outcome ℕ
  unfolding end_address address_add
  read p offset_in_bytes memory = do
    assert (offset_in_bytes % word == 0)
    end ← end_address p
    q ← address_add p.address offset_in_bytes end
    ok (memory q)

  unfoldable pub write : Page s → ℕ → ℕ → Memory → Outcome Memory
  unfolding end_address address_add
  write p offset_in_bytes value memory = do
    assure (offset_in_bytes % word == 0) memory_access_authorization
    end ← end_address p
    q ← address_add p.address offset_in_bytes end
    ok (update memory q value)

  -- `for_each` over the offsets `i * 8`, for the last `n` of the `i` below `total`.
  unfoldable pub clear_from : ℕ → ℕ → Page s → Memory → Outcome Memory
  clear_from zero offset p memory = ok memory
  clear_from (suc n) offset p memory = elim (write p offset 0 memory) [
    | ok memory' ↦ clear_from n (offset + word) p memory'
    | err e ↦ panic
    | panic ↦ panic
  ]

  -- The number of offsets of `(0..size.in_bytes()).step_by(size_of::<usize>())`.
  abbrev pub number_of_offsets : Page s → ℕ
  number_of_offsets p = (in_bytes p.size + 7) / word

  unfoldable pub clear : Page s → Memory → Outcome Memory
  clear p memory = clear_from (number_of_offsets p) 0 p memory

-- `zeroize`
unfoldable pub zeroize : Page unallocated → Memory → Outcome (Page allocated × Memory)
zeroize p memory = do memory' ← clear p memory; ok (convert p, memory')

unfoldable pub deallocate : Page allocated → Memory → Outcome (Page unallocated × Memory)
deallocate p memory = do memory' ← clear p memory; ok (convert p, memory')

unfoldable pub copy_from : MemoryLayout → ℕ → ℕ → Page unallocated → ℕ → Memory → Outcome Memory
copy_from l zero offset p source memory = ok memory
copy_from l (suc n) offset p source memory =
    elim (non_confidential_address_at_offset l source offset) [
      | ok q ↦ elim (write p offset (memory q) memory) [
        | ok memory' ↦ copy_from l n (offset + word) p source memory'
        | err e ↦ err e
        | panic ↦ panic
      ]
      | err e ↦ err e
      | panic ↦ panic
    ]

unfoldable pub copy_from_non_confidential_memory :
    MemoryLayout → Page unallocated → ℕ → Memory → Outcome (Page allocated × Memory)
copy_from_non_confidential_memory l p source memory = do
  memory' ← copy_from l (number_of_offsets p) 0 p source memory
  ok (convert p, memory')

-- `smaller.unwrap_or(size)`
unfoldable pub smaller_or_same : PageSize → PageSize
unfolding smaller
smaller_or_same size = elim (smaller size) [ some s ↦ s | none ↦ size ]

-- The tokens of the smaller pages from the `i`-th on, `n` of them. The product of the index and the
-- size is at most the size of the divided page.
unfoldable pub divide_from :
    MemoryLayout → ℕ → ℕ → ℕ → PageSize → ℕ → Outcome (List (Page unallocated))
divide_from l zero i address smaller_page_size page_end = ok []
divide_from l (suc n) i address smaller_page_size page_end =
    elim (confidential_address_at_offset_bounded l address (i * in_bytes smaller_page_size)
      page_end) [
        | ok start ↦ do
          pages ← divide_from l n (suc i) address smaller_page_size page_end
          ok (init start smaller_page_size ∷ pages)
        | err e ↦ panic
        | panic ↦ panic
      ]

unfoldable pub divide : MemoryLayout → Page unallocated → Outcome (List (Page unallocated))
divide l p = do
  let smaller_page_size = smaller_or_same p.size
  page_end ← end_address p
  divide_from l (in_bytes p.size / in_bytes smaller_page_size) 0 p.address smaller_page_size
      page_end
