-- ===== src/Memory/PageSize.antt =====
-- core/memory_protector/mmu/page_size.rs.
use ace_riscv.Base.{ℕ, ◌*◌, Option, none, some, List, [], ◌∷◌}

pub data PageSize : Type 0 where
  size_4KiB size_2MiB size_1GiB size_512GiB size_128TiB : PageSize

pub PageSize-discrete : Discrete PageSize
PageSize-discrete = hlevel

unfoldable pub in_bytes : PageSize → ℕ
in_bytes size_128TiB = 8 * 512 * 512 * 512 * 512 * 256
in_bytes size_512GiB = 8 * 512 * 512 * 512 * 512
in_bytes size_1GiB = 8 * 512 * 512 * 512
in_bytes size_2MiB = 8 * 512 * 512
in_bytes size_4KiB = 8 * 512

unfoldable pub smaller : PageSize → Option PageSize
smaller size_128TiB = some size_512GiB
smaller size_512GiB = some size_1GiB
smaller size_1GiB = some size_2MiB
smaller size_2MiB = some size_4KiB
smaller size_4KiB = none

unfoldable pub larger : PageSize → Option PageSize
larger size_128TiB = none
larger size_512GiB = some size_128TiB
larger size_1GiB = some size_512GiB
larger size_2MiB = some size_1GiB
larger size_4KiB = some size_2MiB

unfoldable pub smallest : PageSize
smallest = size_4KiB

unfoldable pub all_from_largest_to_smallest : List PageSize
all_from_largest_to_smallest = size_128TiB ∷ size_512GiB ∷ size_1GiB ∷ size_2MiB ∷ size_4KiB ∷ []

-- The position of a size in the derived order of the enum.
abbrev pub rank : PageSize → ℕ
rank size_4KiB = 0
rank size_2MiB = 1
rank size_1GiB = 2
rank size_512GiB = 3
rank size_128TiB = 4
