-- ===== src/Mmu/Paging.antt =====
-- core/memory_protector/mmu/paging_system.rs: the geometry of the Sv57x4 second-level page tables.
use ace_riscv.Base.{ℕ, ◌+◌, ◌*◌, ◌/◌, ◌^◌, ◌<◌, ◌≡◌, Option, none, some, bit_and, arith}
use ace_riscv.Base.Bits.{bit_and_mask}
use ace_riscv.Memory.PageSize.{
  PageSize, size_4KiB, size_2MiB, size_1GiB, size_512GiB, size_128TiB, in_bytes,
}

pub data PagingSystem : Type 0 where
  sv57x4 : PagingSystem

pub data PageTableLevel : Type 0 where
  level5 level4 level3 level2 level1 : PageTableLevel

unfoldable pub levels : PagingSystem → PageTableLevel
levels sv57x4 = level5

unfoldable pub lower : PageTableLevel → Option PageTableLevel
lower level5 = some level4
lower level4 = some level3
lower level3 = some level2
lower level2 = some level1
lower level1 = none

unfoldable pub entry_size : PagingSystem → ℕ
entry_size sv57x4 = 8

-- The root table of a second-level page table has 2 more bits.
unfoldable pub entries : PagingSystem → PageTableLevel → ℕ
entries sv57x4 level5 = 2 ^ 11
entries sv57x4 level4 = 2 ^ 9
entries sv57x4 level3 = 2 ^ 9
entries sv57x4 level2 = 2 ^ 9
entries sv57x4 level1 = 2 ^ 9

unfoldable pub size_in_bytes : PagingSystem → PageTableLevel → ℕ
unfolding entries entry_size
size_in_bytes s level = entries s level * entry_size s

unfoldable pub configuration_pages : PagingSystem → PageTableLevel → ℕ
unfolding size_in_bytes
configuration_pages s level = size_in_bytes s level / in_bytes size_4KiB

unfoldable pub vpn : PagingSystem → ℕ → PageTableLevel → ℕ
vpn sv57x4 virtual_address level5 = bit_and (virtual_address / 2 ^ 48) 0x3ff
vpn sv57x4 virtual_address level4 = bit_and (virtual_address / 2 ^ 39) 0x1ff
vpn sv57x4 virtual_address level3 = bit_and (virtual_address / 2 ^ 30) 0x1ff
vpn sv57x4 virtual_address level2 = bit_and (virtual_address / 2 ^ 21) 0x1ff
vpn sv57x4 virtual_address level1 = bit_and (virtual_address / 2 ^ 12) 0x1ff

unfoldable pub page_size : PagingSystem → PageTableLevel → PageSize
page_size s level5 = size_128TiB
page_size s level4 = size_512GiB
page_size s level3 = size_1GiB
page_size s level2 = size_2MiB
page_size s level1 = size_4KiB

pub vpn-lt : (s : PagingSystem) (a : ℕ) (level : PageTableLevel) → vpn s a level < entries s level
unfolding vpn entries
vpn-lt sv57x4 a level5 = omega (arith, bit_and_mask 10 (a / 2 ^ 48))
vpn-lt sv57x4 a level4 = omega (arith, bit_and_mask 9 (a / 2 ^ 39))
vpn-lt sv57x4 a level3 = omega (arith, bit_and_mask 9 (a / 2 ^ 30))
vpn-lt sv57x4 a level2 = omega (arith, bit_and_mask 9 (a / 2 ^ 21))
vpn-lt sv57x4 a level1 = omega (arith, bit_and_mask 9 (a / 2 ^ 12))

pub vpn_ignores_top_bit :
    (s : PagingSystem) (a : ℕ) (level : PageTableLevel) → vpn s (a + 2 ^ 58) level ≡ vpn s a level
unfolding vpn
vpn_ignores_top_bit sv57x4 a level5 =
    omega (arith, bit_and_mask 10 (a / 2 ^ 48), bit_and_mask 10 ((a + 2 ^ 58) / 2 ^ 48))
vpn_ignores_top_bit sv57x4 a level4 =
    omega (arith, bit_and_mask 9 (a / 2 ^ 39), bit_and_mask 9 ((a + 2 ^ 58) / 2 ^ 39))
vpn_ignores_top_bit sv57x4 a level3 =
    omega (arith, bit_and_mask 9 (a / 2 ^ 30), bit_and_mask 9 ((a + 2 ^ 58) / 2 ^ 30))
vpn_ignores_top_bit sv57x4 a level2 =
    omega (arith, bit_and_mask 9 (a / 2 ^ 21), bit_and_mask 9 ((a + 2 ^ 58) / 2 ^ 21))
vpn_ignores_top_bit sv57x4 a level1 =
    omega (arith, bit_and_mask 9 (a / 2 ^ 12), bit_and_mask 9 ((a + 2 ^ 58) / 2 ^ 12))

-- Two addresses below `2 ^ 58` that select the same entry at every level lie in the same page of 4
-- KiB.
pub same_entries :
    (s : PagingSystem) (a b : ℕ)
    → a < 2 ^ 58
    → b < 2 ^ 58
    → ((level : PageTableLevel) → vpn s a level ≡ vpn s b level)
    → a / 4096 ≡ b / 4096
unfolding vpn
same_entries sv57x4 a b ha hb h = omega (
  arith,
  h level5,
  h level4,
  h level3,
  h level2,
  h level1,
  bit_and_mask 10 (a / 2 ^ 48),
  bit_and_mask 10 (b / 2 ^ 48),
  bit_and_mask 9 (a / 2 ^ 39),
  bit_and_mask 9 (b / 2 ^ 39),
  bit_and_mask 9 (a / 2 ^ 30),
  bit_and_mask 9 (b / 2 ^ 30),
  bit_and_mask 9 (a / 2 ^ 21),
  bit_and_mask 9 (b / 2 ^ 21),
  bit_and_mask 9 (a / 2 ^ 12),
  bit_and_mask 9 (b / 2 ^ 12),
)
