-- ===== src/HeapAllocator/Tests.antt =====
-- core/heap_allocator/allocator.rs: the allocator on concrete layouts and regions.
use ace_riscv.Base.{ℕ, ◌+◌, ◌-◌, ◌≤◌, ◌≡◌, refl, [], ◌∷◌, ok, panic, inr, arith}
use ace_riscv.HeapAllocator.{Regions, Layout, alloc, dealloc}
use ace_riscv.HeapAllocator.Release.{dealloc-alloc}
use ace_riscv.HeapAllocator.Ownership.{covers, free, alloc-exclusive}

abbrev regions : Regions
regions =
    record { start_address = 0x1000; size = 0x20 }
    ∷ record { start_address = 0x2008; size = 0x100 }
    ∷ []

abbrev layout : Layout
layout = record { size = 40; align = 16 }

abbrev rest : Regions
rest =
    record { start_address = 0x2040; size = 0xc8 }
    ∷ record { start_address = 0x1000; size = 0x20 }
    ∷ []

first_fit : alloc layout regions ≡ ok (0x2010, rest)
unfolding alloc
first_fit = refl

freed : dealloc 0x2010 layout rest ≡ ok (record { start_address = 0x2010; size = 48 } ∷ rest)
unfolding dealloc
freed = refl

-- A region is not used up to its last byte.
exactly_full :
    alloc (record { size = 32; align = 8 }) (record { start_address = 0x1000; size = 32 } ∷ [])
    ≡ panic
unfolding alloc
exactly_full = refl

alloc-exclusive_example :
    (size : ℕ) × (40 ≤ size) × ((a : ℕ) → covers 0x2010 size a + free rest a ≤ free regions a)
unfolding alloc
alloc-exclusive_example = alloc-exclusive layout regions rest 0x2010 refl

dealloc-alloc_example :
    (gap : ℕ) × (gap ≤ 0x2010)
    × ((a : ℕ)
        → free (record { start_address = 0x2010; size = 48 } ∷ rest) a + covers gap (0x2010 - gap) a
          ≡ free regions a)
unfolding alloc dealloc
dealloc-alloc_example =
    dealloc-alloc layout regions rest (record { start_address = 0x2010; size = 48 } ∷ rest) 0x2010
      (omega arith) (inr (omega arith)) refl refl
