-- ===== src/Initialization/Tests.antt =====
-- core/initialization/mod.rs on a device tree with a memory just large enough for one hart.
use ace_riscv.Base.{
  ℕ, ◌+◌, ◌≤◌, ◌≡◌, refl, List, [], ◌∷◌, length, none, some, ok, err, panic, if◌then◌else◌, arith,
  ◌<◌, ◌⊎◌, ◌==◌, init, not_enough_memory, not_supported_hardware,
}
use ace_riscv.Memory.Layout.{MemoryLayout}
use ace_riscv.Memory.PageSize.{in_bytes, size_2MiB}
use ace_riscv.Memory.Page.{Page, allocated, unallocated, Memory, zeroize}
use ace_riscv.Memory.Page.Content.{is_word_of, zeroize-zero}
use ace_riscv.Memory.Page.Ownership.{owns, in_range}
use ace_riscv.HeapAllocator.{Regions}
use ace_riscv.HeapAllocator.Ownership
use ace_riscv.Allocator
use ace_riscv.Allocator.{PageAllocator, push}
use ace_riscv.Allocator.Tokens.{free, IsAllocator}
use ace_riscv.Riscv.Csr.{Csr, Csrs, number, medeleg, mtvec, mscratch, pmpaddr0, pmpaddr1}
use ace_riscv.Riscv.Csr.{pmpcfg0}
use ace_riscv.Control.ConfidentialHart.{is_dummy}
use ace_riscv.Control.HardwareHart
use ace_riscv.Control.HardwareHart.{HardwareHart}
use ace_riscv.Memory.Layout.Laws.{IsLayout}
use ace_riscv.Initialization.{
  DeviceTree, Bytes, verify_hart, verify_harts, initialize_memory_layout,
  initalize_security_monitor_state,
}
use ace_riscv.Initialization.Harts.{
  PreparedHart, prepare_harts, SecurityMonitor, init_security_monitor,
}
use ace_riscv.Initialization.Enough.{
  pages_of, needed, heap_of, initalize_security_monitor_state-total,
}
use ace_riscv.Initialization.Stacks.{stacks}
use ace_riscv.Initialization.Separation.{init_security_monitor-separates}

-- "rv64imafdch_zicsr"
abbrev isa : Bytes
isa =
    0x72 ∷ 0x76 ∷ 0x36 ∷ 0x34 ∷ 0x69 ∷ 0x6d ∷ 0x61 ∷ 0x66 ∷ 0x64 ∷ 0x63 ∷ 0x68 ∷ 0x5f ∷ 0x7a ∷ 0x69
    ∷ 0x63 ∷ 0x73 ∷ 0x72 ∷ []

abbrev tree : DeviceTree
tree = record {
  memory = ok (record { base = 0xeb6b_8000; size = 0xa4a_4000 });
  harts = some isa ∷ [];
}

suitable : verify_harts tree ≡ ok 1
unfolding verify_harts
suitable = refl

without_hypervisor :
    verify_hart (some (0x72 ∷ 0x76 ∷ 0x36 ∷ 0x34 ∷ 0x61 ∷ 0x5f ∷ 0x68 ∷ []))
    ≡ err not_supported_hardware
unfolding verify_hart
without_hypervisor = refl

-- A hart without the property, or with a shorter text, ends in a panic and not in an error.
without_isa : verify_hart none ≡ panic
unfolding verify_hart
without_isa = refl

layout :
    initialize_memory_layout tree
    ≡ ok (record {
      non_confidential_memory_start = 0xeb6b_8000;
      non_confidential_memory_end = 0xf5b5_c000;
      confidential_memory_start = 0xf5b5_c000;
      confidential_memory_end = 0x1_0000_0000;
    })
unfolding initialize_memory_layout ace_riscv.Memory.Pointer.ptr_align
    ace_riscv.Memory.Layout.aligned_end
layout = refl

abbrev stack : Page unallocated
stack = record { address = 0xffc0_0000; size = size_2MiB }

abbrev other : Page unallocated
other = record { address = 0xffe0_0000; size = size_2MiB }

abbrev pub memory : Memory
memory a = 7

pub cleared :
    (q : Page allocated) × (m : Memory) × (zeroize stack memory ≡ ok (q, m))
    × (q.address ≡ 0xffc0_0000)
    × (q.size ≡ size_2MiB)
    × ((a : ℕ) → m a ≡ (if is_word_of stack a then 0 else memory a))
unfolding in_bytes
cleared = zeroize-zero stack memory (omega arith)

-- The firmware has put the second entry into the mode TOR.
abbrev pub csrs : ℕ → Csr → ℕ
csrs id r = if number r == number pmpcfg0 then 0x0800 else 0

abbrev pub regions : MemoryLayout
regions = record {
  non_confidential_memory_start = 0xeb6b_8000;
  non_confidential_memory_end = 0xf5b5_c000;
  confidential_memory_start = 0xf5b5_c000;
  confidential_memory_end = 0x1_0000_0000;
}

abbrev heap : Regions
heap = record { start_address = 0xf5b5_c000; size = 0xa0a_4000 } ∷ []

abbrev pub pages : PageAllocator
pages = push (push Allocator.empty stack) other

abbrev pages_left : PageAllocator
pages_left = push Allocator.empty other

abbrev pub harts : List PreparedHart
harts =
    record {
      hart = HardwareHart.init 0x9000 0 (csrs 0);
      stack = cleared.0;
      stack_address = 0xffe0_0000;
    }
    ∷ []

split_memory : initalize_security_monitor_state regions 0xf5b5_c000 0x1_0000_0000 ≡ ok (heap, pages)
unfolding initalize_security_monitor_state Allocator.add_memory_region Allocator.add_tokens
    ace_riscv.Memory.Layout.confidential_address_at_offset_bounded Allocator.chosen_size
    Allocator.shrink_while_unfit ace_riscv.Memory.PageSize.smaller Allocator.largest_aligned
    ace_riscv.Memory.PageSize.larger Allocator.can_create_page push
split_memory = refl

pub prepared : prepare_harts 0x9000 csrs regions 1 pages memory ≡ ok (harts, pages_left, cleared.1)
unfolding prepare_harts HardwareHart.init Allocator.empty ace_riscv.Allocator.Acquire.acquire
    ace_riscv.Allocator.Acquire.acquire_continous_pages_of_given_size Allocator.get push
    Allocator.put ace_riscv.Allocator.Acquire.find_allocation
    ace_riscv.Allocator.Acquire.is_memory_region_continous ace_riscv.Riscv.Registers.empty
    ace_riscv.Riscv.Csr.set ace_riscv.Control.ConfidentialHart.dummy in_bytes
prepared = rw cleared.2 refl

abbrev monitor : SecurityMonitor
monitor = record {
  layout = regions;
  heap = heap;
  pages = pages_left;
  harts = harts;
  memory = cleared.1;
}

initialized : init_security_monitor 0x9000 csrs (ok tree) memory ≡ ok monitor
unfolding init_security_monitor
initialized = rw (layout, split_memory, prepared) refl

init_security_monitor-separates_example :
    IsLayout monitor.layout
    × IsAllocator monitor.layout monitor.pages
    × (length monitor.harts ≡ 1)
    × ((x : ℕ)
        → Ownership.free monitor.heap x + free monitor.pages x + owns (stacks monitor.harts) x
          ≤ in_range monitor.layout.confidential_memory_start monitor.layout.confidential_memory_end
              x)
init_security_monitor-separates_example =
    init_security_monitor-separates 0x9000 csrs tree
      (record { base = 0xeb6b_8000; size = 0xa4a_4000 }) memory refl refl refl (omega arith)
      initialized

abbrev pub small : MemoryLayout
small = record {
  non_confidential_memory_start = 0x8000_0000;
  non_confidential_memory_end = 0x8800_0000;
  confidential_memory_start = 0x8800_0000;
  confidential_memory_end = 0x9000_0000;
}

pub small-IsLayout : IsLayout small
small-IsLayout = record {
  non_confidential_ordered = omega arith;
  regions_disjoint = omega arith;
  confidential_ordered = omega arith;
  start_aligned = refl;
  end_aligned = refl;
  addressable = omega arith;
}

initalize_security_monitor_state-total_example :
    ((needed (pages_of small) < pages_of small)
      × ((pages : PageAllocator) × (initalize_security_monitor_state small 0x8800_0000 0x9000_0000
            ≡ ok (heap_of small ∷ [], pages))))
    ⊎ ((pages_of small ≤ needed (pages_of small))
        × (initalize_security_monitor_state small 0x8800_0000 0x9000_0000
            ≡ err (init not_enough_memory)))
initalize_security_monitor_state-total_example =
    initalize_security_monitor_state-total small small-IsLayout (omega arith)
