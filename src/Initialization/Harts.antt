-- ===== src/Initialization/Harts.antt =====
-- core/initialization/mod.rs: the states of the physical harts, and the whole initialization on the boot
-- hart. The registers of the processors and the entry point of a dummy hart are parameters.
use ace_riscv.Base.{ℕ, zero, suc, List, [], ◌∷◌, Outcome, ok, panic, ◌>>=◌}
use ace_riscv.Memory.Layout.{MemoryLayout}
use ace_riscv.Memory.PageSize.{size_2MiB}
use ace_riscv.Memory.Page.{Page, allocated, unallocated, Memory, end_address, zeroize}
use ace_riscv.HeapAllocator.{Regions}
use ace_riscv.Allocator.{PageAllocator, Pages}
use ace_riscv.Allocator.Acquire.{acquire_continous_pages}
use ace_riscv.Riscv.Csr.{Csrs}
use ace_riscv.Control.HardwareHart
use ace_riscv.Control.HardwareHart.{HardwareHart}
use ace_riscv.Initialization.{
  DeviceTree, initialize_memory_layout, initalize_security_monitor_state, verify_harts,
}

-- A hardware hart with the stack that it owns.
pub record PreparedHart : Type 0 where
  pub hart : HardwareHart
  pub stack : Page allocated
  pub stack_address : ℕ

-- `pages.remove(0)`
unfoldable pub remove_first : Pages → Outcome (Page unallocated)
remove_first [] = panic
remove_first (p ∷ ps) = ok p

-- The state after the initialization.
pub record SecurityMonitor : Type 0 where
  pub layout : MemoryLayout
  pub heap : Regions
  pub pages : PageAllocator
  pub harts : List PreparedHart
  pub memory : Memory

module _ (entry_point : ℕ) (csrs : ℕ → Csrs) where
  -- `HardwareHart::init`
  unfoldable pub prepare_hart : ℕ → Page unallocated → Memory → Outcome (PreparedHart × Memory)
  unfolding end_address zeroize HardwareHart.init
  prepare_hart id stack memory = do
    stack_address ← end_address stack
    (zeroized, memory') ← zeroize stack memory
    ok (
      record {
        hart = HardwareHart.init entry_point id (csrs id);
        stack = zeroized;
        stack_address = stack_address;
      },
      memory',
    )

  -- The rounds of the loop from a hart id on.
  unfoldable pub prepare_from :
      MemoryLayout
      → ℕ
      → ℕ
      → PageAllocator
      → Memory
      → Outcome (List PreparedHart × PageAllocator × Memory)
  unfolding acquire_continous_pages remove_first prepare_hart
  prepare_from l zero id a memory = ok ([], a, memory)
  prepare_from l (suc n) id a memory = do
    (answer, a') ← acquire_continous_pages l a 1 size_2MiB
    pages ← answer
    stack ← remove_first pages
    (hart, memory') ← prepare_hart id stack memory
    (harts, a'', memory'') ← prepare_from l n (suc id) a' memory'
    ok (hart ∷ harts, a'', memory'')

  unfoldable pub prepare_harts :
      MemoryLayout
      → ℕ
      → PageAllocator
      → Memory
      → Outcome (List PreparedHart × PageAllocator × Memory)
  unfolding prepare_from
  prepare_harts l number_of_harts a memory = prepare_from l number_of_harts 0 a memory

  unfoldable pub init_security_monitor : Outcome DeviceTree → Memory → Outcome SecurityMonitor
  unfolding initialize_memory_layout initalize_security_monitor_state verify_harts prepare_harts
  init_security_monitor from_raw_pointer memory = do
    fdt ← from_raw_pointer
    l ← initialize_memory_layout fdt
    (heap, pages) ←
        initalize_security_monitor_state l l.confidential_memory_start l.confidential_memory_end
    number_of_harts ← verify_harts fdt
    (harts, pages', memory') ← prepare_harts l number_of_harts pages memory
    ok (record { layout = l; heap = heap; pages = pages'; harts = harts; memory = memory' })
