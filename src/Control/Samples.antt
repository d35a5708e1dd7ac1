-- ===== src/Control/Samples.antt =====
-- Concrete memory for the runs of Control/Tests and Control/FlowTests: an empty root page table, no free
-- page, and a layout with 16 MiB in each region.
use ace_riscv.Base.{ℕ, zero, suc, [], ◌==◌, ◌/◌, refl, if◌then◌else◌, arith}
use ace_riscv.Base.Bits.{bit}
use ace_riscv.Riscv.Csr.{Csr, number, pmpcfg0, pmpaddr0, pmpaddr1}
use ace_riscv.Riscv.Pmp.{Access, IsGranted, IsConfigured}
use ace_riscv.Memory.Layout.{MemoryLayout}
use ace_riscv.Allocator.{empty}
use ace_riscv.Mmu.Paging.{sv57x4, level5}
use ace_riscv.Mmu.TableMemory.{Heap}
use ace_riscv.Mmu.Table.{page_table, nil}
use ace_riscv.Mmu.Protector.{ConfidentialVmMemoryProtector}

abbrev pub protector : ConfidentialVmMemoryProtector
protector = record {
  root_page_table = record {
    paging_system = sv57x4;
    page_table =
        page_table level5 (record { pages = []; number_of_entries = 0; entry_size = 8 }) nil;
  };
  hgatp = 0x1000;
}

abbrev pub heap : Heap
heap = record { memory = λ a. 0; allocator = empty }

abbrev pub layout : MemoryLayout
layout = record {
  non_confidential_memory_start = 0x8000_0000;
  non_confidential_memory_end = 0x8100_0000;
  confidential_memory_start = 0x8100_0000;
  confidential_memory_end = 0x8200_0000;
}

-- The protection registers for the layout, with the value of the configuration, on a hart whose other
-- registers are zero.
abbrev pub guarded : ℕ → Csr → ℕ
guarded value r =
    if number r == number pmpcfg0
    then value
    else if number r == number pmpaddr0
    then layout.confidential_memory_start / 4
    else if number r == number pmpaddr1
    then layout.confidential_memory_end / 4
    else 0

-- The second entry in the mode TOR: without permissions, and both entries with all of them.
abbrev pub closed : ℕ
closed = 0x0800

abbrev pub opened : ℕ
opened = 0x0f07

granted : IsGranted 0 (guarded closed)
unfolding IsGranted bit
granted zero h = (refl, refl)
granted (suc zero) h = (refl, refl)
granted (suc (suc zero)) h = (refl, refl)
granted (suc (suc (suc j))) h = absurd (omega arith)

pub closed-Access : Access layout 0 (guarded closed)
unfolding bit
closed-Access = record {
  configured = record { first_off = refl; second_tor = refl; from_start = refl; to_end = refl };
  granted = granted;
}

pub opened-IsConfigured : IsConfigured layout (guarded opened)
unfolding bit
opened-IsConfigured = record {
  first_off = refl;
  second_tor = refl;
  from_start = refl;
  to_end = refl;
}
