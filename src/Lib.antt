-- ===== src/Lib.antt =====
-- The security monitor of ACE-RISCV: it splits memory into a confidential and a non-confidential part,
-- hands confidential pages to virtual machines, and switches each hardware hart between the hypervisor
-- and a confidential hart, so that confidential memory is open only while a confidential hart runs.
--
-- The parts, with the paths of the sources below security-monitor/src/ unless they begin otherwise:
--
-- Base: helpers. Base/Outcomes models error.rs and the macros of debug.rs: a Rust function that returns
--   a `Result` and can panic is a value of `Outcome`, which is `ok`, `err` or `panic`. Additions,
--   products and differences of `usize` are checked as in a build with overflow checks, so that an
--   overflow is a panic.
-- Memory: core/memory_layout (Memory/Layout), core/page_allocator/page.rs (Memory/Page),
--   core/memory_protector/mmu/page_size.rs (Memory/PageSize) and
--   security-monitor/rust-crates/pointers_utility/src/lib.rs (Memory/Pointer). An address is its
--   number, memory is a function from the address of a word to its value, the state of a page token
--   is an index of its type as in the source.
-- Allocator: core/page_allocator/page_allocator.rs. The map from sizes to tokens is a record with one
--   list for each size. Allocator/Tokens counts how often an address is free: the view in which
--   acquisition, division and release are specified.
-- Mmu: page_table_entry.rs, paging_system.rs, page_table_memory.rs and page_table.rs of
--   core/memory_protector/mmu, and core/page_allocator/shared_page.rs. A page table and its entries are
--   two data types in a mutual block; the memory that the hardware reads is a separate heap, which
--   Mmu/TableCopy and Mmu/Copy fill from the memory of the hypervisor and Mmu/Drop gives back.
--   Mmu/Protector is core/memory_protector/confidential_vm_memory_protector.rs.
-- HeapAllocator: core/heap_allocator, with the list of free regions as data.
-- Initialization: core/initialization/mod.rs: the start of the monitor on the boot hart
--   (`init_security_monitor`, with Harts for the states of the harts) and the setup of each hart (Setup).
-- InterruptController: core/interrupt_controller/mod.rs.
-- Riscv: core/architecture/riscv, and in Riscv/Protection the switches of core/memory_protector. The
--   control and status registers of a hart are a function from the register to its value; registers that
--   are views of others on a hart, as `vsie` is of `hie`, are registers of their own (Riscv/Csr).
--   Riscv/Pmp says which accesses the registers for the protection of physical memory permit, by the
--   RISC-V specification: `IsConfigured` that the first two entries match the confidential memory of
--   a layout and nothing else, `Access` also that all their permissions are given or none is.
-- Control: core/control_data (ConfidentialHart, HardwareHart, ConfidentialVm, Storage and, for what is
--   read from the registers of a hart, Declassify), core/transformations (Requests),
--   confidential_flow/handlers (Handlers, Sharing, Emulation), confidential_flow/control_flow (Exits,
--   Dispatch, Flow), non_confidential_flow/control_flow with its handlers (Router, Flow, Promotion).
--   A handler that does not return in the source is a function from the state of the monitor to the
--   exit it takes. Runs strings the two routers together to the runs of one hardware hart.
--
-- How they interact: `init_security_monitor` computes the memory layout, gives a first part of the
-- confidential memory to the heap and the rest to the page allocator, and takes a page from it for the
-- stack of each hart; the setup of a hart writes the protection registers and directs traps to the
-- monitor. From then on, a trap of a confidential hart enters `route_confidential_flow`, whose handlers
-- change the hart that is assigned to the hardware hart and the confidential VM that owns it
-- (ConfidentialVm, found by Storage) and leave by `exit_to_confidential_hart` or, through
-- `return_confidential_hart`, by `exit_to_hypervisor`. A trap of the hypervisor or of a VM enters
-- `route_non_confidential_flow`: `handle_promote` copies a VM into confidential memory and adds it to
-- the control data, `handle_resume` assigns a hart by `steal_confidential_hart`, `handle_terminate`
-- drops a confidential VM, the other traps go to OpenSBI. Both directions store and load registers
-- (Riscv/HartState) and switch the protection of memory (Riscv/Protection). Page tables are changed by
-- `map_shared_page` and the copy, with pages from the allocator, and give them back when dropped.
--
-- Bounds and fuel: the loops of `add_memory_region` and `divide_pages` run on fuel. That of the first is
-- one more than the number of pages of 4 KiB below the end of confidential memory, as each round moves
-- the address on by at least one such page. That of the second is 9: its rounds go up through the five
-- sizes and down again. Running out of fuel is a panic in both. Everything else is structural recursion.
--
-- Parameters: the sending of an interrupt to another hart (an OpenSBI call behind
-- core/interrupt_controller), the trap handler of OpenSBI, of which the theorems assume that it keeps
-- the registers of the memory protection, the memory and the harts that the device tree crate
-- reads, the registers of the harts and the addresses of their states, and the decoder of the riscv_decode
-- crate. The recursion of a copy on the level is on the number of levels below it, which is what `lower`
-- counts down.
--
-- Not modelled: assembly of the context switches, fences, floating point and vector registers, printing,
-- measurements, locks (each operation on the control data and on the allocators is atomic), the use of the
-- heap by the collections of the monitor, the device tree crate, the OpenSBI bindings and the example
-- guest.

pub mod Base
pub mod Memory
pub mod Allocator
pub mod Mmu
pub mod Riscv
pub mod HeapAllocator
pub mod InterruptController
pub mod Initialization
pub mod Control
