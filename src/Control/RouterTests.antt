-- ===== src/Control/RouterTests.antt =====
-- non_confidential_flow and confidential_flow/control_flow: a promotion, and traps that stop the monitor.
use ace_riscv.InterruptController
use ace_riscv.Base.{
  ℕ, ◌<◌, ◌≡◌, ◌≢◌, ◌↔◌, refl, inl, none, [], ◌∷◌, length, Outcome, ok, panic, arith,
}
use ace_riscv.Memory.Page.{Memory, init}
use ace_riscv.Memory.PageSize.{size_4KiB}
use ace_riscv.Riscv.Csr.{set, mcause}
use ace_riscv.Riscv.Registers.{a6, a7}
use ace_riscv.Riscv.HartState.{HartArchitecturalState, set_gpr, empty}
use ace_riscv.Riscv.Sbi.{ace_extid}
use ace_riscv.Riscv.CompressedInstructions.{DecodedInstruction, other}
use ace_riscv.Mmu.Paging.{sv57x4, level1}
use ace_riscv.Mmu.Entry.{shared_page_configuration, shared_page_permission}
use ace_riscv.Mmu.Table.{page_table, leaf, nil, cons}
use ace_riscv.Mmu.Protector.{ConfidentialVmMemoryProtector}
use ace_riscv.Control.HardwareHart
use ace_riscv.Control.ConfidentialVm
use ace_riscv.Control.ConfidentialVm.{ConfidentialVm}
use ace_riscv.Control.ConfidentialVm.Switching.{WellFormed}
use ace_riscv.Control.ConfidentialVm.Broadcast.{Bounded}
use ace_riscv.Control.Storage.{ControlData, lookup, confidential_vm}
use ace_riscv.Control.Exits.{Monitor}
use ace_riscv.Control.Samples.{heap, layout}
use ace_riscv.Control.Promotion.{register_confidential_vm, max_number_of_harts_per_vm}
use ace_riscv.Control.Promotion.Registration.{register_confidential_vm-WellFormed}
use ace_riscv.Control.Flow.{route_confidential_flow}
use ace_riscv.Riscv.Sbi
use ace_riscv.Control.Emulation.{probe_response}
use ace_riscv.Control.Dispatch.Panics.{probe_response-decode}
use ace_riscv.Control.Flow.Panics.{
  route_confidential_flow-unknown, route_confidential_flow-even_fault,
}

-- A table in one page that maps the first page of the guest.
abbrev protector : ConfidentialVmMemoryProtector
protector = record {
  root_page_table = record {
    paging_system = sv57x4;
    page_table =
        page_table level1
          (record {
            pages = init 0x8100_0000 size_4KiB ∷ [];
            number_of_entries = 1;
            entry_size = 8;
          })
          (cons (leaf (init 0x8100_1000 size_4KiB) shared_page_configuration shared_page_permission)
            nil);
  };
  hgatp = 0;
}

abbrev calling : Monitor
calling = record {
  control_data = [];
  hardware_hart = HardwareHart.init 0x8000 3 (λ r. 0);
  heap = heap;
  memory_layout = layout;
}

abbrev two_harts : ℕ → Memory → Outcome ℕ
two_harts address memory = ok 2

abbrev registered : Outcome (ℕ × ControlData)
registered = register_confidential_vm 0x8000 two_harts 0x10 (empty 3) protector calling

abbrev data_of : Outcome (ℕ × ControlData) → ControlData
data_of (ok (id, d)) = d
data_of x = []

registers :
    register_confidential_vm 0x8000 two_harts 0x10 (empty 3) protector calling
    ≡ ok (0, data_of registered)
unfolding register_confidential_vm ace_riscv.Mmu.Protector.translate ace_riscv.Mmu.Table.translate
    ConfidentialVm.new ace_riscv.Mmu.Protector.set_confidential_vm_id ace_riscv.Mmu.Paging.vpn
    ConfidentialVm.assemble ace_riscv.Mmu.Table.address
registers = refl

register_confidential_vm-WellFormed_example :
    (vm : ConfidentialVm) × (confidential_vm 0 (data_of registered) ≡ ok vm)
    × (lookup 0 calling.control_data ≡ none)
    × WellFormed vm
    × Bounded vm
    × (length vm.confidential_harts < max_number_of_harts_per_vm)
    × ((other : ℕ)
        → other ≢ 0
        → lookup other (data_of registered) ≡ lookup other calling.control_data)
register_confidential_vm-WellFormed_example =
    register_confidential_vm-WellFormed 0x8000 two_harts 0x10 (empty 3) protector calling 0
      (data_of registered) registers

abbrev send_ipi : ℕ → Outcome (Unit {0})
unfolding InterruptController.send_ipi
send_ipi = InterruptController.send_ipi (λ mask base. 0)

abbrev decode : ℕ → DecodedInstruction
decode n = other

abbrev instruction_length : ℕ → ℕ
instruction_length n = 4

-- A hart traps for a cause, with an extension and a function in its registers.
abbrev trapping : (cause extension_id function_id : ℕ) → Monitor
trapping cause extension_id function_id = record calling {
  hardware_hart = record calling.hardware_hart {
    csrs = set mcause cause (λ r. 0);
    confidential_hart = record calling.hardware_hart.confidential_hart {
      state = set_gpr a6 function_id (set_gpr a7 extension_id (empty 0));
    };
  };
}

route_confidential_flow-unknown_example :
    route_confidential_flow 0x9000 send_ipi decode instruction_length
      (trapping 10 ace_extid 0x10000)
    ≡ panic
unfolding set_gpr empty set ace_riscv.Control.Emulation.probe_response ace_riscv.Riscv.HartState.gpr
    ace_riscv.Riscv.Registers.set
route_confidential_flow-unknown_example =
    route_confidential_flow-unknown 0x9000 send_ipi decode instruction_length
      (trapping 10 ace_extid 0x10000) refl refl (omega arith)

route_confidential_flow-even_fault_example :
    route_confidential_flow 0x9000 send_ipi decode instruction_length (trapping 0x15 0 0) ≡ panic
unfolding set
route_confidential_flow-even_fault_example =
    route_confidential_flow-even_fault 0x9000 send_ipi decode instruction_length (trapping 0x15 0 0)
      (inl refl) refl

probe_response-decode_example :
    (probe_response 0x10 ≡ 0) ↔ (Sbi.decode 0x10 3 ≡ Sbi.SbiExtension.unknown 0x10 3)
probe_response-decode_example = probe_response-decode 0x10 3
