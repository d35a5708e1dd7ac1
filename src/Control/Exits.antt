-- ===== src/Control/Exits.antt =====
-- What confidential_flow/control_flow and non_confidential_flow/control_flow do to change the flow and
-- to leave the security monitor, to the hypervisor or to the confidential hart. The address of a hart's
-- state and the interrupt controller's `send_ipi` are parameters.
use ace_riscv.Base.{ℕ, none, some, bit_or, Outcome, ok, err, panic, ◌>>=◌, ◌>>◌, assert}
use ace_riscv.Memory.Layout.{MemoryLayout}
use ace_riscv.Mmu.TableMemory.{Heap}
use ace_riscv.Riscv.Csr.{set, mepc, mstatus, hvip, vsip, sscratch}
use ace_riscv.Control.Requests.{failure, PendingRequest, ExposeToConfidentialVm, result}
use ace_riscv.Control.ConfidentialHart
use ace_riscv.Control.ConfidentialHart.{
  ConfidentialHart, shutdown, same, sbi_code, is_dummy, confidential_hart_id, take_request,
}
use ace_riscv.Control.HardwareHart
use ace_riscv.Control.HardwareHart.{
  HardwareHart, ExposeToHypervisor, sbi_request, sbi_result, mmio_load_request, interrupt_request,
  swap_mscratch,
}
use ace_riscv.Mmu.Drop.{drop_table}
use ace_riscv.Control.ConfidentialVm.{ConfidentialVm, return_confidential_hart}
use ace_riscv.Control.Storage.{ControlData, confidential_vm, update}

-- The hardware hart that executes the security monitor, and its statics: the control data, the memory
-- with the page allocator, and the memory layout.
pub record Monitor : Type 0 where
  pub control_data : ControlData
  pub hardware_hart : HardwareHart
  pub heap : Heap
  pub memory_layout : MemoryLayout

pub data Exit : Type 0 where
  to_hypervisor to_confidential_hart : Monitor → Exit

-- `into_confidential_transformation` and `into_non_confidential_transformation`
abbrev pub confidential_error : ExposeToConfidentialVm
confidential_error = result (failure 0x1000)

abbrev pub non_confidential_error : ExposeToHypervisor
non_confidential_error = sbi_result (failure 0x1000)

-- `self.confidential_vm_id()`, which expects a hart that is not a dummy one.
unfoldable pub current_vm_id : Monitor → Outcome ℕ
current_vm_id m = elim m.hardware_hart.confidential_hart.confidential_vm_id [
  | none ↦ panic
  | some id ↦ ok id
]

abbrev pub with_hart : ConfidentialHart → Monitor → Monitor
with_hart h m = record m { hardware_hart = record m.hardware_hart { confidential_hart = h } }

-- The drop of a confidential VM gives back the pages of its page table.
unfoldable pub drop_confidential_vm : ConfidentialVm → Monitor → Outcome Monitor
unfolding drop_table
drop_confidential_vm vm m = do
  heap ← drop_table vm.memory_protector.root_page_table.page_table m.heap
  ok (record m { heap = heap })

-- `unwrap()`
abbrev pub unwrap {ℓ} : {A : Type ℓ} → Outcome A → Outcome A
unwrap (ok a) = ok a
unwrap (err e) = panic
unwrap panic = panic

unfoldable pub into_non_confidential_flow : Monitor → Outcome Monitor
unfolding current_vm_id confidential_vm update return_confidential_hart is_dummy
into_non_confidential_flow m = do
  id ← current_vm_id m
  vm ← unwrap (confidential_vm id m.control_data)
  (vm', w) ← return_confidential_hart vm m.hardware_hart
  assert (is_dummy w.confidential_hart)
  ok (record m { control_data = update vm' m.control_data; hardware_hart = w })

-- `apply` and `load_volatile_control_status_registers_from_main_memory`
unfoldable pub exit_to_hypervisor : ExposeToHypervisor → Monitor → Outcome Exit
unfolding set
exit_to_hypervisor t m = do
  w ← HardwareHart.apply t m.hardware_hart
  let csrs =
      set mstatus (w.non_confidential.csrs mstatus) (set mepc (w.non_confidential.csrs mepc) w.csrs)
  ok (to_hypervisor (record m { hardware_hart = record w { csrs = csrs } }))

module _ (state_address : ℕ) (send_ipi : ℕ → Outcome (Unit {0})) where
  unfoldable pub exit_to_confidential_hart : ExposeToConfidentialVm → Monitor → Outcome Exit
  unfolding set
  exit_to_confidential_hart t m = do
    h ← ConfidentialHart.apply t m.hardware_hart.confidential_hart
    let csrs = set sscratch state_address (
        set mepc (h.state.csrs mepc) (
          set mstatus (h.state.csrs mstatus)
            (set hvip (bit_or (h.state.csrs hvip) (h.state.csrs vsip)) m.hardware_hart.csrs)))
    ok (
        to_confidential_hart (record m {
          hardware_hart = record m.hardware_hart { confidential_hart = h; csrs = csrs };
        }))

  -- `into_non_confidential_flow().exit_to_hypervisor(t)`
  abbrev pub leave : ExposeToHypervisor → Monitor → Outcome Exit
  leave t m = do m' ← into_non_confidential_flow m; exit_to_hypervisor t m'

  -- `set_pending_request(r).into_non_confidential_flow().exit_to_hypervisor(t)`
  unfoldable pub leave_with_pending_request :
      PendingRequest → ExposeToHypervisor → Monitor → Outcome Exit
  leave_with_pending_request r t m =
      elim (ConfidentialHart.set_pending_request r m.hardware_hart.confidential_hart) [
        | ok h ↦ leave t (with_hart h m)
        | err e ↦ exit_to_confidential_hart confidential_error m
        | panic ↦ panic
      ]
