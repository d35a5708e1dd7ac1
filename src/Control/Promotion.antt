-- ===== src/Control/Promotion.antt =====
-- non_confidential_flow/handlers/promote_to_confidential_vm.rs. The number of harts that the flattened
-- device tree at an address names is a parameter, which the crate of that name reads from the memory.
pub mod Harts
pub mod Registration
use ace_riscv.Base.{
  ℕ, zero, suc, ltb, List, [], ◌∷◌, Outcome, ok, err, panic, ◌>>=◌, ◌>>◌, assure,
  reached_max_number_of_harts_per_vm,
}
use ace_riscv.Memory.Page.{Memory}
use ace_riscv.Riscv.Csr.{Csrs, hgatp}
use ace_riscv.Riscv.HartState.{HartArchitecturalState}
use ace_riscv.Mmu.TableMemory.{Heap}
use ace_riscv.Mmu.Drop.{drop_table}
use ace_riscv.Mmu.Copy.{from_vm_state}
use ace_riscv.Mmu.Protector.{ConfidentialVmMemoryProtector, translate}
use ace_riscv.Control.Requests.{kvm_ace_register}
use ace_riscv.Control.ConfidentialHart.{ConfidentialHart, from_vm_hart, from_vm_hart_reset}
use ace_riscv.Control.HardwareHart.{sbi_request}
use ace_riscv.Control.ConfidentialVm
use ace_riscv.Control.Storage.{ControlData, unique_id, insert_confidential_vm}
use ace_riscv.Control.Declassify.{promote_to_confidential_vm_request}
use ace_riscv.Control.Exits.{Monitor, Exit, non_confidential_error, exit_to_hypervisor}

abbrev pub max_number_of_harts_per_vm : ℕ
max_number_of_harts_per_vm = 1024

-- The harts from `id` on, `n` of them, all but the first of which are in the reset state.
unfoldable pub reset_harts : ℕ → HartArchitecturalState → ℕ → ℕ → List ConfidentialHart
unfolding from_vm_hart_reset
reset_harts entry_point h zero id = []
reset_harts entry_point h (suc n) id =
    from_vm_hart_reset entry_point id h ∷ reset_harts entry_point h n (suc id)

unfoldable pub create_harts : ℕ → HartArchitecturalState → Csrs → ℕ → List ConfidentialHart
unfolding from_vm_hart reset_harts
create_harts entry_point h csrs zero = []
create_harts entry_point h csrs (suc n) =
    from_vm_hart entry_point 0 h csrs ∷ reset_harts entry_point h n 1

module _ (entry_point : ℕ) (number_of_harts : ℕ → Memory → Outcome ℕ) where
  -- The part of `create_confidential_vm` that follows the copy of the memory.
  unfoldable pub register_confidential_vm :
      ℕ
      → HartArchitecturalState
      → ConfidentialVmMemoryProtector
      → Monitor
      → Outcome (ℕ × ControlData)
  unfolding translate create_harts unique_id ConfidentialVm.new insert_confidential_vm
  register_confidential_vm fdt_address hart_state protector m = do
    address ← translate fdt_address protector
    n ← number_of_harts address m.heap.memory
    assure (ltb n max_number_of_harts_per_vm) reached_max_number_of_harts_per_vm
    let harts = create_harts entry_point hart_state m.hardware_hart.csrs n
    id ← unique_id m.control_data
    vm ← ConfidentialVm.new id harts protector
    insert_confidential_vm vm m.control_data

  -- Its end: on an error the copy of the memory is dropped.
  unfoldable pub finish_creation :
      ConfidentialVmMemoryProtector
      → Outcome (ℕ × ControlData)
      → Monitor
      → Outcome (Outcome ℕ × Monitor)
  unfolding drop_table
  finish_creation protector (ok (id, d)) m = ok (ok id, record m { control_data = d })
  finish_creation protector (err e) m = do
    heap ← drop_table protector.root_page_table.page_table m.heap
    ok (err e, record m { heap = heap })
  finish_creation protector panic m = panic

  unfoldable pub create_confidential_vm :
      ℕ → HartArchitecturalState → Monitor → Outcome (Outcome ℕ × Monitor)
  unfolding from_vm_state register_confidential_vm finish_creation
  create_confidential_vm fdt_address hart_state m = do
    (copied, heap) ← from_vm_state m.memory_layout (hart_state.csrs hgatp) m.heap
    let m' : Monitor = record m { heap = heap }
    elim copied [
      | ok protector ↦
          finish_creation protector (register_confidential_vm fdt_address hart_state protector m')
            m'
      | err e ↦ ok (err e, m')
      | panic ↦ panic
    ]

  -- The answer to the hypervisor names the confidential VM and its boot hart.
  unfoldable pub answer_promotion : Outcome ℕ → Monitor → Outcome Exit
  unfolding kvm_ace_register exit_to_hypervisor
  answer_promotion (ok id) m = exit_to_hypervisor (sbi_request (kvm_ace_register id 0)) m
  answer_promotion (err e) m = exit_to_hypervisor non_confidential_error m
  answer_promotion panic m = panic

  unfoldable pub handle_promote : Monitor → Outcome Exit
  unfolding promote_to_confidential_vm_request create_confidential_vm answer_promotion
  handle_promote m = do
    let (fdt_address, hart_state) = promote_to_confidential_vm_request m.hardware_hart
    (created, m') ← create_confidential_vm fdt_address hart_state m
    answer_promotion created m'
