-- ===== src/Control/Sharing.antt =====
-- confidential_flow/handlers/share_page.rs, share_page_result.rs and unshare_page.rs: a confidential hart
-- asks for a page of the hypervisor in its address space.
use ace_riscv.Base.{ℕ, ltb, true, false, Outcome, ok, err, panic, ◌>>=◌}
use ace_riscv.Mmu.Table.{SharedPage, new_shared_page}
use ace_riscv.Mmu.Protector
use ace_riscv.Control.Requests.{SbiRequest, SharePageRequest, share_page, success, failure, result}
use ace_riscv.Control.HardwareHart.{sbi_request}
use ace_riscv.Control.Storage.{confidential_vm, update}
use ace_riscv.Control.Declassify.{share_page_result}
use ace_riscv.Control.Exits.{
  Monitor, Exit, confidential_error, current_vm_id, exit_to_confidential_hart,
  leave_with_pending_request,
}

-- `try_confidential_vm_mut` with the call of the memory protector.
unfoldable pub map_in_confidential_vm :
    ℕ → SharedPage → Monitor → Outcome (Outcome (Unit {0}) × Monitor)
unfolding confidential_vm update
map_in_confidential_vm id page m = elim (confidential_vm id m.control_data) [
  | err e ↦ ok (err e, m)
  | panic ↦ panic
  | ok vm ↦ do
    (r, protector, heap) ← Protector.map_shared_page m.memory_layout page vm.memory_protector m.heap
    let vm' = record vm { memory_protector = protector }
    ok (r, record m { control_data = update vm' m.control_data; heap = heap })
]

module _ (state_address : ℕ) (send_ipi : ℕ → Outcome (Unit {0})) where
  unfoldable pub handle_share_page : SharePageRequest → SbiRequest → Monitor → Outcome Exit
  unfolding leave_with_pending_request
  handle_share_page r sbi m =
      leave_with_pending_request state_address send_ipi (share_page r) (sbi_request sbi) m

  -- The last two calls: the result of the mapping is exposed to the confidential VM.
  unfoldable pub expose_mapping : Outcome (Unit {0}) → Monitor → Outcome Exit
  expose_mapping (ok _) m = exit_to_confidential_hart state_address send_ipi (result (success 0)) m
  expose_mapping (err e) m = exit_to_confidential_hart state_address send_ipi confidential_error m
  expose_mapping panic m = panic

  unfoldable pub map_and_expose : ℕ → SharedPage → Monitor → Outcome Exit
  unfolding map_in_confidential_vm expose_mapping
  map_and_expose id page m = do (x, m') ← map_in_confidential_vm id page m; expose_mapping x m'

  unfoldable pub handle_share_page_result : SharePageRequest → Monitor → Outcome Exit
  unfolding current_vm_id share_page_result new_shared_page map_and_expose
  handle_share_page_result r m = do
    id ← current_vm_id m
    let (response_code, address) = share_page_result m.hardware_hart
    elim (ltb 0 response_code) [
      | true ↦ exit_to_confidential_hart state_address send_ipi (result (failure response_code)) m
      | false ↦ elim (new_shared_page m.memory_layout address r.confidential_vm_virtual_address) [
        | err e ↦ exit_to_confidential_hart state_address send_ipi confidential_error m
        | panic ↦ panic
        | ok page ↦ map_and_expose id page m
      ]
    ]

  unfoldable pub handle_unshare_page : ℕ → Monitor → Outcome Exit
  unfolding current_vm_id confidential_vm Protector.unmap_shared_page
  handle_unshare_page address m = do
    id ← current_vm_id m
    elim (confidential_vm id m.control_data) [
      | err e ↦ exit_to_confidential_hart state_address send_ipi confidential_error m
      | panic ↦ panic
      | ok vm ↦ do
        (x, protector, heap) ← Protector.unmap_shared_page address vm.memory_protector m.heap
        let vm' = record vm { memory_protector = protector }
        expose_mapping x (record m { control_data = update vm' m.control_data; heap = heap })
    ]
