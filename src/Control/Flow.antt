-- ===== src/Control/Flow.antt =====
-- The entries of confidential_flow/control_flow: from a trap of a confidential hart and from the
-- hypervisor, and the handlers of non_confidential_flow/handlers that resume and terminate.
pub mod Safety
pub mod Guarding
pub mod Routes
pub mod Resume
pub mod Panics
use ace_riscv.Base.{
  ℕ, zero, suc, ◌+◌, ◌^◌, ◌==◌, ltb, Bool, true, false, not, ◌&&◌, ◌||◌, if◌then◌else◌, Option,
  none, some, List, [], ◌∷◌, bit_and, bit_or, Outcome, ok, err, panic, ◌>>=◌, ◌>>◌, ok_or, assert,
  Error, invalid_hart_id,
}
use ace_riscv.Riscv.Csr.{Csr, Csrs, set, mepc, mstatus, hvip, vsip, sscratch, mip}
use ace_riscv.Riscv.Registers.{a0, a1}
use ace_riscv.Control.Requests.{
  SbiRequest, SbiResult, success, failure, ecall, SbiHsmHartStart, InterHartRequest,
  sbi_srst_system_reset, PendingRequest, GuestLoadPageFaultRequest, guest_load_page_fault_result,
  share_page, guest_load_page_fault, guest_store_page_fault, hsm_hart_start, hsm_hart_start_pending,
  request, ExposeToConfidentialVm, result, load_page_fault_result, store_page_fault_result,
  virtual_instruction_result, resume, hart_start, hart_start_pending,
  into_expose_to_confidential_vm, kvm_hsm_hart_start, kvm_hsm_hart_stop, kvm_hsm_hart_suspend,
  kvm_srst_system_reset,
}
use ace_riscv.Control.ConfidentialHart
use ace_riscv.Control.ConfidentialHart.{
  ConfidentialHart, shutdown, same, sbi_code, is_dummy, confidential_hart_id, take_request,
}
use ace_riscv.Control.HardwareHart
use ace_riscv.Control.HardwareHart.{
  HardwareHart, ExposeToHypervisor, sbi_request, sbi_result, mmio_load_request, interrupt_request,
  swap_mscratch,
}
use ace_riscv.Control.ConfidentialVm
use ace_riscv.Control.ConfidentialVm.{
  ConfidentialVm, put_queue, steal_confidential_hart, return_confidential_hart,
  broadcast_inter_hart_request, transit_confidential_hart_to_start_pending,
  confidential_hart_lifecycle_state,
}
use ace_riscv.Control.Storage.{ControlData, confidential_vm, update, remove_confidential_vm}
use ace_riscv.Control.Exits.{
  Monitor, Exit, drop_confidential_vm, to_hypervisor, to_confidential_hart, confidential_error,
  non_confidential_error, current_vm_id, with_hart, unwrap, into_non_confidential_flow,
  exit_to_hypervisor, exit_to_confidential_hart, leave, leave_with_pending_request,
}
use ace_riscv.Control.Handlers.{
  broadcast, apply_all, process_inter_hart_requests, handle_hart_start, handle_hart_stop,
  handle_hart_suspend, handle_hart_status, handle_shutdown, handle_system_reset, handle_ipi,
  pass_interrupt, handle_interrupt, handle_hypercall, handle_load_fault,
}
use ace_riscv.Riscv.CompressedInstructions.{DecodedInstruction}
use ace_riscv.Control.Declassify.{store_volatile, trap_reason}
use ace_riscv.Control.Sharing.{handle_share_page, handle_share_page_result, handle_unshare_page}
use ace_riscv.Control.Emulation.{
  handle_probe_extension, handle_rfence_nop, handle_invalid_call, handle_store_fault,
  handle_failed_fault, handle_virtual_instruction,
}
use ace_riscv.Control.Dispatch.{
  ConfidentialTrap, start, stop, suspend, reset, interrupt, rfence_nop, invalid, failed_fault,
  status, unshare, ipi, hypercall, probe, load_fault, store_fault, share, emulate, dispatch,
}

module _ (state_address : ℕ) (send_ipi : ℕ → Outcome (Unit {0})) where
  unfoldable pub route : ConfidentialTrap → Monitor → Outcome Exit
  unfolding handle_hart_start handle_hart_stop handle_hart_suspend handle_system_reset
      handle_interrupt handle_hart_status handle_ipi handle_hypercall handle_load_fault
      handle_share_page handle_unshare_page handle_probe_extension handle_rfence_nop
      handle_invalid_call handle_store_fault handle_failed_fault handle_virtual_instruction
  route (start r) m = handle_hart_start state_address send_ipi r m
  route stop m = handle_hart_stop state_address send_ipi m
  route suspend m = handle_hart_suspend state_address send_ipi m
  route reset m = handle_system_reset state_address send_ipi m
  route interrupt m = handle_interrupt state_address send_ipi m
  route (status hart_id) m = handle_hart_status state_address send_ipi hart_id m
  route (ipi r) m = handle_ipi state_address send_ipi r m
  route (hypercall r) m = handle_hypercall state_address send_ipi r m
  route (probe r) m = handle_probe_extension state_address send_ipi r m
  route rfence_nop m = handle_rfence_nop state_address send_ipi m
  route invalid m = handle_invalid_call state_address send_ipi m
  route (load_fault r mmio) m = handle_load_fault state_address send_ipi r mmio m
  route (store_fault length mmio) m = handle_store_fault state_address send_ipi length mmio m
  route failed_fault m = handle_failed_fault state_address send_ipi m
  route (emulate instruction length) m =
      handle_virtual_instruction state_address send_ipi instruction length m
  route (share r sbi) m = handle_share_page state_address send_ipi r sbi m
  route (unshare address) m = handle_unshare_page state_address send_ipi address m

  -- What the entry does before the match: two registers are stored, and a dummy hart is a bug.
  unfoldable pub enter_confidential_flow : Monitor → Outcome Monitor
  unfolding store_volatile is_dummy
  enter_confidential_flow m = do
    let h = m.hardware_hart.confidential_hart
    assert (not (is_dummy h))
    ok (with_hart (record h { state = store_volatile m.hardware_hart.csrs h.state }) m)

  unfoldable pub route_confidential_flow :
      (ℕ → DecodedInstruction) → (ℕ → ℕ) → Monitor → Outcome Exit
  unfolding enter_confidential_flow trap_reason dispatch route
  route_confidential_flow decode instruction_length m = do
    m' ← enter_confidential_flow m
    let h = m'.hardware_hart.confidential_hart
    let csrs = m'.hardware_hart.csrs
    trap ← dispatch decode instruction_length (trap_reason csrs h.state) h csrs
    route trap m'

  -- The response to the request that the hart waits for.
  unfoldable pub respond : Option PendingRequest → Monitor → Outcome Exit
  unfolding handle_share_page_result
  respond none m = exit_to_confidential_hart state_address send_ipi resume m
  respond (some request) m =
      exit_to_confidential_hart state_address send_ipi
        (result (ecall m.hardware_hart.non_confidential)) m
  respond (some (guest_load_page_fault r)) m =
      exit_to_confidential_hart state_address send_ipi
        (load_page_fault_result (guest_load_page_fault_result m.hardware_hart.non_confidential r)) m
  respond (some (guest_store_page_fault instruction_length)) m =
      exit_to_confidential_hart state_address send_ipi (store_page_fault_result instruction_length)
        m
  respond (some (share_page r)) m = handle_share_page_result state_address send_ipi r m
  respond (some hsm_hart_start) m = exit_to_confidential_hart state_address send_ipi hart_start m
  respond (some hsm_hart_start_pending) m =
      exit_to_confidential_hart state_address send_ipi hart_start_pending m

  unfoldable pub resume_confidential_hart_execution : Monitor → Outcome Exit
  unfolding is_dummy process_inter_hart_requests take_request respond
  resume_confidential_hart_execution m = do
    assert (not (is_dummy m.hardware_hart.confidential_hart))
    m' ← process_inter_hart_requests state_address send_ipi m
    let (pending, h) = take_request m'.hardware_hart.confidential_hart
    respond pending (with_hart h m')

  -- handlers/resume_confidential_hart.rs and `into_confidential_flow`
  unfoldable pub handle_resume : ℕ → ℕ → Monitor → Outcome Exit
  unfolding confidential_vm update steal_confidential_hart resume_confidential_hart_execution
  handle_resume vm_id hart_id m =
      elim (confidential_vm vm_id m.control_data >>= λ vm.
      steal_confidential_hart hart_id vm m.hardware_hart) [
        | ok (vm, w) ↦
            resume_confidential_hart_execution
              (record m { control_data = update vm m.control_data; hardware_hart = w })
        | err e ↦ exit_to_hypervisor (sbi_request kvm_srst_system_reset) m
        | panic ↦ panic
      ]

-- non_confidential_flow/handlers/terminate_confidential_vm.rs
unfoldable pub handle_terminate : ℕ → Monitor → Outcome Exit
unfolding remove_confidential_vm drop_confidential_vm exit_to_hypervisor
handle_terminate vm_id m = elim (remove_confidential_vm vm_id m.control_data) [
  | ok (vm, remaining) ↦ do
    m' ← drop_confidential_vm vm (record m { control_data = remaining })
    exit_to_hypervisor (sbi_result (success 0)) m'
  | err e ↦ exit_to_hypervisor non_confidential_error m
  | panic ↦ panic
]
