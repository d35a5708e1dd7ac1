-- ===== src/Control/Emulation.antt =====
-- confidential_flow/handlers: the faults and calls that are answered without the control data.
use ace_riscv.Base.{ℕ, true, false, ◌==◌, if◌then◌else◌, Outcome, panic}
use ace_riscv.Riscv.Sbi.{ace_extid, base_extid, ipi_extid, rfence_extid, hsm_extid, srst_extid}
use ace_riscv.Control.Requests.{
  SbiRequest, guest_store_page_fault, result, success, virtual_instruction_result,
}
use ace_riscv.Control.HardwareHart.{ExposeToHypervisor}
use ace_riscv.Control.Exits.{
  Monitor, Exit, confidential_error, non_confidential_error, exit_to_confidential_hart, leave,
  leave_with_pending_request,
}

-- The response of sbi_probe_extension.rs: 1 for the extensions that the decoder knows.
unfoldable pub probe_response : ℕ → ℕ
probe_response extension_id =
    if extension_id == ace_extid
    then 1
    else if extension_id == base_extid
    then 1
    else if extension_id == ipi_extid
    then 1
    else if extension_id == rfence_extid
    then 1
    else if extension_id == hsm_extid
    then 1
    else if extension_id == srst_extid
    then 1
    else 0

abbrev pub wfi_instruction : ℕ
wfi_instruction = 0x1050_0073

module _ (state_address : ℕ) (send_ipi : ℕ → Outcome (Unit {0})) where
  unfoldable pub handle_probe_extension : SbiRequest → Monitor → Outcome Exit
  unfolding probe_response
  handle_probe_extension r m =
      exit_to_confidential_hart state_address send_ipi
        (result (success (probe_response r.argument0))) m

  unfoldable pub handle_rfence_nop : Monitor → Outcome Exit
  handle_rfence_nop m = exit_to_confidential_hart state_address send_ipi (result (success 0)) m

  unfoldable pub handle_invalid_call : Monitor → Outcome Exit
  handle_invalid_call m = exit_to_confidential_hart state_address send_ipi confidential_error m

  -- handlers/guest_store_page_fault.rs, for a fault that decodes to a request and an MMIO store.
  unfoldable pub handle_store_fault : ℕ → ExposeToHypervisor → Monitor → Outcome Exit
  unfolding leave_with_pending_request
  handle_store_fault instruction_length mmio m =
      leave_with_pending_request state_address send_ipi (guest_store_page_fault instruction_length)
        mmio m

  -- Both fault handlers, for an instruction that is not decoded.
  unfoldable pub handle_failed_fault : Monitor → Outcome Exit
  handle_failed_fault m = leave state_address send_ipi non_confidential_error m

  unfoldable pub handle_virtual_instruction : (instruction length : ℕ) → Monitor → Outcome Exit
  handle_virtual_instruction instruction length m = elim (instruction == wfi_instruction) [
    | true ↦ exit_to_confidential_hart state_address send_ipi (virtual_instruction_result length) m
    | false ↦ panic
  ]
