-- ===== src/Control/Dispatch.antt =====
-- The match of `route_confidential_flow`: a trap of a confidential hart with the request that the arm of
-- the match reads for its handler.
pub mod Panics
use ace_riscv.Base.{ℕ, Outcome, ok, err, panic}
use ace_riscv.Riscv.Csr.{Csrs}
use ace_riscv.Riscv.Sbi.{
  TrapCause, vs_ecall, virtual_instruction, guest_load_page_fault, guest_store_page_fault, ace,
  base, ipi as ipi_call, rfence, hsm, srst, share_page_with_hypervisor,
  stop_sharing_page_with_hypervisor, get_spec_version, get_impl_id, get_impl_version,
  probe_extension, get_mvendor_id, get_marchid, get_mimpid, send_ipi, remote_fence_i,
  remote_sfence_vma, remote_sfence_vma_asid, remote_hfence_gvma_vmid, remote_hfence_gvma,
  remote_hfence_vvma_asid, remote_hfence_vvma, hart_start, hart_stop, hart_get_status, hart_suspend,
  system_reset,
}
use ace_riscv.Riscv.Sbi
use ace_riscv.Riscv.CompressedInstructions.{DecodedInstruction}
use ace_riscv.Control.Requests.{
  SbiRequest, SharePageRequest, SbiHsmHartStart, InterHartRequest, GuestLoadPageFaultRequest,
}
use ace_riscv.Control.ConfidentialHart.{ConfidentialHart}
use ace_riscv.Control.HardwareHart.{ExposeToHypervisor}
use ace_riscv.Control.Declassify.{
  hypercall_request, share_page_request, unshare_page_request, sbi_ipi, sbi_remote_fence_i,
  sbi_remote_sfence_vma, sbi_remote_sfence_vma_asid, sbi_hsm_hart_start, sbi_hsm_hart_status,
  virtual_instruction_request, guest_load_page_fault_request, guest_store_page_fault_request,
}

pub data ConfidentialTrap : Type 0 where
  start : SbiHsmHartStart → ConfidentialTrap
  stop suspend reset interrupt rfence_nop invalid failed_fault : ConfidentialTrap
  status unshare : ℕ → ConfidentialTrap
  ipi : InterHartRequest → ConfidentialTrap
  hypercall probe : SbiRequest → ConfidentialTrap
  load_fault : GuestLoadPageFaultRequest → ExposeToHypervisor → ConfidentialTrap
  store_fault : (instruction_length : ℕ) → ExposeToHypervisor → ConfidentialTrap
  share : SharePageRequest → SbiRequest → ConfidentialTrap
  emulate : (instruction length : ℕ) → ConfidentialTrap

module _ (decode : ℕ → DecodedInstruction) (instruction_length : ℕ → ℕ) where
  -- The two fault handlers take an error in place of a request.
  unfoldable pub load_fault_trap : Csrs → Outcome ConfidentialTrap
  unfolding guest_load_page_fault_request
  load_fault_trap csrs = elim (guest_load_page_fault_request decode instruction_length csrs) [
    | ok (r, mmio) ↦ ok (load_fault r mmio)
    | err e ↦ ok failed_fault
    | panic ↦ panic
  ]

  unfoldable pub store_fault_trap : ConfidentialHart → Csrs → Outcome ConfidentialTrap
  unfolding guest_store_page_fault_request
  store_fault_trap h csrs = elim (guest_store_page_fault_request decode instruction_length h csrs) [
    | ok (length, mmio) ↦ ok (store_fault length mmio)
    | err e ↦ ok failed_fault
    | panic ↦ panic
  ]

  unfoldable pub dispatch : TrapCause → ConfidentialHart → Csrs → Outcome ConfidentialTrap
  unfolding hypercall_request share_page_request unshare_page_request sbi_ipi sbi_remote_fence_i
      sbi_remote_sfence_vma sbi_remote_sfence_vma_asid sbi_hsm_hart_start sbi_hsm_hart_status
      virtual_instruction_request load_fault_trap store_fault_trap
  dispatch Sbi.interrupt h csrs = ok interrupt
  dispatch (vs_ecall (ace share_page_with_hypervisor)) h csrs =
      let (r, sbi) = share_page_request h in ok (share r sbi)
  dispatch (vs_ecall (ace stop_sharing_page_with_hypervisor)) h csrs =
      ok (unshare (unshare_page_request h))
  dispatch (vs_ecall (base get_spec_version)) h csrs = ok (hypercall (hypercall_request h))
  dispatch (vs_ecall (base get_impl_id)) h csrs = ok (hypercall (hypercall_request h))
  dispatch (vs_ecall (base get_impl_version)) h csrs = ok (hypercall (hypercall_request h))
  dispatch (vs_ecall (base probe_extension)) h csrs = ok (probe (hypercall_request h))
  dispatch (vs_ecall (base get_mvendor_id)) h csrs = ok (hypercall (hypercall_request h))
  dispatch (vs_ecall (base get_marchid)) h csrs = ok (hypercall (hypercall_request h))
  dispatch (vs_ecall (base get_mimpid)) h csrs = ok (hypercall (hypercall_request h))
  dispatch (vs_ecall (ipi_call send_ipi)) h csrs = ok (ipi (sbi_ipi h))
  dispatch (vs_ecall (rfence remote_fence_i)) h csrs = ok (ipi (sbi_remote_fence_i h))
  dispatch (vs_ecall (rfence remote_sfence_vma)) h csrs = ok (ipi (sbi_remote_sfence_vma h))
  dispatch (vs_ecall (rfence remote_sfence_vma_asid)) h csrs =
      ok (ipi (sbi_remote_sfence_vma_asid h))
  dispatch (vs_ecall (rfence remote_hfence_gvma_vmid)) h csrs = ok rfence_nop
  dispatch (vs_ecall (rfence remote_hfence_gvma)) h csrs = ok rfence_nop
  dispatch (vs_ecall (rfence remote_hfence_vvma_asid)) h csrs = ok rfence_nop
  dispatch (vs_ecall (rfence remote_hfence_vvma)) h csrs = ok rfence_nop
  dispatch (vs_ecall (hsm hart_start)) h csrs = ok (start (sbi_hsm_hart_start h))
  dispatch (vs_ecall (hsm hart_stop)) h csrs = ok stop
  dispatch (vs_ecall (hsm hart_suspend)) h csrs = ok suspend
  dispatch (vs_ecall (hsm hart_get_status)) h csrs = ok (status (sbi_hsm_hart_status h))
  dispatch (vs_ecall (srst system_reset)) h csrs = ok reset
  dispatch (vs_ecall (Sbi.SbiExtension.unknown e f)) h csrs = ok invalid
  dispatch guest_load_page_fault h csrs = load_fault_trap csrs
  dispatch virtual_instruction h csrs =
      let (instruction, length) = virtual_instruction_request instruction_length csrs in
      ok (emulate instruction length)
  dispatch guest_store_page_fault h csrs = store_fault_trap h csrs
  dispatch reason h csrs = panic
