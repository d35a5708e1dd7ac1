-- ===== src/Control/Declassify.antt =====
-- The end of core/control_data/confidential_hart.rs: what a trap of a confidential hart asks, read from the
-- registers, and core/control_data/hardware_hart.rs: what the hypervisor asks and answers. The crate
-- `riscv_decode` is a parameter: its `decode` and its `instruction_length`.
use ace_riscv.Base.{
  ℕ, ◌%◌, ◌^◌, ltb, if◌then◌else◌, bit_and, bit_or, Outcome, ok, ◌>>=◌, ◌>>◌, assert,
}
use ace_riscv.Memory.PageSize.{size_4KiB}
use ace_riscv.Riscv.Words.{is_bit_enabled}
use ace_riscv.Riscv.Registers.{a0, a1, a2, a3, a4, a6, a7, GeneralPurposeRegister}
use ace_riscv.Riscv.Csr.{Csrs, mcause, mtinst, mtval, mtval2, mepc, mstatus}
use ace_riscv.Riscv.HartState.{HartArchitecturalState, gpr, set_csr, from_existing}
use ace_riscv.Riscv.Sbi.{TrapCause, trap_cause, hs_ecall, ace}
use ace_riscv.Riscv.CompressedInstructions.{DecodedInstruction, decode_result_register}
use ace_riscv.Control.Requests.{
  SbiRequest, SharePageRequest, GuestLoadPageFaultRequest, SbiHsmHartStart, HartMask,
  InterHartRequest, sbi_ipi as sbi_ipi_request, sbi_remote_fence_i as remote_fence_i_request,
  sbi_remote_sfence_vma as remote_sfence_vma_request,
  sbi_remote_sfence_vma_asid as remote_sfence_vma_asid_request, from_hart_state, kvm_ace_page_in,
}
use ace_riscv.Control.ConfidentialHart.{ConfidentialHart}
use ace_riscv.Control.HardwareHart.{
  HardwareHart, ExposeToHypervisor, mmio_load_request, mmio_store_request, sbi_vm_request,
  read_security_monitor_call_arguments, restore_original_gprs,
}

-- `store_volatile_control_status_registers_in_main_memory` of both kinds of harts.
unfoldable pub store_volatile : Csrs → HartArchitecturalState → HartArchitecturalState
unfolding set_csr
store_volatile csrs h = set_csr mstatus (csrs mstatus) (set_csr mepc (csrs mepc) h)

unfoldable pub trap_reason : Csrs → HartArchitecturalState → TrapCause
unfolding gpr trap_cause
trap_reason csrs h = trap_cause (csrs mcause) (gpr h a7) (gpr h a6)

unfoldable pub hypercall_request : ConfidentialHart → SbiRequest
unfolding from_hart_state
hypercall_request h = from_hart_state h.state

unfoldable pub share_page_request : ConfidentialHart → SharePageRequest × SbiRequest
unfolding gpr kvm_ace_page_in
share_page_request h =
    let address = gpr h.state a0 in
    (
      record { confidential_vm_virtual_address = address; page_size = size_4KiB },
      kvm_ace_page_in address,
    )

unfoldable pub unshare_page_request : ConfidentialHart → ℕ
unfolding gpr
unshare_page_request h = gpr h.state a0

-- The two arguments that name harts.
abbrev hart_mask : ConfidentialHart → HartMask
hart_mask h = record { hart_mask = h.state.gprs a0; hart_mask_base = h.state.gprs a1 }

unfoldable pub sbi_ipi : ConfidentialHart → InterHartRequest
sbi_ipi h = sbi_ipi_request (hart_mask h)

unfoldable pub sbi_remote_fence_i : ConfidentialHart → InterHartRequest
sbi_remote_fence_i h = remote_fence_i_request (hart_mask h)

unfoldable pub sbi_remote_sfence_vma : ConfidentialHart → InterHartRequest
unfolding gpr
sbi_remote_sfence_vma h = remote_sfence_vma_request (hart_mask h) (gpr h.state a2) (gpr h.state a3)

unfoldable pub sbi_remote_sfence_vma_asid : ConfidentialHart → InterHartRequest
unfolding gpr
sbi_remote_sfence_vma_asid h =
    remote_sfence_vma_asid_request (hart_mask h) (gpr h.state a2) (gpr h.state a3) (gpr h.state a4)

unfoldable pub sbi_hsm_hart_start : ConfidentialHart → SbiHsmHartStart
unfolding gpr
sbi_hsm_hart_start h = record {
  confidential_hart_id = gpr h.state a0;
  start_address = gpr h.state a1;
  opaque = gpr h.state a2;
}

unfoldable pub sbi_hsm_hart_status : ConfidentialHart → ℕ
unfolding gpr
sbi_hsm_hart_status h = gpr h.state a0

-- The instruction and its length in bytes.
unfoldable pub virtual_instruction_request : (ℕ → ℕ) → Csrs → ℕ × ℕ
virtual_instruction_request instruction_length csrs =
    (csrs mtval, instruction_length (csrs mtval % 2 ^ 16))

module _ (decode : ℕ → DecodedInstruction) (instruction_length : ℕ → ℕ) where
  -- What both faults have in common: the length of the instruction and its register.
  unfoldable pub faulted_instruction : Csrs → Outcome (ℕ × GeneralPurposeRegister)
  unfolding is_bit_enabled decode_result_register
  faulted_instruction csrs = do
    assert (ltb 0 (bit_and (csrs mtinst) 1))
    let instruction = bit_or (csrs mtinst) 3
    let length =
        if is_bit_enabled (csrs mtinst) 1 then instruction_length (instruction % 2 ^ 16) else 2
    register ← decode_result_register decode instruction
    ok (length, register)

  unfoldable pub guest_load_page_fault_request :
      Csrs → Outcome (GuestLoadPageFaultRequest × ExposeToHypervisor)
  unfolding faulted_instruction
  guest_load_page_fault_request csrs = do
    (length, register) ← faulted_instruction csrs
    ok (
      record { instruction_length = length; result_gpr = register },
      mmio_load_request (csrs mcause) (csrs mtval) (csrs mtval2) (csrs mtinst),
    )

  -- The length of the instruction, and what is exposed.
  unfoldable pub guest_store_page_fault_request :
      ConfidentialHart → Csrs → Outcome (ℕ × ExposeToHypervisor)
  unfolding faulted_instruction gpr
  guest_store_page_fault_request h csrs = do
    (length, register) ← faulted_instruction csrs
    ok (
      length,
      mmio_store_request (csrs mcause) (csrs mtval) (csrs mtval2) (csrs mtinst) register
          (gpr h.state register),
    )

-- A call of the hypervisor to the monitor carries two registers in others.
unfoldable pub restore_after : TrapCause → HardwareHart → HardwareHart
unfolding restore_original_gprs
restore_after (hs_ecall (ace f)) w = restore_original_gprs w
restore_after reason w = w

-- What the monitor reads from a hardware hart; `trap_reason` also restores two registers of the hypervisor
-- before a call of its own.
unfoldable pub hypervisor_trap_reason : HardwareHart → TrapCause × HardwareHart
unfolding trap_reason restore_after
hypervisor_trap_reason w =
    let reason = trap_reason w.csrs w.non_confidential in (reason, restore_after reason w)

-- `sbi_vm_request`
unfoldable pub hypervisor_vm_request : HardwareHart → ExposeToHypervisor
unfolding from_hart_state
hypervisor_vm_request w = sbi_vm_request (from_hart_state w.non_confidential)

-- The response code and the address of the page.
unfoldable pub share_page_result : HardwareHart → ℕ × ℕ
unfolding gpr
share_page_result w = (gpr w.non_confidential a0, gpr w.non_confidential a1)

unfoldable pub resume_request : HardwareHart → ℕ × ℕ
unfolding read_security_monitor_call_arguments
resume_request w = read_security_monitor_call_arguments w

unfoldable pub terminate_request : HardwareHart → ℕ
unfolding read_security_monitor_call_arguments
terminate_request w = (read_security_monitor_call_arguments w).0

-- `promote_to_confidential_vm_request`: the address of the device tree and the state of the hart.
unfoldable pub promote_to_confidential_vm_request : HardwareHart → ℕ × HartArchitecturalState
unfolding gpr from_existing
promote_to_confidential_vm_request w =
    let h = from_existing 0 w.non_confidential w.csrs in (gpr h a0, h)
