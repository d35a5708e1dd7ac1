-- ===== src/Control/Router.antt =====
-- non_confidential_flow/control_flow/mod.rs and the handlers it calls: a trap from the hypervisor or from
-- a VM that is not confidential. The trap handler of OpenSBI is a parameter: from its registers and the
-- registers of the processor to what it leaves in both.
pub mod Closing
use ace_riscv.Base.{ℕ, Bool, Outcome, ok, err, panic, ◌>>=◌, ◌>>◌, assert}
use ace_riscv.Riscv.Csr.{Csrs, mepc, mstatus}
use ace_riscv.Riscv.Registers.{GeneralPurposeRegisters, a0, a1}
use ace_riscv.Riscv.HartState.{HartArchitecturalState}
use ace_riscv.Riscv.Sbi
use ace_riscv.Riscv.Sbi.{
  TrapCause, interrupt, illegal_instruction, load_address_misaligned, load_access_fault,
  store_address_misaligned, store_access_fault, hs_ecall, vs_ecall, machine_ecall, ace,
  resume_confidential_hart, terminate_confidential_vm, promote_to_confidential_vm,
}
use ace_riscv.Control.ConfidentialHart.{is_dummy}
use ace_riscv.Control.HardwareHart.{HardwareHart, opensbi_result, swap_mscratch}
use ace_riscv.Control.Declassify.{
  store_volatile, hypervisor_trap_reason, hypervisor_vm_request, resume_request, terminate_request,
}
use ace_riscv.Control.Exits.{Monitor, Exit, exit_to_hypervisor}
use ace_riscv.Memory.Page.{Memory}
use ace_riscv.Control.Promotion.{handle_promote}
use ace_riscv.Control.Flow.{handle_resume, handle_terminate}

-- `sbi_trap_regs` of OpenSBI.
pub record SbiTrapRegs : Type 0 where
  pub gprs : GeneralPurposeRegisters
  pub mepc : ℕ
  pub mstatus : ℕ

-- What the routers ask of the rest of the hardware hart's fields.
abbrev pub with_hardware_hart : HardwareHart → Monitor → Monitor
with_hardware_hart w m = record m { hardware_hart = w }

unfoldable pub opensbi_request : HardwareHart → SbiTrapRegs
opensbi_request w = record {
  gprs = w.non_confidential.gprs;
  mepc = w.non_confidential.csrs mepc;
  mstatus = w.non_confidential.csrs mstatus;
}

-- What the entry does before the match.
unfoldable pub enter_non_confidential_flow : Monitor → Outcome Monitor
unfolding store_volatile is_dummy
enter_non_confidential_flow m = do
  let w = m.hardware_hart
  let w' : HardwareHart = record w { non_confidential = store_volatile w.csrs w.non_confidential }
  assert (is_dummy w'.confidential_hart)
  ok (with_hardware_hart w' m)

-- handlers/delegate_hypercall.rs
unfoldable pub handle_delegate_hypercall : Monitor → Outcome Exit
unfolding hypervisor_vm_request exit_to_hypervisor
handle_delegate_hypercall m = exit_to_hypervisor (hypervisor_vm_request m.hardware_hart) m

module _ (sbi_trap_handler : SbiTrapRegs → Csrs → SbiTrapRegs × Csrs) where
  -- handlers/delegate_to_opensbi.rs
  unfoldable pub handle_delegate_to_opensbi : Monitor → Outcome Exit
  unfolding opensbi_request swap_mscratch exit_to_hypervisor
  handle_delegate_to_opensbi m =
      let w = swap_mscratch m.hardware_hart in
      let (regs, csrs) = sbi_trap_handler (opensbi_request m.hardware_hart) w.csrs in
      let w' = swap_mscratch (record w { csrs = csrs }) in
      exit_to_hypervisor (opensbi_result regs.mstatus regs.mepc (regs.gprs a0) (regs.gprs a1))
        (with_hardware_hart w' m)

-- What the router's handlers take from the rest of the system: the address of a hart's state, the
-- entry point, the interrupt controller, OpenSBI's trap handler and the reader of device trees.
pub record Environment : Type 0 where
  pub state_address : ℕ
  pub entry_point : ℕ
  pub send_ipi : ℕ → Outcome (Unit {0})
  pub sbi_trap_handler : SbiTrapRegs → Csrs → SbiTrapRegs × Csrs
  pub number_of_harts : ℕ → Memory → Outcome ℕ

module _ (env : Environment) where
  -- The match of `route_non_confidential_flow`.
  unfoldable pub dispatch_call : TrapCause → Monitor → Outcome Exit
  unfolding handle_delegate_to_opensbi handle_resume handle_terminate handle_promote
      handle_delegate_hypercall resume_request terminate_request
  dispatch_call (hs_ecall (ace resume_confidential_hart)) m =
      let (vm_id, hart_id) = resume_request m.hardware_hart in
      handle_resume env.state_address env.send_ipi vm_id hart_id m
  dispatch_call (hs_ecall (ace terminate_confidential_vm)) m =
      handle_terminate (terminate_request m.hardware_hart) m
  dispatch_call (hs_ecall f) m = handle_delegate_to_opensbi env.sbi_trap_handler m
  dispatch_call (vs_ecall (ace promote_to_confidential_vm)) m =
      handle_promote env.entry_point env.number_of_harts m
  dispatch_call (vs_ecall f) m = handle_delegate_hypercall m
  dispatch_call interrupt m = handle_delegate_to_opensbi env.sbi_trap_handler m
  dispatch_call illegal_instruction m = handle_delegate_to_opensbi env.sbi_trap_handler m
  dispatch_call load_address_misaligned m = handle_delegate_to_opensbi env.sbi_trap_handler m
  dispatch_call load_access_fault m = handle_delegate_to_opensbi env.sbi_trap_handler m
  dispatch_call store_address_misaligned m = handle_delegate_to_opensbi env.sbi_trap_handler m
  dispatch_call store_access_fault m = handle_delegate_to_opensbi env.sbi_trap_handler m
  dispatch_call machine_ecall m = handle_delegate_to_opensbi env.sbi_trap_handler m
  dispatch_call reason m = panic

  unfoldable pub route_non_confidential_flow : Monitor → Outcome Exit
  unfolding enter_non_confidential_flow hypervisor_trap_reason dispatch_call
  route_non_confidential_flow m = do
    m' ← enter_non_confidential_flow m
    let (reason, w) = hypervisor_trap_reason m'.hardware_hart
    dispatch_call reason (with_hardware_hart w m')
