-- ===== src/Control/Handlers.antt =====
-- confidential_flow/handlers, and the requests between harts of confidential_flow/control_flow. A
-- handler never returns: it exits to the hypervisor or to the confidential hart.
use ace_riscv.Base.{
  ℕ, ◌+◌, ◌^◌, ltb, true, false, if◌then◌else◌, List, [], ◌∷◌, bit_and, Outcome, ok, err, panic,
  ◌>>=◌, ok_or, invalid_hart_id,
}
use ace_riscv.Riscv.Csr.{mip}
use ace_riscv.Control.Requests.{
  SbiRequest, success, SbiHsmHartStart, InterHartRequest, sbi_srst_system_reset,
  GuestLoadPageFaultRequest, guest_load_page_fault, hsm_hart_start, request, result,
  into_expose_to_confidential_vm, kvm_hsm_hart_start, kvm_hsm_hart_stop, kvm_hsm_hart_suspend,
  kvm_srst_system_reset,
}
use ace_riscv.Control.ConfidentialHart
use ace_riscv.Control.ConfidentialHart.{
  ConfidentialHart, shutdown, same, sbi_code, is_dummy, confidential_hart_id, take_request,
}
use ace_riscv.Control.HardwareHart.{
  ExposeToHypervisor, sbi_request, sbi_result, interrupt_request, swap_mscratch,
}
use ace_riscv.Control.ConfidentialVm.{
  put_queue, broadcast_inter_hart_request, transit_confidential_hart_to_start_pending,
  confidential_hart_lifecycle_state,
}
use ace_riscv.Control.Storage.{confidential_vm, update, remove_confidential_vm}
use ace_riscv.Control.Exits.{
  Monitor, Exit, drop_confidential_vm, confidential_error, current_vm_id, with_hart, unwrap,
  into_non_confidential_flow, exit_to_hypervisor, exit_to_confidential_hart, leave,
  leave_with_pending_request,
}

module _ (state_address : ℕ) (send_ipi : ℕ → Outcome (Unit {0})) where
  -- The swaps of `mscratch` around the broadcast undo each other, as OpenSBI keeps that register.
  unfoldable pub broadcast : InterHartRequest → Monitor → Outcome (Outcome (Unit {0}) × Monitor)
  unfolding current_vm_id confidential_vm update broadcast_inter_hart_request swap_mscratch
  broadcast r m = do
    id ← current_vm_id m
    elim (confidential_vm id m.control_data) [
      | err e ↦ ok (err e, m)
      | panic ↦ panic
      | ok vm ↦ do
        (x, vm') ← broadcast_inter_hart_request send_ipi r vm
        ok (
          x,
          record m {
            control_data = update vm' m.control_data;
            hardware_hart = swap_mscratch (swap_mscratch m.hardware_hart);
          },
        )
    ]

  unfoldable pub apply_all : List InterHartRequest → ConfidentialHart → Outcome ConfidentialHart
  unfolding into_expose_to_confidential_vm
  apply_all [] h = ok h
  apply_all (r ∷ rs) h = do
    h' ← ConfidentialHart.apply (into_expose_to_confidential_vm r) h
    apply_all rs h'

  unfoldable pub process_inter_hart_requests : Monitor → Outcome Monitor
  unfolding current_vm_id confidential_vm update put_queue apply_all confidential_hart_id
  process_inter_hart_requests m = do
    id ← current_vm_id m
    vm ← unwrap (confidential_vm id m.control_data)
    let key = confidential_hart_id m.hardware_hart.confidential_hart
    requests ← unwrap (ok_or (vm.inter_hart_requests key) invalid_hart_id)
    h ← apply_all requests m.hardware_hart.confidential_hart
    let vm' = record vm { inter_hart_requests = put_queue key [] vm.inter_hart_requests }
    ok (with_hart h (record m { control_data = update vm' m.control_data }))

  -- handlers/sbi_hsm_hart_start.rs
  unfoldable pub handle_hart_start : SbiHsmHartStart → Monitor → Outcome Exit
  unfolding current_vm_id confidential_vm update transit_confidential_hart_to_start_pending
      leave_with_pending_request
  handle_hart_start r m = do
    id ← current_vm_id m
    elim (confidential_vm id m.control_data >>= transit_confidential_hart_to_start_pending r) [
      | ok vm ↦
          leave_with_pending_request state_address send_ipi hsm_hart_start
            (sbi_request (kvm_hsm_hart_start r.confidential_hart_id))
            (record m { control_data = update vm m.control_data })
      | err e ↦ exit_to_confidential_hart state_address send_ipi confidential_error m
      | panic ↦ panic
    ]

  -- handlers/sbi_hsm_hart_stop.rs
  unfoldable pub handle_hart_stop : Monitor → Outcome Exit
  handle_hart_stop m =
      elim (ConfidentialHart.transition_from_started_to_stopped m.hardware_hart.confidential_hart) [
        | ok h ↦ leave state_address send_ipi (sbi_request kvm_hsm_hart_stop) (with_hart h m)
        | err e ↦ exit_to_confidential_hart state_address send_ipi confidential_error m
        | panic ↦ panic
      ]

  -- handlers/sbi_hsm_hart_suspend.rs
  unfoldable pub handle_hart_suspend : Monitor → Outcome Exit
  handle_hart_suspend m =
      elim (ConfidentialHart.transition_from_started_to_suspended
        m.hardware_hart.confidential_hart) [
          | ok h ↦ leave state_address send_ipi (sbi_request kvm_hsm_hart_suspend) (with_hart h m)
          | err e ↦ exit_to_confidential_hart state_address send_ipi confidential_error m
          | panic ↦ panic
        ]

  -- handlers/sbi_hsm_hart_status.rs
  unfoldable pub handle_hart_status : ℕ → Monitor → Outcome Exit
  unfolding current_vm_id confidential_vm confidential_hart_lifecycle_state
  handle_hart_status hart_id m = do
    id ← current_vm_id m
    elim (confidential_vm id m.control_data >>= confidential_hart_lifecycle_state hart_id) [
      | ok s ↦ exit_to_confidential_hart state_address send_ipi (result (success (sbi_code s))) m
      | err e ↦ exit_to_confidential_hart state_address send_ipi confidential_error m
      | panic ↦ panic
    ]

  -- handlers/shutdown_confidential_hart.rs
  unfoldable pub handle_shutdown : Monitor → Outcome Exit
  unfolding current_vm_id remove_confidential_vm drop_confidential_vm
  handle_shutdown m = do
    id ← current_vm_id m
    h ← ConfidentialHart.transition_to_shutdown m.hardware_hart.confidential_hart
    m' ← into_non_confidential_flow (with_hart h m)
    elim (remove_confidential_vm id m'.control_data) [
      | ok (vm, remaining) ↦ do
        m'' ← drop_confidential_vm vm (record m' { control_data = remaining })
        exit_to_hypervisor (sbi_request kvm_srst_system_reset) m''
      | err e ↦ exit_to_hypervisor (sbi_request kvm_srst_system_reset) m'
      | panic ↦ panic
    ]

  -- handlers/sbi_srst.rs
  unfoldable pub handle_system_reset : Monitor → Outcome Exit
  unfolding confidential_hart_id broadcast handle_shutdown
  handle_system_reset m = do
    (x, m') ←
        broadcast (sbi_srst_system_reset (confidential_hart_id m.hardware_hart.confidential_hart)) m
    elim x [
      | ok _ ↦ handle_shutdown m'
      | err e ↦ exit_to_confidential_hart state_address send_ipi confidential_error m'
      | panic ↦ panic
    ]

  -- handlers/sbi_ipi.rs
  unfoldable pub handle_ipi : InterHartRequest → Monitor → Outcome Exit
  unfolding broadcast
  handle_ipi r m = do
    (x, m') ← broadcast r m
    elim x [
      | ok _ ↦ exit_to_confidential_hart state_address send_ipi (result (success 0)) m'
      | err e ↦ exit_to_confidential_hart state_address send_ipi confidential_error m'
      | panic ↦ panic
    ]

  -- The end of handlers/interrupt.rs: a timer interrupt is injected into the hypervisor.
  unfoldable pub pass_interrupt : ℕ → Monitor → Outcome Exit
  pass_interrupt pending m =
      if ltb 0 (bit_and pending (2 ^ 7 + 2 ^ 5))
      then leave state_address send_ipi (interrupt_request 5) m
      else leave state_address send_ipi (sbi_result (success 0)) m

  -- handlers/interrupt.rs
  unfoldable pub handle_interrupt : Monitor → Outcome Exit
  unfolding process_inter_hart_requests handle_shutdown pass_interrupt
  handle_interrupt m =
      let pending = m.hardware_hart.csrs mip in
      if ltb 0 (bit_and pending (2 ^ 1))
      then (do
        m' ← process_inter_hart_requests m
        elim (same m'.hardware_hart.confidential_hart.lifecycle_state shutdown) [
          | true ↦ handle_shutdown m'
          | false ↦ pass_interrupt pending m'
        ])
      else pass_interrupt pending m

  -- handlers/hypercall.rs
  unfoldable pub handle_hypercall : SbiRequest → Monitor → Outcome Exit
  unfolding leave_with_pending_request
  handle_hypercall r m = leave_with_pending_request state_address send_ipi request (sbi_request r) m

  -- handlers/guest_load_page_fault.rs, for a fault that decodes to a request and an MMIO load.
  unfoldable pub handle_load_fault :
      GuestLoadPageFaultRequest → ExposeToHypervisor → Monitor → Outcome Exit
  unfolding leave_with_pending_request
  handle_load_fault r mmio m =
      leave_with_pending_request state_address send_ipi (guest_load_page_fault r) mmio m
