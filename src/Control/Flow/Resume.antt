-- ===== src/Control/Flow/Resume.antt =====
-- confidential_flow/control_flow/mod.rs: what state a confidential hart is in when it is resumed.
use ace_riscv.Base.{
  ℕ, ◌≡◌, refl, bit_or, none, some, List, [], ◌∷◌, Outcome, ok, err, arith,
  cannot_suspend_not_started_hart,
}
use ace_riscv.Riscv.Csr.{set, mepc, mstatus, hvip, vsip, sscratch}
use ace_riscv.Control.Requests.{
  InterHartRequest, sbi_srst_system_reset, into_expose_to_confidential_vm,
}
use ace_riscv.Control.ConfidentialHart
use ace_riscv.Control.ConfidentialHart.{
  ConfidentialHart, suspended, shutdown, is_dummy, confidential_hart_id, take_request,
  transition_to_shutdown, transition_from_started_to_suspended,
}
use ace_riscv.Control.ConfidentialVm.{ConfidentialVm, put_queue}
use ace_riscv.Control.Storage.{confidential_vm, update}
use ace_riscv.Control.Exits.{
  Monitor, to_confidential_hart, with_hart, current_vm_id, exit_to_confidential_hart,
}
use ace_riscv.Control.Handlers.{apply_all, process_inter_hart_requests}
use ace_riscv.Control.Flow.{respond, resume_confidential_hart_execution}

module _ (state_address : ℕ) (send_ipi : ℕ → Outcome (Unit {0})) where
  -- A hart that waits for no response is resumed in the lifecycle state that the queued requests of
  -- other harts left it in, whatever that state is.
  pub resume_lem :
      (m : Monitor) (vm_id : ℕ) (vm : ConfidentialVm) (rs : List InterHartRequest)
      (h : ConfidentialHart)
      → m.hardware_hart.confidential_hart.confidential_vm_id ≡ some vm_id
      → confidential_vm vm_id m.control_data ≡ ok vm
      → vm.inter_hart_requests (confidential_hart_id m.hardware_hart.confidential_hart) ≡ some rs
      → apply_all state_address send_ipi rs m.hardware_hart.confidential_hart ≡ ok h
      → h.pending ≡ none
      → (m' : Monitor) × (resume_confidential_hart_execution state_address send_ipi m
          ≡ ok (to_confidential_hart m'))
        × (m'.hardware_hart.confidential_hart.lifecycle_state ≡ h.lifecycle_state)
        × (m'.hardware_hart.confidential_hart.confidential_vm_id ≡ h.confidential_vm_id)
  unfolding resume_confidential_hart_execution process_inter_hart_requests is_dummy current_vm_id
      take_request respond exit_to_confidential_hart ConfidentialHart.apply
  resume_lem m vm_id vm rs h a b c d e =
      let key = confidential_hart_id m.hardware_hart.confidential_hart in
      let vm' = record vm { inter_hart_requests = put_queue key [] vm.inter_hart_requests } in
      let m1 : Monitor = with_hart h (record m { control_data = update vm' m.control_data }) in
      let p : process_inter_hart_requests state_address send_ipi m ≡ ok m1 = ground arith in
      let h' : ConfidentialHart = record h { pending = none } in
      let csrs = set sscratch state_address (
        set mepc (h.state.csrs mepc) (
          set mstatus (h.state.csrs mstatus)
            (set hvip (bit_or (h.state.csrs hvip) (h.state.csrs vsip)) m.hardware_hart.csrs))) in
      let m' : Monitor = record m1 {
        hardware_hart = record m1.hardware_hart { confidential_hart = h'; csrs = csrs };
      } in
      (m', rw p (ground arith), refl, refl)

  -- Requests are processed before a hart is resumed. Where the only queued request of a hart without
  -- a pending request is a system reset, the hart is shut down and is resumed nevertheless.
  pub resume-shutdown :
      (m : Monitor) (vm_id : ℕ) (vm : ConfidentialVm) (from : ℕ)
      → m.hardware_hart.confidential_hart.confidential_vm_id ≡ some vm_id
      → confidential_vm vm_id m.control_data ≡ ok vm
      → vm.inter_hart_requests (confidential_hart_id m.hardware_hart.confidential_hart)
        ≡ some (sbi_srst_system_reset from ∷ [])
      → m.hardware_hart.confidential_hart.pending ≡ none
      → (m' : Monitor) × (resume_confidential_hart_execution state_address send_ipi m
          ≡ ok (to_confidential_hart m'))
        × (m'.hardware_hart.confidential_hart.lifecycle_state ≡ shutdown)
  unfolding apply_all ConfidentialHart.apply transition_to_shutdown is_dummy
      into_expose_to_confidential_vm
  resume-shutdown m vm_id vm from a b c e =
      let h : ConfidentialHart = record m.hardware_hart.confidential_hart {
        lifecycle_state = shutdown;
      } in
      let d : apply_all state_address send_ipi (sbi_srst_system_reset from ∷ [])
            m.hardware_hart.confidential_hart
          ≡ ok h =
        rw a refl in
      let (m', p, q, r) = resume_lem m vm_id vm (sbi_srst_system_reset from ∷ []) h a b c d e in
      (m', p, q)

  -- A suspended hart without queued and pending requests that is resumed runs on, and its next
  -- request to be suspended is refused, as it was never moved back to the started state.
  pub resume-suspended :
      (m : Monitor) (vm_id : ℕ) (vm : ConfidentialVm)
      → m.hardware_hart.confidential_hart.confidential_vm_id ≡ some vm_id
      → confidential_vm vm_id m.control_data ≡ ok vm
      → vm.inter_hart_requests (confidential_hart_id m.hardware_hart.confidential_hart) ≡ some []
      → m.hardware_hart.confidential_hart.pending ≡ none
      → m.hardware_hart.confidential_hart.lifecycle_state ≡ suspended
      → (m' : Monitor) × (resume_confidential_hart_execution state_address send_ipi m
          ≡ ok (to_confidential_hart m'))
        × (transition_from_started_to_suspended m'.hardware_hart.confidential_hart
            ≡ err cannot_suspend_not_started_hart)
  unfolding apply_all transition_from_started_to_suspended is_dummy
  resume-suspended m vm_id vm a b c e l =
      let (m', p, q, r) = resume_lem m vm_id vm [] m.hardware_hart.confidential_hart a b c refl e in
      (m', p, ground arith)
