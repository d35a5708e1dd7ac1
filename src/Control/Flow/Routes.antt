-- ===== src/Control/Flow/Routes.antt =====
-- confidential_flow/handlers: the protection registers at the exit that a handler of a confidential
-- hart's trap takes.
use ace_riscv.Base.{
  err, panic, ◌==◌, ℕ, ◌≡◌, inl, inr, Bool-cases, ltb, bit_and, ◌+◌, ◌^◌, Outcome, Outcome-cases,
  ok, ◌>>=◌, >>=-eq-ok, arith,
}
use ace_riscv.Riscv.Csr.{mip}
use ace_riscv.Control.Requests.{
  SharePageRequest, failure, share_page, guest_store_page_fault, virtual_instruction_result,
  SbiHsmHartStart, InterHartRequest, sbi_srst_system_reset, hsm_hart_start, result, success,
  kvm_hsm_hart_stop, kvm_hsm_hart_suspend, kvm_hsm_hart_start, kvm_srst_system_reset, request,
  guest_load_page_fault,
}
use ace_riscv.Control.ConfidentialHart
use ace_riscv.Control.ConfidentialHart.{
  ConfidentialHart, sbi_code, same, shutdown, confidential_hart_id,
}
use ace_riscv.Control.HardwareHart.{sbi_request, sbi_result, interrupt_request}
use ace_riscv.Control.ConfidentialVm.{
  transit_confidential_hart_to_start_pending, confidential_hart_lifecycle_state,
}
use ace_riscv.Control.Storage.{confidential_vm, update, remove_confidential_vm}
use ace_riscv.Control.Exits.{
  Monitor, Exit, current_vm_id, with_hart, confidential_error, non_confidential_error,
  into_non_confidential_flow,
}
use ace_riscv.Control.Handlers.{
  broadcast, process_inter_hart_requests, handle_hart_start, handle_hart_stop, handle_hart_suspend,
  handle_hart_status, handle_shutdown, handle_system_reset, handle_ipi, pass_interrupt,
  handle_interrupt, handle_hypercall, handle_load_fault,
}
use ace_riscv.Control.Flow.{route}
use ace_riscv.Control.Dispatch.{
  ConfidentialTrap, start, stop, suspend, reset, interrupt, rfence_nop, invalid, failed_fault,
  status, unshare, ipi, hypercall, probe, load_fault, store_fault, share, emulate,
}
use ace_riscv.Mmu.Table.{SharedPage, new_shared_page}
use ace_riscv.Control.Declassify.{share_page_result}
use ace_riscv.Control.Sharing.{
  map_in_confidential_vm, expose_mapping, map_and_expose, handle_share_page,
  handle_share_page_result, handle_unshare_page,
}
use ace_riscv.Control.Emulation.{
  probe_response, wfi_instruction, handle_probe_extension, handle_rfence_nop, handle_invalid_call,
  handle_store_fault, handle_failed_fault, handle_virtual_instruction,
}
use ace_riscv.Memory.Layout.{MemoryLayout}
use ace_riscv.Control.Flow.Guarding.{
  broadcast-guards, process_inter_hart_requests-guards, map_in_confidential_vm-guards,
}
use ace_riscv.Control.Flow.Safety.{
  IsGuarded, Closed, drop-closes, into_non_confidential_flow-closes, exit_to_hypervisor-closes,
  exit_to_confidential_hart-closes, leave-closes, leave_with_pending_request-closes,
}

module _ (l : MemoryLayout) (state_address : ℕ) (send_ipi : ℕ → Outcome (Unit {0})) where
  hart_start-closes :
      (r : SbiHsmHartStart) (m : Monitor) {x : Exit}
      → IsGuarded l m
      → handle_hart_start state_address send_ipi r m ≡ ok x
      → Closed l x
  unfolding handle_hart_start
  hart_start-closes r m {x} g q =
      let (id, a, q1) = >>=-eq-ok (current_vm_id m) _ q in
      elim (Outcome-cases
        (confidential_vm id m.control_data >>= transit_confidential_hart_to_start_pending r)) [
          | inl (vm, b) ↦
              leave_with_pending_request-closes l state_address send_ipi hsm_hart_start
                (sbi_request (kvm_hsm_hart_start r.confidential_hart_id))
                (record m { control_data = update vm m.control_data }) g (ground arith)
          | inr (inl (e, b)) ↦
              exit_to_confidential_hart-closes l state_address send_ipi confidential_error m g
                (ground arith)
          | inr (inr b) ↦ absurd (ground arith)
        ]

  hart_stop-closes :
      (m : Monitor) {x : Exit}
      → IsGuarded l m
      → handle_hart_stop state_address send_ipi m ≡ ok x
      → Closed l x
  unfolding handle_hart_stop
  hart_stop-closes m {x} g q =
      elim (Outcome-cases
        (ConfidentialHart.transition_from_started_to_stopped m.hardware_hart.confidential_hart)) [
          | inl (h, b) ↦
              leave-closes l state_address send_ipi (sbi_request kvm_hsm_hart_stop) (with_hart h m)
                g (ground arith)
          | inr (inl (e, b)) ↦
              exit_to_confidential_hart-closes l state_address send_ipi confidential_error m g
                (ground arith)
          | inr (inr b) ↦ absurd (ground arith)
        ]

  hart_suspend-closes :
      (m : Monitor) {x : Exit}
      → IsGuarded l m
      → handle_hart_suspend state_address send_ipi m ≡ ok x
      → Closed l x
  unfolding handle_hart_suspend
  hart_suspend-closes m {x} g q =
      elim (Outcome-cases
        (ConfidentialHart.transition_from_started_to_suspended m.hardware_hart.confidential_hart)) [
          | inl (h, b) ↦
              leave-closes l state_address send_ipi (sbi_request kvm_hsm_hart_suspend)
                (with_hart h m) g (ground arith)
          | inr (inl (e, b)) ↦
              exit_to_confidential_hart-closes l state_address send_ipi confidential_error m g
                (ground arith)
          | inr (inr b) ↦ absurd (ground arith)
        ]

  hart_status-closes :
      (hart_id : ℕ) (m : Monitor) {x : Exit}
      → IsGuarded l m
      → handle_hart_status state_address send_ipi hart_id m ≡ ok x
      → Closed l x
  unfolding handle_hart_status
  hart_status-closes hart_id m {x} g q =
      let (id, a, q1) = >>=-eq-ok (current_vm_id m) _ q in
      elim (Outcome-cases
        (confidential_vm id m.control_data >>= confidential_hart_lifecycle_state hart_id)) [
          | inl (s, b) ↦
              exit_to_confidential_hart-closes l state_address send_ipi
                (result (success (sbi_code s))) m g (ground arith)
          | inr (inl (e, b)) ↦
              exit_to_confidential_hart-closes l state_address send_ipi confidential_error m g
                (ground arith)
          | inr (inr b) ↦ absurd (ground arith)
        ]

  shutdown-closes :
      (m : Monitor) {x : Exit}
      → IsGuarded l m
      → handle_shutdown state_address send_ipi m ≡ ok x
      → Closed l x
  unfolding handle_shutdown
  shutdown-closes m {x} g q =
      let (id, a, q1) = >>=-eq-ok (current_vm_id m) _ q in
      let (h, b, q2) =
        >>=-eq-ok (ConfidentialHart.transition_to_shutdown m.hardware_hart.confidential_hart) _
          q1 in
      let (m', c, q3) = >>=-eq-ok (into_non_confidential_flow (with_hart h m)) _ q2 in
      let closed = into_non_confidential_flow-closes l (with_hart h m) g c in
      elim (Outcome-cases (remove_confidential_vm id m'.control_data)) [
        | inl ((vm, rest), d) ↦
            drop-closes l (sbi_request kvm_srst_system_reset) vm (record m' { control_data = rest })
              closed (rw d at q3)
        | inr (inl (e, d)) ↦
            exit_to_hypervisor-closes l (sbi_request kvm_srst_system_reset) m' closed (ground arith)
        | inr (inr d) ↦ absurd (ground arith)
      ]

  system_reset-closes :
      (m : Monitor) {x : Exit}
      → IsGuarded l m
      → handle_system_reset state_address send_ipi m ≡ ok x
      → Closed l x
  unfolding handle_system_reset
  system_reset-closes m {x} g q =
      let ((y, m'), a, q1) =
        >>=-eq-ok
          (broadcast state_address send_ipi
            (sbi_srst_system_reset (confidential_hart_id m.hardware_hart.confidential_hart)) m)
          _ q in
      let r = sbi_srst_system_reset (confidential_hart_id m.hardware_hart.confidential_hart) in
      let g' = broadcast-guards l send_ipi state_address r m g a in
      elim (Outcome-cases y) [
        | inl (u, b) ↦ shutdown-closes m' g' (ground arith)
        | inr (inl (e, b)) ↦
            exit_to_confidential_hart-closes l state_address send_ipi confidential_error m' g'
              (ground arith)
        | inr (inr b) ↦ absurd (ground arith)
      ]

  ipi-closes :
      (r : InterHartRequest) (m : Monitor) {x : Exit}
      → IsGuarded l m
      → handle_ipi state_address send_ipi r m ≡ ok x
      → Closed l x
  unfolding handle_ipi
  ipi-closes r m {x} g q =
      let ((y, m'), a, q1) = >>=-eq-ok (broadcast state_address send_ipi r m) _ q in
      let g' = broadcast-guards l send_ipi state_address r m g a in
      elim (Outcome-cases y) [
        | inl (u, b) ↦
            exit_to_confidential_hart-closes l state_address send_ipi (result (success 0)) m' g'
              (ground arith)
        | inr (inl (e, b)) ↦
            exit_to_confidential_hart-closes l state_address send_ipi confidential_error m' g'
              (ground arith)
        | inr (inr b) ↦ absurd (ground arith)
      ]

  pass_interrupt-closes :
      (pending : ℕ) (m : Monitor) {x : Exit}
      → IsGuarded l m
      → pass_interrupt state_address send_ipi pending m ≡ ok x
      → Closed l x
  unfolding pass_interrupt
  pass_interrupt-closes pending m {x} g q =
      elim (Bool-cases (ltb 0 (bit_and pending (2 ^ 7 + 2 ^ 5)))) [
        | inl b ↦ leave-closes l state_address send_ipi (interrupt_request 5) m g (ground arith)
        | inr b ↦ leave-closes l state_address send_ipi (sbi_result (success 0)) m g (ground arith)
      ]

  interrupt-closes :
      (m : Monitor) {x : Exit}
      → IsGuarded l m
      → handle_interrupt state_address send_ipi m ≡ ok x
      → Closed l x
  unfolding handle_interrupt
  interrupt-closes m {x} g q =
      let pending = m.hardware_hart.csrs mip in
      elim (Bool-cases (ltb 0 (bit_and pending (2 ^ 1)))) [
        | inr b ↦ pass_interrupt-closes pending m g (ground arith)
        | inl b ↦ elim (Outcome-cases (process_inter_hart_requests state_address send_ipi m)) [
          | inl (m', c) ↦
              let g' = process_inter_hart_requests-guards l send_ipi state_address m g c in
              elim (Bool-cases (same m'.hardware_hart.confidential_hart.lifecycle_state shutdown)) [
                | inl d ↦ shutdown-closes m' g' (ground arith)
                | inr d ↦ pass_interrupt-closes pending m' g' (ground arith)
              ]
          | inr (inl (e, c)) ↦ absurd (ground arith)
          | inr (inr c) ↦ absurd (ground arith)
        ]
      ]

  expose_mapping-closes :
      (r : Outcome (Unit {0})) (m : Monitor) {x : Exit}
      → IsGuarded l m
      → expose_mapping state_address send_ipi r m ≡ ok x
      → Closed l x
  unfolding expose_mapping
  expose_mapping-closes (ok u) m g q =
      exit_to_confidential_hart-closes l state_address send_ipi (result (success 0)) m g q
  expose_mapping-closes (err e) m g q =
      exit_to_confidential_hart-closes l state_address send_ipi confidential_error m g q
  expose_mapping-closes panic m g q = absurd (ground arith)

  map_and_expose-closes :
      (id : ℕ) (page : SharedPage) (m : Monitor) {x : Exit}
      → IsGuarded l m
      → map_and_expose state_address send_ipi id page m ≡ ok x
      → Closed l x
  unfolding map_and_expose
  map_and_expose-closes id page m g q =
      let ((r, m'), a, q1) = >>=-eq-ok (map_in_confidential_vm id page m) _ q in
      let g' = map_in_confidential_vm-guards l id page m g a in expose_mapping-closes r m' g' q1

  pub share_page_result-closes :
      (r : SharePageRequest) (m : Monitor) {x : Exit}
      → IsGuarded l m
      → handle_share_page_result state_address send_ipi r m ≡ ok x
      → Closed l x
  unfolding handle_share_page_result
  share_page_result-closes r m {x} g q = elim (Outcome-cases (current_vm_id m)) [
    | inr (inl (e, a)) ↦ absurd (ground arith)
    | inr (inr a) ↦ absurd (ground arith)
    | inl (id, a) ↦ elim (Bool-cases (ltb 0 (share_page_result m.hardware_hart).0)) [
      | inl b ↦
          exit_to_confidential_hart-closes l state_address send_ipi
            (result (failure (share_page_result m.hardware_hart).0)) m g (ground arith)
      | inr b ↦
          elim (Outcome-cases (
            new_shared_page m.memory_layout (share_page_result m.hardware_hart).1
              r.confidential_vm_virtual_address)) [
                | inl (page, c) ↦ map_and_expose-closes id page m g (ground arith)
                | inr (inl (e, c)) ↦
                    exit_to_confidential_hart-closes l state_address send_ipi confidential_error m g
                      (ground arith)
                | inr (inr c) ↦ absurd (ground arith)
              ]
    ]
  ]

  unshare-closes :
      (address : ℕ) (m : Monitor) {x : Exit}
      → IsGuarded l m
      → handle_unshare_page state_address send_ipi address m ≡ ok x
      → Closed l x
  unfolding handle_unshare_page
  unshare-closes address m {x} g q = elim (Outcome-cases (current_vm_id m)) [
    | inr (inl (e, a)) ↦ absurd (ground arith)
    | inr (inr a) ↦ absurd (ground arith)
    | inl (id, a) ↦ elim (Outcome-cases (confidential_vm id m.control_data)) [
      | inl (vm, b) ↦ absurd (ground arith)
      | inr (inl (e, b)) ↦
          exit_to_confidential_hart-closes l state_address send_ipi confidential_error m g
            (ground arith)
      | inr (inr b) ↦ absurd (ground arith)
    ]
  ]

  virtual_instruction-closes :
      (instruction length : ℕ) (m : Monitor) {x : Exit}
      → IsGuarded l m
      → handle_virtual_instruction state_address send_ipi instruction length m ≡ ok x
      → Closed l x
  unfolding handle_virtual_instruction
  virtual_instruction-closes instruction length m {x} g q =
      elim (Bool-cases (instruction == wfi_instruction)) [
        | inl b ↦
            exit_to_confidential_hart-closes l state_address send_ipi
              (virtual_instruction_result length) m g (ground arith)
        | inr b ↦ absurd (ground arith)
      ]

  route-closes :
      (t : ConfidentialTrap) (m : Monitor) {x : Exit}
      → IsGuarded l m
      → route state_address send_ipi t m ≡ ok x
      → Closed l x
  unfolding route handle_hypercall handle_load_fault handle_store_fault handle_failed_fault
      handle_share_page handle_probe_extension handle_rfence_nop handle_invalid_call
  route-closes (start r) m g q = hart_start-closes r m g q
  route-closes stop m g q = hart_stop-closes m g q
  route-closes suspend m g q = hart_suspend-closes m g q
  route-closes reset m g q = system_reset-closes m g q
  route-closes interrupt m g q = interrupt-closes m g q
  route-closes (status hart_id) m g q = hart_status-closes hart_id m g q
  route-closes (ipi r) m g q = ipi-closes r m g q
  route-closes (hypercall r) m g q =
      leave_with_pending_request-closes l state_address send_ipi request (sbi_request r) m g q
  route-closes (load_fault r mmio) m g q =
      leave_with_pending_request-closes l state_address send_ipi (guest_load_page_fault r) mmio m g
        q
  route-closes (store_fault length mmio) m g q =
      leave_with_pending_request-closes l state_address send_ipi (guest_store_page_fault length)
        mmio m g q
  route-closes failed_fault m g q =
      leave-closes l state_address send_ipi non_confidential_error m g q
  route-closes (share r sbi) m g q =
      leave_with_pending_request-closes l state_address send_ipi (share_page r) (sbi_request sbi) m
        g q
  route-closes (unshare address) m g q = unshare-closes address m g q
  route-closes (probe r) m g q =
      exit_to_confidential_hart-closes l state_address send_ipi
        (result (success (probe_response r.argument0))) m g q
  route-closes rfence_nop m g q =
      exit_to_confidential_hart-closes l state_address send_ipi (result (success 0)) m g q
  route-closes invalid m g q =
      exit_to_confidential_hart-closes l state_address send_ipi confidential_error m g q
  route-closes (emulate instruction length) m g q =
      virtual_instruction-closes instruction length m g q

-- Where the first two protection entries describe the confidential memory of a layout (off, and from its
-- start to its end in the mode TOR) when a handler of a confidential hart's trap starts, they do so at its
-- exit, whatever the hart asks for. Where the exit is to the hypervisor, they deny every access to that
-- memory and a dummy hart is assigned.
pub route-Closed :
    (l : MemoryLayout) (state_address : ℕ) (send_ipi : ℕ → Outcome (Unit {0}))
    (t : ConfidentialTrap) (m : Monitor) (x : Exit)
    → IsGuarded l m
    → route state_address send_ipi t m ≡ ok x
    → Closed l x
route-Closed l state_address send_ipi t m x g q = route-closes l state_address send_ipi t m g q
