-- ===== src/Control/Router/Closing.antt =====
-- non_confidential_flow: the protection registers and the assigned hart at the exit that a call of the
-- hypervisor or of a VM takes.
use ace_riscv.Base.{
  ℕ, ◌≡◌, true, Outcome, Outcome-cases, inl, inr, Option, none, some, ok, err, panic, ◌>>=◌,
  >>=-ok-elim, assert, not, sym, subst, arith,
}
use ace_riscv.Riscv.Csr.{Csrs, set, hgatp}
use ace_riscv.Riscv.Sbi.{TrapCause}
use ace_riscv.Riscv.Sbi.{
  interrupt, illegal_instruction, load_address_misaligned, load_access_fault,
  store_address_misaligned, store_access_fault, hs_ecall, vs_ecall, machine_ecall, ace,
  resume_confidential_hart, terminate_confidential_vm, promote_to_confidential_vm,
}
use ace_riscv.Memory.Page.{Memory}
use ace_riscv.Control.Requests.{
  PendingRequest, request, share_page, guest_load_page_fault, guest_store_page_fault,
  hsm_hart_start, hsm_hart_start_pending, resume, success, hart_start, hart_start_pending,
  kvm_srst_system_reset, kvm_ace_register,
}
use ace_riscv.Control.ConfidentialHart.{is_dummy, take_request}
use ace_riscv.Control.HardwareHart.{HardwareHart, sbi_request, sbi_result, swap_mscratch}
use ace_riscv.Control.ConfidentialVm.{steal_confidential_hart}
use ace_riscv.Control.ConfidentialVm.Isolation.{steal_confidential_hart-Access}
use ace_riscv.Memory.Layout.{MemoryLayout}
use ace_riscv.Riscv.Pmp.{Access, Access-same, SameProtection, IsConfigured-IsPrepared}
use ace_riscv.Control.Storage.{ControlData, confidential_vm, update, remove_confidential_vm}
use ace_riscv.Control.Exits.{Monitor, Exit, non_confidential_error}
use ace_riscv.Control.Handlers.{process_inter_hart_requests}
use ace_riscv.Control.Flow.{
  respond, resume_confidential_hart_execution, handle_resume, handle_terminate,
}
use ace_riscv.Control.Flow.Guarding.{process_inter_hart_requests-guards}
use ace_riscv.Control.Flow.Safety.{
  IsClosed, IsGuarded, Closed, drop-closes, exit_to_hypervisor-closes,
  exit_to_confidential_hart-closes,
}
use ace_riscv.Control.Flow.Routes.{share_page_result-closes}
use ace_riscv.Control.Declassify.{
  hypervisor_vm_request, promote_to_confidential_vm_request, hypervisor_trap_reason, restore_after,
  resume_request, terminate_request, trap_reason, store_volatile,
}
use ace_riscv.Control.HardwareHart.{restore_original_gprs}
use ace_riscv.Riscv.HartState.{HartArchitecturalState}
use ace_riscv.Mmu.Drop.{drop_table}
use ace_riscv.Mmu.Copy.{from_vm_state}
use ace_riscv.Mmu.Protector.{ConfidentialVmMemoryProtector}
use ace_riscv.Control.Promotion.{
  register_confidential_vm, create_confidential_vm, finish_creation, answer_promotion,
  handle_promote,
}
use ace_riscv.Control.Router.{
  SbiTrapRegs, Environment, opensbi_request, handle_delegate_hypercall, handle_delegate_to_opensbi,
  enter_non_confidential_flow, dispatch_call, route_non_confidential_flow, with_hardware_hart,
}

module _ (l : MemoryLayout) (state_address : ℕ) (send_ipi : ℕ → Outcome (Unit {0})) where
  respond-closes :
      (o : Option PendingRequest) (m : Monitor) {x : Exit}
      → IsGuarded l m
      → respond state_address send_ipi o m ≡ ok x
      → Closed l x
  unfolding respond
  respond-closes none m g q = exit_to_confidential_hart-closes l state_address send_ipi resume m g q
  respond-closes (some request) m g q =
      exit_to_confidential_hart-closes l state_address send_ipi _ m g q
  respond-closes (some (guest_load_page_fault r)) m g q =
      exit_to_confidential_hart-closes l state_address send_ipi _ m g q
  respond-closes (some (guest_store_page_fault n)) m g q =
      exit_to_confidential_hart-closes l state_address send_ipi _ m g q
  respond-closes (some (share_page r)) m g q =
      share_page_result-closes l state_address send_ipi r m g q
  respond-closes (some hsm_hart_start) m g q =
      exit_to_confidential_hart-closes l state_address send_ipi hart_start m g q
  respond-closes (some hsm_hart_start_pending) m g q =
      exit_to_confidential_hart-closes l state_address send_ipi hart_start_pending m g q

  execution-closes :
      (m : Monitor) {x : Exit}
      → IsGuarded l m
      → resume_confidential_hart_execution state_address send_ipi m ≡ ok x
      → Closed l x
  unfolding resume_confidential_hart_execution take_request
  execution-closes m g q =
      >>=-ok-elim (assert (not (is_dummy m.hardware_hart.confidential_hart))) _ q (λ u a q1.
        >>=-ok-elim (process_inter_hart_requests state_address send_ipi m) _ q1 (λ m' b q2.
          let g' = process_inter_hart_requests-guards l send_ipi state_address m g b in
          respond-closes m'.hardware_hart.confidential_hart.pending _ g' q2))

  resume-closes :
      (vm_id hart_id : ℕ) (m : Monitor) {x : Exit}
      → IsClosed l m
      → handle_resume state_address send_ipi vm_id hart_id m ≡ ok x
      → Closed l x
  unfolding handle_resume
  resume-closes vm_id hart_id m {x} c q =
      elim (Outcome-cases (
        confidential_vm vm_id m.control_data >>= λ vm.
        steal_confidential_hart hart_id vm m.hardware_hart)) [
          | inl ((vm, w), a) ↦ >>=-ok-elim (confidential_vm vm_id m.control_data) _ a (λ vm0 b a1.
              let prepared = IsConfigured-IsPrepared l m.hardware_hart.csrs c.0.configured in
              let (opened, _) =
                steal_confidential_hart-Access l hart_id vm0 vm m.hardware_hart w prepared a1 in
              execution-closes
                (record m { control_data = update vm m.control_data; hardware_hart = w })
                opened.configured (ground arith))
          | inr (inl (e, a)) ↦
              exit_to_hypervisor-closes l (sbi_request kvm_srst_system_reset) m c (ground arith)
          | inr (inr a) ↦ absurd (ground arith)
        ]

terminate-closes :
    (l : MemoryLayout) (vm_id : ℕ) (m : Monitor) {x : Exit}
    → IsClosed l m
    → handle_terminate vm_id m ≡ ok x
    → Closed l x
unfolding handle_terminate
terminate-closes l vm_id m {x} c q =
    elim (Outcome-cases (remove_confidential_vm vm_id m.control_data)) [
      | inl ((vm, remaining), a) ↦
          drop-closes l (sbi_result (success 0)) vm (record m { control_data = remaining }) c
            (rw (a, handle_terminate) at q)
      | inr (inl (e, a)) ↦ exit_to_hypervisor-closes l non_confidential_error m c (ground arith)
      | inr (inr a) ↦ absurd (ground arith)
    ]

-- The handler of OpenSBI does not change the protection registers.
module _ (l : MemoryLayout) (sbi_trap_handler : SbiTrapRegs → Csrs → SbiTrapRegs × Csrs)
    (keeps : (regs : SbiTrapRegs) (csrs : Csrs)
      → SameProtection csrs (sbi_trap_handler regs csrs).1) where
  opensbi-closes :
      (m : Monitor) {x : Exit}
      → IsClosed l m
      → handle_delegate_to_opensbi sbi_trap_handler m ≡ ok x
      → Closed l x
  unfolding handle_delegate_to_opensbi swap_mscratch set
  opensbi-closes m (a, d) q =
      exit_to_hypervisor-closes l _ _
        (Access-same l 0 m.hardware_hart.csrs _ (keeps (opensbi_request m.hardware_hart) _) a, d) q

finish_creation-keeps :
    (entry_point : ℕ) (number_of_harts : ℕ → Memory → Outcome ℕ) (p : ConfidentialVmMemoryProtector)
    (r : Outcome (ℕ × ControlData)) (m : Monitor) {o : Outcome ℕ} {m' : Monitor}
    → finish_creation entry_point number_of_harts p r m ≡ ok (o, m')
    → m'.hardware_hart ≡ m.hardware_hart
unfolding finish_creation
finish_creation-keeps e n p (ok (id, d)) m {o} {m'} q = ground arith
finish_creation-keeps e n p (err x) m {o} {m'} q =
    >>=-ok-elim (drop_table p.root_page_table.page_table m.heap) _ q (λ h a b. ground arith)
finish_creation-keeps e n p panic m q = absurd (ground arith)

create_confidential_vm-keeps :
    (entry_point : ℕ) (number_of_harts : ℕ → Memory → Outcome ℕ) (fdt_address : ℕ)
    (h : HartArchitecturalState) (m : Monitor) {o : Outcome ℕ} {m' : Monitor}
    → create_confidential_vm entry_point number_of_harts fdt_address h m ≡ ok (o, m')
    → m'.hardware_hart ≡ m.hardware_hart
unfolding create_confidential_vm
create_confidential_vm-keeps entry_point number_of_harts fdt_address h m {o} {m'} q =
    >>=-ok-elim (from_vm_state m.memory_layout (h.csrs hgatp) m.heap) _ q (λ (copied, heap) a q1.
      elim (Outcome-cases copied) [
        | inl (p, b) ↦
            finish_creation-keeps entry_point number_of_harts p
              (register_confidential_vm entry_point number_of_harts fdt_address h p
                (record m { heap = heap }))
              (record m { heap = heap }) (rw b at q1)
        | inr (inl (e, b)) ↦ ground arith
        | inr (inr b) ↦ absurd (ground arith)
      ])

promote-closes :
    (l : MemoryLayout) (entry_point : ℕ) (number_of_harts : ℕ → Memory → Outcome ℕ) (m : Monitor)
    {x : Exit}
    → IsClosed l m
    → handle_promote entry_point number_of_harts m ≡ ok x
    → Closed l x
unfolding handle_promote answer_promotion
promote-closes l entry_point number_of_harts m c q =
    let (fdt_address, h) = promote_to_confidential_vm_request m.hardware_hart in
    >>=-ok-elim (create_confidential_vm entry_point number_of_harts fdt_address h m) _ q
      (λ (o, m') a q1.
        answer o m'
          (subst (λ w. Access l 0 w.csrs × (is_dummy w.confidential_hart ≡ true))
            (sym (create_confidential_vm-keeps entry_point number_of_harts fdt_address h m a)) c)
          q1)
  where
    answer :
        (o : Outcome ℕ) (m' : Monitor) {x : Exit}
        → IsClosed l m'
        → answer_promotion entry_point number_of_harts o m' ≡ ok x
        → Closed l x
    answer (ok id) m' c q = exit_to_hypervisor-closes l (sbi_request (kvm_ace_register id 0)) m' c q
    answer (err e) m' c q = exit_to_hypervisor-closes l non_confidential_error m' c q
    answer panic m' c q = absurd (ground arith)

restore_after-keeps :
    (l : MemoryLayout) (reason : TrapCause) (m : Monitor)
    → IsClosed l m
    → IsClosed l (with_hardware_hart (restore_after reason m.hardware_hart) m)
unfolding restore_after restore_original_gprs
restore_after-keeps l (hs_ecall (ace f)) m c = c
restore_after-keeps l reason m c = c

enter_non_confidential_flow-keeps :
    (l : MemoryLayout) (m : Monitor) {m' : Monitor}
    → IsClosed l m
    → enter_non_confidential_flow m ≡ ok m'
    → IsClosed l m'
unfolding enter_non_confidential_flow
enter_non_confidential_flow-keeps l m {m'} c q =
    let w = m.hardware_hart in
    let w' : HardwareHart = record w {
      non_confidential = store_volatile w.csrs w.non_confidential;
    } in
    >>=-ok-elim (assert (is_dummy w'.confidential_hart)) _ q
      (λ u a b. let e : with_hardware_hart w' m ≡ m' = ground arith in subst (IsClosed l) e c)

module _ (l : MemoryLayout) (env : Environment)
    (keeps : (regs : SbiTrapRegs) (csrs : Csrs)
      → SameProtection csrs (env.sbi_trap_handler regs csrs).1) where
  dispatch_call-closes :
      (reason : TrapCause) (m : Monitor) {x : Exit}
      → IsClosed l m
      → dispatch_call env reason m ≡ ok x
      → Closed l x
  unfolding dispatch_call handle_delegate_hypercall
  dispatch_call-closes (hs_ecall (ace resume_confidential_hart)) m c q =
      let (vm_id, hart_id) = resume_request m.hardware_hart in
      resume-closes l env.state_address env.send_ipi vm_id hart_id m c q
  dispatch_call-closes (hs_ecall (ace terminate_confidential_vm)) m c q =
      terminate-closes l (terminate_request m.hardware_hart) m c q
  dispatch_call-closes (vs_ecall (ace promote_to_confidential_vm)) m c q =
      promote-closes l env.entry_point env.number_of_harts m c q
  dispatch_call-closes (hs_ecall f) m c q = opensbi-closes l env.sbi_trap_handler keeps m c q
  dispatch_call-closes (vs_ecall f) m c q =
      exit_to_hypervisor-closes l (hypervisor_vm_request m.hardware_hart) m c q
  dispatch_call-closes interrupt m c q = opensbi-closes l env.sbi_trap_handler keeps m c q
  dispatch_call-closes illegal_instruction m c q = opensbi-closes l env.sbi_trap_handler keeps m c q
  dispatch_call-closes load_address_misaligned m c q =
      opensbi-closes l env.sbi_trap_handler keeps m c q
  dispatch_call-closes load_access_fault m c q = opensbi-closes l env.sbi_trap_handler keeps m c q
  dispatch_call-closes store_address_misaligned m c q =
      opensbi-closes l env.sbi_trap_handler keeps m c q
  dispatch_call-closes store_access_fault m c q = opensbi-closes l env.sbi_trap_handler keeps m c q
  dispatch_call-closes machine_ecall m c q = opensbi-closes l env.sbi_trap_handler keeps m c q
  dispatch_call-closes reason m c q = absurd (ground arith)

  -- Where the first two protection entries describe the confidential memory of a layout and deny every
  -- access to it and a dummy hart is assigned when a trap of the hypervisor or of a VM arrives, that is so
  -- again at an exit to the hypervisor, whatever the trap is; at an exit to a confidential hart the
  -- entries still describe that memory. OpenSBI does not change the protection registers.
  pub route_non_confidential_flow-Closed :
      (m : Monitor) (x : Exit)
      → IsClosed l m
      → route_non_confidential_flow env m ≡ ok x
      → Closed l x
  unfolding route_non_confidential_flow hypervisor_trap_reason
  route_non_confidential_flow-Closed m x c q =
      >>=-ok-elim (enter_non_confidential_flow m) _ q (λ m' a q1.
        let reason = trap_reason m'.hardware_hart.csrs m'.hardware_hart.non_confidential in
        dispatch_call-closes reason (with_hardware_hart (restore_after reason m'.hardware_hart) m')
          (restore_after-keeps l reason m' (enter_non_confidential_flow-keeps l m c a)) q1)
