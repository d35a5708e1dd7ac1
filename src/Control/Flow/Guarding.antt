-- ===== src/Control/Flow/Guarding.antt =====
-- confidential_flow: the steps of the handlers that do not switch the flow leave the protection of memory
-- as it is.
use ace_riscv.Base.{
  ℕ, ◌≡◌, refl, inl, inr, Outcome, Outcome-cases, ok, >>=-ok-elim, ok_or, subst, arith,
  invalid_hart_id,
}
use ace_riscv.Memory.Layout.{MemoryLayout}
use ace_riscv.Riscv.Csr
use ace_riscv.Riscv.Csr.{Csrs}
use ace_riscv.Riscv.Pmp.{IsConfigured, IsConfigured-same, SameProtection}
use ace_riscv.Mmu.Table.{SharedPage}
use ace_riscv.Mmu.Protector
use ace_riscv.Control.Requests.{InterHartRequest}
use ace_riscv.Control.ConfidentialHart.{confidential_hart_id}
use ace_riscv.Control.HardwareHart.{HardwareHart, swap_mscratch}
use ace_riscv.Control.ConfidentialVm.{broadcast_inter_hart_request}
use ace_riscv.Control.Storage.{confidential_vm}
use ace_riscv.Control.Exits.{Monitor, current_vm_id, unwrap}
use ace_riscv.Control.Handlers.{broadcast, apply_all, process_inter_hart_requests}
use ace_riscv.Control.Sharing.{map_in_confidential_vm}
use ace_riscv.Control.Flow.Safety.{IsGuarded}

swapped-same : (w : HardwareHart) → SameProtection w.csrs (swap_mscratch (swap_mscratch w)).csrs
unfolding swap_mscratch Csr.set
swapped-same w = (refl, refl, refl)

module _ (l : MemoryLayout) where
  pub broadcast-guards :
      (send_ipi : ℕ → Outcome (Unit {0})) (state_address : ℕ) (r : InterHartRequest) (m : Monitor)
      {o : Outcome (Unit {0})} {m' : Monitor}
      → IsGuarded l m
      → broadcast state_address send_ipi r m ≡ ok (o, m')
      → IsGuarded l m'
  unfolding broadcast
  broadcast-guards send_ipi state_address r m {o} {m'} g q =
      >>=-ok-elim (current_vm_id m) _ q (λ id a q1.
        elim (Outcome-cases (confidential_vm id m.control_data)) [
          | inl (vm, b) ↦
              >>=-ok-elim (broadcast_inter_hart_request send_ipi r vm) _ (rw b at q1)
                (λ (x, vm') c q2.
                  let w = m.hardware_hart in
                  let e : swap_mscratch (swap_mscratch w) ≡ m'.hardware_hart = ground arith in
                  subst (λ y. IsConfigured l y.csrs) e
                    (IsConfigured-same l w.csrs (swap_mscratch (swap_mscratch w)).csrs
                      (swapped-same w) g))
          | inr (inl (x, b)) ↦ let e : m ≡ m' = ground arith in subst (IsGuarded l) e g
          | inr (inr b) ↦ absurd (ground arith)
        ])

  pub process_inter_hart_requests-guards :
      (send_ipi : ℕ → Outcome (Unit {0})) (state_address : ℕ) (m : Monitor) {m' : Monitor}
      → IsGuarded l m
      → process_inter_hart_requests state_address send_ipi m ≡ ok m'
      → IsGuarded l m'
  unfolding process_inter_hart_requests
  process_inter_hart_requests-guards send_ipi state_address m {m'} g q =
      >>=-ok-elim (current_vm_id m) _ q (λ id a q1.
        >>=-ok-elim (unwrap (confidential_vm id m.control_data)) _ q1 (λ vm b q2.
          let key = confidential_hart_id m.hardware_hart.confidential_hart in
          >>=-ok-elim (unwrap (ok_or (vm.inter_hart_requests key) invalid_hart_id)) _ q2
            (λ requests c q3.
              >>=-ok-elim
                (apply_all state_address send_ipi requests m.hardware_hart.confidential_hart) _ q3
                (λ h d q4.
                  let e : m.hardware_hart.csrs ≡ m'.hardware_hart.csrs = ground arith in
                  subst (IsConfigured l) e g))))

  pub map_in_confidential_vm-guards :
      (id : ℕ) (page : SharedPage) (m : Monitor) {o : Outcome (Unit {0})} {m' : Monitor}
      → IsGuarded l m
      → map_in_confidential_vm id page m ≡ ok (o, m')
      → IsGuarded l m'
  unfolding map_in_confidential_vm
  map_in_confidential_vm-guards id page m {o} {m'} g q =
      elim (Outcome-cases (confidential_vm id m.control_data)) [
        | inl (vm, b) ↦
            >>=-ok-elim (Protector.map_shared_page m.memory_layout page vm.memory_protector m.heap)
              _ (rw (b, map_in_confidential_vm) at q)
              (λ (r, p, h) c q2.
                let e : m.hardware_hart ≡ m'.hardware_hart = ground arith in
                subst (λ y. IsConfigured l y.csrs) e g)
        | inr (inl (x, b)) ↦ let e : m ≡ m' = ground arith in subst (IsGuarded l) e g
        | inr (inr b) ↦ absurd (ground arith)
      ]
