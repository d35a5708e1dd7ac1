-- ===== src/Control/Flow/Safety.antt =====
-- The control flows, as the hypervisor sees them: the protection registers and the assigned hart when the
-- hypervisor runs.
use ace_riscv.Base.{
  ℕ, ◌≡◌, refl, bit_or, subst, sym, ◌>>=◌, >>=-ok-elim, inl, inr, true, Outcome, Outcome-cases, ok,
  >>=-eq-ok, arith,
}
use ace_riscv.Riscv.Csr.{Csr, Csrs, number, pmpcfg0}
use ace_riscv.Riscv.Csr
use ace_riscv.Memory.Layout.{MemoryLayout}
use ace_riscv.Riscv.Pmp.{IsConfigured, IsConfigured-same, Access, Access-same, SameProtection}
use ace_riscv.Control.Requests.{PendingRequest, ExposeToConfidentialVm}
use ace_riscv.Control.ConfidentialHart
use ace_riscv.Control.ConfidentialHart.{ConfidentialHart, is_dummy}
use ace_riscv.Control.HardwareHart
use ace_riscv.Control.HardwareHart.{
  HardwareHart, ExposeToHypervisor, sbi_request, sbi_vm_request, sbi_result, opensbi_result,
  mmio_load_request, mmio_store_request, interrupt_request, enabled_interrupts, apply_trap,
  apply_sbi_request, trap_hstatus,
}
use ace_riscv.Control.ConfidentialVm.Isolation.{return_confidential_hart-Access}
use ace_riscv.Control.Storage.{confidential_vm}
use ace_riscv.Mmu.Drop.{drop_table}
use ace_riscv.Control.ConfidentialVm.{ConfidentialVm, return_confidential_hart}
use ace_riscv.Control.Exits.{
  unwrap, drop_confidential_vm, Monitor, Exit, to_hypervisor, to_confidential_hart,
  into_non_confidential_flow, exit_to_hypervisor, current_vm_id, exit_to_confidential_hart, leave,
  leave_with_pending_request, with_hart, confidential_error,
}

apply-keeps :
    (t : ExposeToHypervisor) (w : HardwareHart) {w' : HardwareHart}
    → HardwareHart.apply t w ≡ ok w'
    → SameProtection w.csrs w'.csrs × (w'.confidential_hart ≡ w.confidential_hart)
unfolding HardwareHart.apply apply_sbi_request apply_trap trap_hstatus Csr.set Csr.read_and_set_bit
    Csr.read_and_clear_bit
apply-keeps (sbi_request r) w {w'} q = ground arith
apply-keeps (sbi_vm_request r) w {w'} q = ground arith
apply-keeps (sbi_result r) w {w'} q = ground arith
apply-keeps (opensbi_result a b c d) w {w'} q = ground arith
apply-keeps (mmio_load_request a b c d) w {w'} q = ground arith
apply-keeps (mmio_store_request a b c d e f) w {w'} q = ground arith
apply-keeps (interrupt_request a) w {w'} q = ground arith
apply-keeps (enabled_interrupts a) w {w'} q = ground arith

-- The protection registers describe the confidential memory of the layout.
abbrev pub IsGuarded : MemoryLayout → Monitor → Type 0
IsGuarded l m = IsConfigured l m.hardware_hart.csrs

-- And they deny every access to it, while a dummy hart is assigned.
abbrev pub IsClosed : MemoryLayout → Monitor → Type 0
IsClosed l m = Access l 0 m.hardware_hart.csrs × (is_dummy m.hardware_hart.confidential_hart ≡ true)

-- Where the hypervisor runs next, the confidential memory is closed to it.
unfoldable pub Closed : MemoryLayout → Exit → Type 0
Closed l (to_hypervisor m) = IsClosed l m
Closed l (to_confidential_hart m) = IsGuarded l m

pub into_non_confidential_flow-closes :
    (l : MemoryLayout) (m : Monitor) {m' : Monitor}
    → IsGuarded l m
    → into_non_confidential_flow m ≡ ok m'
    → IsClosed l m'
unfolding into_non_confidential_flow
into_non_confidential_flow-closes l m {m'} g q =
    let (id, a, q1) = >>=-eq-ok (current_vm_id m) _ q in
    let (vm, b, q2) = >>=-eq-ok (unwrap (confidential_vm id m.control_data)) _ q1 in
    let ((vm', w), c, q3) = >>=-eq-ok (return_confidential_hart vm m.hardware_hart) _ q2 in
    let (e, f) : (w ≡ m'.hardware_hart) × (is_dummy w.confidential_hart ≡ true) = ground arith in
    (
      subst (λ x. Access l 0 x.csrs) e
          (return_confidential_hart-Access l vm vm' m.hardware_hart w g c),
      subst (λ x. is_dummy x.confidential_hart ≡ true) e f,
    )

pub exit_to_hypervisor-closes :
    (l : MemoryLayout) (t : ExposeToHypervisor) (m : Monitor) {x : Exit}
    → IsClosed l m
    → exit_to_hypervisor t m ≡ ok x
    → Closed l x
unfolding exit_to_hypervisor Closed Csr.set
exit_to_hypervisor-closes l t m {x} a q =
    let (w, b, q1) = >>=-eq-ok (HardwareHart.apply t m.hardware_hart) _ q in
    let (k, n) = apply-keeps t m.hardware_hart b in
    let csrs =
      Csr.set Csr.mstatus (w.non_confidential.csrs Csr.mstatus)
        (Csr.set Csr.mepc (w.non_confidential.csrs Csr.mepc) w.csrs) in
    let m1 : Monitor = record m { hardware_hart = record w { csrs = csrs } } in
    let e : to_hypervisor m1 ≡ x = ground arith in
    let closed : Closed l (to_hypervisor m1) =
      (Access-same l 0 m.hardware_hart.csrs csrs k a.0, rw n a.1) in
    subst (Closed l) e closed

-- The drop of a confidential VM leaves the hardware hart as it is.
pub drop_confidential_vm-keeps :
    (vm : ConfidentialVm) (m : Monitor) {m' : Monitor}
    → drop_confidential_vm vm m ≡ ok m'
    → m'.hardware_hart ≡ m.hardware_hart
unfolding drop_confidential_vm
drop_confidential_vm-keeps vm m {m'} q =
    >>=-ok-elim (drop_table vm.memory_protector.root_page_table.page_table m.heap) _ q
      (λ heap a b. ground arith)

-- An exit to the hypervisor after a drop, from a monitor that is closed.
pub drop-closes :
    (l : MemoryLayout) (t : ExposeToHypervisor) (vm : ConfidentialVm) (m : Monitor) {x : Exit}
    → IsClosed l m
    → (drop_confidential_vm vm m >>= exit_to_hypervisor t) ≡ ok x
    → Closed l x
drop-closes l t vm m {x} c q =
    >>=-ok-elim (drop_confidential_vm vm m) (exit_to_hypervisor t) q (λ m' a b.
      exit_to_hypervisor-closes l t m'
        (subst (λ w. Access l 0 w.csrs × (is_dummy w.confidential_hart ≡ true))
          (sym (drop_confidential_vm-keeps vm m a)) c)
        b)

module _ (l : MemoryLayout) (state_address : ℕ) (send_ipi : ℕ → Outcome (Unit {0})) where
  pub exit_to_confidential_hart-closes :
      (t : ExposeToConfidentialVm) (m : Monitor) {x : Exit}
      → IsGuarded l m
      → exit_to_confidential_hart state_address send_ipi t m ≡ ok x
      → Closed l x
  unfolding exit_to_confidential_hart Closed Csr.set
  exit_to_confidential_hart-closes t m {x} g q =
      >>=-ok-elim (ConfidentialHart.apply t m.hardware_hart.confidential_hart) _ q (λ h b q1.
        let csrs = Csr.set Csr.sscratch state_address (
          Csr.set Csr.mepc (h.state.csrs Csr.mepc) (
            Csr.set Csr.mstatus (h.state.csrs Csr.mstatus) (
              Csr.set Csr.hvip (bit_or (h.state.csrs Csr.hvip) (h.state.csrs Csr.vsip))
                m.hardware_hart.csrs))) in
        let m1 : Monitor = record m {
          hardware_hart = record m.hardware_hart { confidential_hart = h; csrs = csrs };
        } in
        let e : to_confidential_hart m1 ≡ x = ground arith in
        let guarded : Closed l (to_confidential_hart m1) =
          IsConfigured-same l m.hardware_hart.csrs csrs (refl, refl, refl) g in
        subst (Closed l) e guarded)

  pub leave-closes :
      (t : ExposeToHypervisor) (m : Monitor) {x : Exit}
      → IsGuarded l m
      → leave state_address send_ipi t m ≡ ok x
      → Closed l x
  leave-closes t m g q =
      let (m', a, q1) = >>=-eq-ok (into_non_confidential_flow m) (exit_to_hypervisor t) q in
      exit_to_hypervisor-closes l t m' (into_non_confidential_flow-closes l m g a) q1

  pub leave_with_pending_request-closes :
      (r : PendingRequest) (t : ExposeToHypervisor) (m : Monitor) {x : Exit}
      → IsGuarded l m
      → leave_with_pending_request state_address send_ipi r t m ≡ ok x
      → Closed l x
  unfolding leave_with_pending_request
  leave_with_pending_request-closes r t m {x} g q =
      elim (Outcome-cases
        (ConfidentialHart.set_pending_request r m.hardware_hart.confidential_hart)) [
          | inl (h, a) ↦ leave-closes t (with_hart h m) g (ground arith)
          | inr (inl (e, a)) ↦
              exit_to_confidential_hart-closes confidential_error m g (ground arith)
          | inr (inr a) ↦ absurd (ground arith)
        ]
