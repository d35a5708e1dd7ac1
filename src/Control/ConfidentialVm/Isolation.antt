-- ===== src/Control/ConfidentialVm/Isolation.antt =====
-- core/control_data/confidential_vm.rs: what the hypervisor finds on a hardware hart after a
-- confidential hart ran on it.
use ace_riscv.Base.{ℕ, ◌≡◌, refl, ap, ok}
use ace_riscv.Riscv.Csr.{Csr, hgatp, pmpcfg0, vsie}
use ace_riscv.Riscv.Csr
use ace_riscv.Riscv.HartState.{load_control_status_registers_from_main_memory}
use ace_riscv.Memory.Layout.{MemoryLayout}
use ace_riscv.Riscv.Pmp.{
  IsPrepared, IsPrepared-same, IsConfigured, IsConfigured-same, Access, enable_hypervisor-Access,
  enable_confidential_vm-Access,
}
use ace_riscv.Riscv.Protection.{enable_confidential_vm}
use ace_riscv.Control.ConfidentialHart
use ace_riscv.Control.ConfidentialHart.{
  ConfidentialHart, confidential_hart_id, is_dummy, may_run, is_executable,
}
use ace_riscv.Control.HardwareHart
use ace_riscv.Control.HardwareHart.{HardwareHart}
use ace_riscv.Control.ConfidentialVm.{
  ConfidentialVm, assign, unassign, steal_confidential_hart, return_confidential_hart,
}
use ace_riscv.Control.ConfidentialVm.Switching.{
  steal_confidential_hart-ok, return_confidential_hart-ok,
}

-- Where the protection registers of a hardware hart have the bounds of the confidential memory, with
-- the first entry off and the second one off or in the mode TOR, once a confidential hart is assigned the
-- second entry matches the confidential memory and permits every access to it, and the second-level
-- page table is that of the confidential VM.
pub steal_confidential_hart-Access :
    (l : MemoryLayout) (id : ℕ) (vm vm' : ConfidentialVm) (w w' : HardwareHart)
    → IsPrepared l w.csrs
    → steal_confidential_hart id vm w ≡ ok (vm', w')
    → Access l 1 w'.csrs × (w'.csrs hgatp ≡ vm.memory_protector.hgatp)
unfolding assign enable_confidential_vm HardwareHart.store_control_status_registers
    ConfidentialHart.load_control_status_registers load_control_status_registers_from_main_memory
steal_confidential_hart-Access l id vm vm' w w' g q =
    let (h, e, b, c, r) = steal_confidential_hart-ok id vm w q in
    let u : w' ≡ (assign id h vm w).1 = ap (λ p. p.1) r in
    let (w'', injected) = HardwareHart.store_control_status_registers w in
    let csrs = (ConfidentialHart.load_control_status_registers injected h w''.csrs).1 in
    let prepared = IsPrepared-same l w.csrs csrs (refl, refl, refl) g in
    (rw u (enable_confidential_vm-Access l vm.memory_protector.hgatp csrs prepared), rw u refl)

pub return_confidential_hart-Access :
    (l : MemoryLayout) (vm vm' : ConfidentialVm) (w w' : HardwareHart)
    → IsConfigured l w.csrs
    → return_confidential_hart vm w ≡ ok (vm', w')
    → Access l 0 w'.csrs
unfolding unassign HardwareHart.load_control_status_registers Csr.set
    load_control_status_registers_from_main_memory ConfidentialHart.store_control_status_registers
return_confidential_hart-Access l vm vm' w w' g q =
    let (d, f, o, t) = return_confidential_hart-ok vm w q in
    let v : w' ≡ (unassign (confidential_hart_id w.confidential_hart) d vm w).1 = ap (λ x. x.1) t in
    let loaded =
      HardwareHart.load_control_status_registers (w.csrs vsie)
        (record w { confidential_hart = d }) in
    let configured = IsConfigured-same l w.csrs loaded.csrs (refl, refl, refl) g in
    rw v (enable_hypervisor-Access l _ loaded.csrs configured)
