-- ===== src/Control/Tests.antt =====
-- core/control_data and the control flows: runs on a confidential VM with two harts.
use ace_riscv.Base.{
  ℕ, zero, suc, ◌≡◌, refl, ◌⊎◌, inr, ◌||◌, ◌==◌, true, false, if◌then◌else◌, some, [], ◌∷◌, Outcome,
  ok, err, panic, hart_already_running, arith,
}
use ace_riscv.Riscv.Csr.{Csr, number, hgatp}
use ace_riscv.Riscv.HartState.{empty}
use ace_riscv.Control.Requests.{InterHartRequest, sbi_ipi}
use ace_riscv.Control.ConfidentialHart.{
  ConfidentialHart, started, stopped, suspended, shutdown, start_pending, new, dummy, is_dummy,
  is_executable, set_confidential_vm_id, confidential_hart_id,
}
use ace_riscv.Control.ConfidentialHart.Lifecycle.{
  stop, shut, perform, Step, perform_all, perform-Step, shutdown_is_final,
}
use ace_riscv.Control.HardwareHart.{HardwareHart, init}
use ace_riscv.Control.Samples.{protector, layout, guarded}
use ace_riscv.Base.Bits.{bit}
use ace_riscv.Riscv.Csr.{pmpcfg0, pmpaddr0, pmpaddr1}
use ace_riscv.Riscv.Pmp.{Access, IsPrepared}
use ace_riscv.Control.ConfidentialVm
use ace_riscv.Control.ConfidentialVm.{
  ConfidentialVm, assign, unassign, steal_confidential_hart, return_confidential_hart,
  broadcast_inter_hart_request,
}
use ace_riscv.Control.ConfidentialVm.Switching.{
  WellFormed, steal_confidential_hart-exclusive, steal_confidential_hart-WellFormed,
  return_confidential_hart-WellFormed,
}
use ace_riscv.Control.ConfidentialVm.Isolation.{steal_confidential_hart-Access}
use ace_riscv.Control.ConfidentialVm.Broadcast.{Bounded, broadcast_inter_hart_request-Bounded}

abbrev boot_hart : ConfidentialHart
boot_hart = new 0x8000 (empty 0) started

abbrev second_hart : ConfidentialHart
second_hart = new 0x8000 (empty 1) stopped

abbrev vm : ConfidentialVm
vm = ConfidentialVm.assemble 7 (boot_hart ∷ second_hart ∷ []) protector

-- Its protection registers are prepared for the layout, with both entries off, and every other register
-- holds its number.
abbrev prepared_csrs : Csr → ℕ
prepared_csrs r =
    if (number r == number pmpcfg0)
      || (number r == number pmpaddr0)
      || (number r == number pmpaddr1)
    then guarded 0 r
    else number r

abbrev hart3 : HardwareHart
hart3 = init 0x8000 3 prepared_csrs

hart3-IsPrepared : IsPrepared layout hart3.csrs
unfolding bit init
hart3-IsPrepared = record {
  first_off = refl;
  second_tor_or_off = inr refl;
  from_start = refl;
  to_end = refl;
}

abbrev owned_hart : ConfidentialHart
owned_hart = set_confidential_vm_id 7 boot_hart

abbrev after : ConfidentialVm × HardwareHart
after = assign 0 owned_hart vm hart3

stolen : steal_confidential_hart 0 vm hart3 ≡ ok (after.0, after.1)
unfolding steal_confidential_hart ConfidentialVm.assemble set_confidential_vm_id new
stolen = refl

vm-WellFormed : WellFormed vm
unfolding WellFormed ConfidentialVm.assemble set_confidential_vm_id new empty confidential_hart_id
vm-WellFormed zero h e = inr (ground arith, ground arith)
vm-WellFormed (suc zero) h e = inr (ground arith, ground arith)
vm-WellFormed (suc (suc i)) h e = absurd (ground arith)

hart3_is_dummy : is_dummy hart3.confidential_hart ≡ true
unfolding init dummy new is_dummy
hart3_is_dummy = refl

abbrev returned : ConfidentialVm × HardwareHart
returned = unassign 0 hart3.confidential_hart after.0 after.1

return_after : return_confidential_hart after.0 after.1 ≡ ok (returned.0, returned.1)
unfolding return_confidential_hart assign ConfidentialVm.assemble set_confidential_vm_id new empty
    confidential_hart_id ace_riscv.Control.ConfidentialHart.load_control_status_registers unassign
    init ace_riscv.Control.HardwareHart.store_control_status_registers
return_after = refl

steal_confidential_hart-exclusive_example :
    steal_confidential_hart 0 after.0 hart3 ≡ err hart_already_running
steal_confidential_hart-exclusive_example =
    steal_confidential_hart-exclusive 0 vm after.0 hart3 after.1 hart3 hart3_is_dummy stolen

steal_confidential_hart-WellFormed_example :
    WellFormed after.0
    × (after.1.confidential_hart.confidential_vm_id ≡ some 7)
    × (confidential_hart_id after.1.confidential_hart ≡ 0)
unfolding assign ConfidentialVm.assemble
steal_confidential_hart-WellFormed_example =
    steal_confidential_hart-WellFormed 0 vm after.0 hart3 after.1 vm-WellFormed hart3_is_dummy
      stolen

return_confidential_hart-WellFormed_example : WellFormed returned.0
return_confidential_hart-WellFormed_example =
    return_confidential_hart-WellFormed after.0 returned.0 after.1 returned.1
      steal_confidential_hart-WellFormed_example.0 return_after

steal_confidential_hart-Access_example :
    Access layout 1 after.1.csrs × (after.1.csrs hgatp ≡ vm.memory_protector.hgatp)
steal_confidential_hart-Access_example =
    steal_confidential_hart-Access layout 0 vm after.0 hart3 after.1 hart3-IsPrepared stolen

after-Bounded : Bounded after.0
unfolding Bounded assign ConfidentialVm.assemble set_confidential_vm_id new empty
    confidential_hart_id ConfidentialVm.put_queue ConfidentialVm.adopt
after-Bounded k q e = ground arith

-- A mask that selects both harts.
abbrev to_both : InterHartRequest
to_both = sbi_ipi (record { hart_mask = 3; hart_mask_base = 0 })

abbrev send_ipi : ℕ → Outcome (Unit {0})
send_ipi id = ok tt

abbrev delivered : ConfidentialVm
delivered = elim (broadcast_inter_hart_request send_ipi to_both after.0) [
  | ok (_, v) ↦ v
  | err e ↦ vm
  | panic ↦ vm
]

broadcast_both : broadcast_inter_hart_request send_ipi to_both after.0 ≡ ok (ok tt, delivered)
unfolding broadcast_inter_hart_request ConfidentialVm.assemble set_confidential_vm_id new empty
    ace_riscv.Control.ConfidentialHart.apply assign init dummy
    ace_riscv.Control.HardwareHart.store_control_status_registers
broadcast_both = refl

broadcast_inter_hart_request-Bounded_example : Bounded delivered
broadcast_inter_hart_request-Bounded_example =
    broadcast_inter_hart_request-Bounded send_ipi to_both after.0 delivered (ok tt) after-Bounded
      broadcast_both

abbrev stopped_hart : ConfidentialHart
stopped_hart = record owned_hart { lifecycle_state = stopped }

owned_stops : perform stop owned_hart ≡ ok stopped_hart
unfolding perform set_confidential_vm_id new
owned_stops = refl

perform-Step_example :
    ((stopped_hart.lifecycle_state ≡ owned_hart.lifecycle_state)
      ⊎ Step owned_hart.lifecycle_state stopped_hart.lifecycle_state)
    × (stopped_hart.confidential_vm_id ≡ owned_hart.confidential_vm_id)
perform-Step_example = perform-Step stop owned_hart stopped_hart owned_stops

abbrev shutdown_hart : ConfidentialHart
shutdown_hart = record owned_hart { lifecycle_state = shutdown }

shut_again : perform_all (shut ∷ shut ∷ []) shutdown_hart ≡ ok shutdown_hart
unfolding perform_all set_confidential_vm_id new
shut_again = refl

shutdown_is_final_example :
    (shutdown_hart.lifecycle_state ≡ shutdown) × (is_executable shutdown_hart ≡ false)
shutdown_is_final_example =
    shutdown_is_final (shut ∷ shut ∷ []) shutdown_hart shutdown_hart refl shut_again
