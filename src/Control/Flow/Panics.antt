-- ===== src/Control/Flow/Panics.antt =====
-- confidential_flow/control_flow/mod.rs: a confidential hart can stop the security monitor.
use ace_riscv.Base.{ℕ, ◌<◌, ◌≡◌, ◌⊎◌, inl, inr, refl, Bool-cases, bit_and, panic, Outcome}
use ace_riscv.Riscv.Registers.{a6, a7}
use ace_riscv.Riscv.Csr.{mcause, mtinst}
use ace_riscv.Riscv.HartState.{gpr, set_csr}
use ace_riscv.Riscv.Words.{is_bit_enabled}
use ace_riscv.Riscv.Sbi.{
  TrapCause, trap_cause, decode, vs_ecall, guest_load_page_fault, guest_store_page_fault,
}
use ace_riscv.Riscv.CompressedInstructions.{DecodedInstruction}
use ace_riscv.Control.ConfidentialHart.{ConfidentialHart, is_dummy}
use ace_riscv.Control.Emulation.{probe_response}
use ace_riscv.Control.Declassify.{store_volatile, trap_reason}
use ace_riscv.Control.Exits.{Monitor}
use ace_riscv.Control.Dispatch.{dispatch}
use ace_riscv.Control.Dispatch.Panics.{dispatch_unknown, dispatch_even_fault}
use ace_riscv.Control.Flow.{enter_confidential_flow, route_confidential_flow}

module _ (state_address : ℕ) (send_ipi : ℕ → Outcome (Unit {0})) (decoder : ℕ → DecodedInstruction)
    (instruction_length : ℕ → ℕ) where
  route_confidential_flow-panics :
      (m : Monitor) (reason : TrapCause)
      → trap_reason m.hardware_hart.csrs m.hardware_hart.confidential_hart.state ≡ reason
      → ((h : ConfidentialHart)
          → dispatch decoder instruction_length reason h m.hardware_hart.csrs ≡ panic)
      → route_confidential_flow state_address send_ipi decoder instruction_length m ≡ panic
  unfolding route_confidential_flow enter_confidential_flow store_volatile set_csr trap_reason gpr
  route_confidential_flow-panics m reason t p =
      elim (Bool-cases (is_dummy m.hardware_hart.confidential_hart)) [
        | inl d ↦ rw d refl
        | inr d ↦
            rw (d, t)
              (rw
                (p (record m.hardware_hart.confidential_hart {
                  state =
                      store_volatile m.hardware_hart.csrs m.hardware_hart.confidential_hart.state;
                }))
                refl)
      ]

  -- A call of a confidential hart to an extension that the security monitor says it has, with a
  -- function number above 9000, panics: the monitor stops.
  pub route_confidential_flow-unknown :
      (m : Monitor)
      → m.hardware_hart.csrs mcause ≡ 10
      → probe_response (gpr m.hardware_hart.confidential_hart.state a7) ≡ 1
      → 9000 < gpr m.hardware_hart.confidential_hart.state a6
      → route_confidential_flow state_address send_ipi decoder instruction_length m ≡ panic
  unfolding trap_reason trap_cause is_bit_enabled
  route_confidential_flow-unknown m c p l =
      let h = m.hardware_hart.confidential_hart in
      route_confidential_flow-panics m (vs_ecall (decode (gpr h.state a7) (gpr h.state a6)))
        (rw c refl)
        (λ h'.
          dispatch_unknown decoder instruction_length (gpr h.state a7) (gpr h.state a6) h'
            m.hardware_hart.csrs p l)

  -- A fault of a confidential hart on a page that is not mapped, for a load or a store, panics where the
  -- lowest bit of the instruction that the hardware reports is not set, as for a fault on a walk of the
  -- hart's own page tables.
  pub route_confidential_flow-even_fault :
      (m : Monitor)
      → (m.hardware_hart.csrs mcause ≡ 0x15) ⊎ (m.hardware_hart.csrs mcause ≡ 0x17)
      → bit_and (m.hardware_hart.csrs mtinst) 1 ≡ 0
      → route_confidential_flow state_address send_ipi decoder instruction_length m ≡ panic
  unfolding trap_reason trap_cause is_bit_enabled
  route_confidential_flow-even_fault m (inl c) e =
      route_confidential_flow-panics m guest_load_page_fault (rw c refl)
        (λ h'. (dispatch_even_fault decoder instruction_length h' m.hardware_hart.csrs e).0)
  route_confidential_flow-even_fault m (inr c) e =
      route_confidential_flow-panics m guest_store_page_fault (rw c refl)
        (λ h'. (dispatch_even_fault decoder instruction_length h' m.hardware_hart.csrs e).1)
