-- ===== src/Control/Dispatch/Panics.antt =====
-- confidential_flow/control_flow/mod.rs: which traps of a confidential hart stop the security monitor, and
-- which extensions it says it has (handlers/sbi_probe_extension.rs).
use ace_riscv.Base.{ℕ, ◌<◌, ◌≡◌, ◌↔◌, refl, inl, inr, ◌==◌, Bool-cases, bit_and, panic, arith}
use ace_riscv.Riscv.Csr.{Csrs, mtinst}
use ace_riscv.Riscv.Sbi.{
  SbiExtension, AceExtension, BaseExtension, IpiExtension, RfenceExtension, HsmExtension,
  SrstExtension, decode, vs_ecall, guest_load_page_fault, guest_store_page_fault, ace, base, ipi,
  rfence, hsm, srst, ace_extid, base_extid, ipi_extid, rfence_extid, hsm_extid, srst_extid,
  ace_from_function_id, base_from_function_id, ipi_from_function_id, rfence_from_function_id,
  hsm_from_function_id, srst_from_function_id,
}
use ace_riscv.Riscv.CompressedInstructions.{DecodedInstruction}
use ace_riscv.Control.ConfidentialHart.{ConfidentialHart}
use ace_riscv.Control.Emulation.{probe_response}
use ace_riscv.Control.Declassify.{
  faulted_instruction, guest_load_page_fault_request, guest_store_page_fault_request,
}
use ace_riscv.Control.Dispatch.{dispatch, load_fault_trap, store_fault_trap}

-- The security monitor answers that it has an extension exactly where its decoder knows the extension.
pub probe_response-decode :
    (e f : ℕ) → (probe_response e ≡ 0) ↔ (decode e f ≡ SbiExtension.unknown e f)
unfolding probe_response decode
probe_response-decode e f = ((λ p. ground arith), (λ q. ground arith))

ace_unknown : (f : ℕ) → 9000 < f → ace_from_function_id f ≡ AceExtension.unknown ace_extid f
unfolding ace_from_function_id
ace_unknown f l = ground arith

base_unknown : (f : ℕ) → 9000 < f → base_from_function_id f ≡ BaseExtension.unknown base_extid f
unfolding base_from_function_id
base_unknown f l = ground arith

ipi_unknown : (f : ℕ) → 9000 < f → ipi_from_function_id f ≡ IpiExtension.unknown ipi_extid f
unfolding ipi_from_function_id
ipi_unknown f l = ground arith

rfence_unknown :
    (f : ℕ) → 9000 < f → rfence_from_function_id f ≡ RfenceExtension.unknown rfence_extid f
unfolding rfence_from_function_id
rfence_unknown f l = ground arith

hsm_unknown : (f : ℕ) → 9000 < f → hsm_from_function_id f ≡ HsmExtension.unknown hsm_extid f
unfolding hsm_from_function_id
hsm_unknown f l = ground arith

srst_unknown : (f : ℕ) → 9000 < f → srst_from_function_id f ≡ SrstExtension.unknown srst_extid f
unfolding srst_from_function_id
srst_unknown f l = ground arith

module _ (decoder : ℕ → DecodedInstruction) (instruction_length : ℕ → ℕ) where
  pub dispatch_unknown :
      (e f : ℕ) (h : ConfidentialHart) (csrs : Csrs)
      → probe_response e ≡ 1
      → 9000 < f
      → dispatch decoder instruction_length (vs_ecall (decode e f)) h csrs ≡ panic
  unfolding probe_response decode dispatch
  dispatch_unknown e f h csrs p l = elim (Bool-cases (e == ace_extid)) [
    | inl ace_case ↦
        let d : decode e f ≡ ace (AceExtension.unknown ace_extid f) =
          ground (arith, ace_unknown f l) in
        rw d refl
    | inr not_ace ↦ elim (Bool-cases (e == base_extid)) [
      | inl base_case ↦
          let d : decode e f ≡ base (BaseExtension.unknown base_extid f) =
            ground (arith, base_unknown f l) in
          rw d refl
      | inr not_base ↦ elim (Bool-cases (e == ipi_extid)) [
        | inl ipi_case ↦
            let d : decode e f ≡ ipi (IpiExtension.unknown ipi_extid f) =
              ground (arith, ipi_unknown f l) in
            rw d refl
        | inr not_ipi ↦ elim (Bool-cases (e == rfence_extid)) [
          | inl rfence_case ↦
              let d : decode e f ≡ rfence (RfenceExtension.unknown rfence_extid f) =
                ground (arith, rfence_unknown f l) in
              rw d refl
          | inr not_rfence ↦ elim (Bool-cases (e == hsm_extid)) [
            | inl hsm_case ↦
                let d : decode e f ≡ hsm (HsmExtension.unknown hsm_extid f) =
                  ground (arith, hsm_unknown f l) in
                rw d refl
            | inr not_hsm ↦
                let d : decode e f ≡ srst (SrstExtension.unknown srst_extid f) =
                  ground (arith, srst_unknown f l) in
                rw d refl
          ]
        ]
      ]
    ]
  ]

  -- The instruction of a fault must have its lowest bit set.
  faulted_instruction_even :
      (csrs : Csrs)
      → bit_and (csrs mtinst) 1 ≡ 0
      → faulted_instruction decoder instruction_length csrs ≡ panic
  unfolding faulted_instruction
  faulted_instruction_even csrs e = rw e refl

  load_fault_trap_even :
      (csrs : Csrs)
      → bit_and (csrs mtinst) 1 ≡ 0
      → load_fault_trap decoder instruction_length csrs ≡ panic
  unfolding load_fault_trap guest_load_page_fault_request
  load_fault_trap_even csrs e = ground (arith, faulted_instruction_even csrs e)

  store_fault_trap_even :
      (h : ConfidentialHart) (csrs : Csrs)
      → bit_and (csrs mtinst) 1 ≡ 0
      → store_fault_trap decoder instruction_length h csrs ≡ panic
  unfolding store_fault_trap guest_store_page_fault_request
  store_fault_trap_even h csrs e = ground (arith, faulted_instruction_even csrs e)

  pub dispatch_even_fault :
      (h : ConfidentialHart) (csrs : Csrs)
      → bit_and (csrs mtinst) 1 ≡ 0
      → (dispatch decoder instruction_length guest_load_page_fault h csrs ≡ panic)
        × (dispatch decoder instruction_length guest_store_page_fault h csrs ≡ panic)
  unfolding dispatch
  dispatch_even_fault h csrs e = (load_fault_trap_even csrs e, store_fault_trap_even h csrs e)
