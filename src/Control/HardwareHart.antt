-- ===== src/Control/HardwareHart.antt =====
-- core/control_data/hardware_hart.rs: the state of a physical hart, and what it exposes to the
-- hypervisor. The hypervisor's memory protector and the stack are not part of the model.
use ace_riscv.Base.{
  ℕ, ◌^◌, Bool, true, false, if◌then◌else◌, bit_or, Outcome, ok, ◌>>=◌, ◌>>◌, assert, not,
  add_usize,
}
use ace_riscv.Riscv.Words.{enable_bit, disable_bit, are_bits_enabled}
use ace_riscv.Riscv.Registers.{GeneralPurposeRegister, a0, a1, a2, a3, a4, a5, a6, a7}
use ace_riscv.Riscv.Csr.{
  Csr, Csrs, set, read_and_set_bit, read_and_clear_bit, mepc, mstatus, mscratch, sepc, stvec,
  scause, stval, htval, hstatus, sstatus, vsscratch, vsie, vstval, vsepc, vstvec, hvip,
}
use ace_riscv.Riscv.HartState.{
  HartArchitecturalState, set_gpr, set_csr, empty, store_control_status_registers_in_main_memory,
  load_control_status_registers_from_main_memory,
}
use ace_riscv.Control.Requests.{SbiRequest, SbiResult}
use ace_riscv.Control.ConfidentialHart.{ConfidentialHart, dummy}

-- A hardware hart together with the registers of the processor.
pub record HardwareHart : Type 0 where
  pub non_confidential : HartArchitecturalState
  pub previous_mscratch : ℕ
  pub confidential_hart : ConfidentialHart
  pub csrs : Csrs

pub data ExposeToHypervisor : Type 0 where
  sbi_request sbi_vm_request : SbiRequest → ExposeToHypervisor
  sbi_result : SbiResult → ExposeToHypervisor
  opensbi_result : (status pc x0 x1 : ℕ) → ExposeToHypervisor
  mmio_load_request : (code stval_value htval_value instruction : ℕ) → ExposeToHypervisor
  mmio_store_request :
      (code stval_value htval_value instruction : ℕ)
      → GeneralPurposeRegister
      → (gpr_value : ℕ) → ExposeToHypervisor
  interrupt_request : (code : ℕ) → ExposeToHypervisor
  enabled_interrupts : (value : ℕ) → ExposeToHypervisor

unfoldable pub init : ℕ → ℕ → Csrs → HardwareHart
unfolding empty
init entry_point id csrs = record {
  non_confidential = empty id;
  previous_mscratch = 0;
  confidential_hart = dummy entry_point id;
  csrs = csrs;
}

unfoldable pub swap_mscratch : HardwareHart → HardwareHart
unfolding set
swap_mscratch w = record w {
  csrs = set mscratch w.previous_mscratch w.csrs;
  previous_mscratch = w.csrs mscratch;
}

-- `store_control_status_registers_in_main_memory`: the hart, and the interrupts to inject.
unfoldable pub store_control_status_registers : HardwareHart → HardwareHart × ℕ
unfolding store_control_status_registers_in_main_memory
store_control_status_registers w = (
  record w {
    non_confidential = store_control_status_registers_in_main_memory w.csrs w.non_confidential;
  },
  w.csrs hvip,
)

abbrev write_csr : Csr → ℕ → HardwareHart → HardwareHart
write_csr r value w = record w { csrs = set r value w.csrs }

abbrev write_gpr : GeneralPurposeRegister → ℕ → HardwareHart → HardwareHart
write_gpr r value w = record w { non_confidential = set_gpr r value w.non_confidential }

abbrev write_field : Csr → ℕ → HardwareHart → HardwareHart
write_field r value w = record w { non_confidential = set_csr r value w.non_confidential }

-- The value of the saved `mstatus` with which the hypervisor's trap handler starts.
unfoldable pub trap_mstatus : ℕ → ℕ
trap_mstatus status =
    enable_bit (disable_bit (disable_bit (enable_bit (disable_bit status 39) 11) 7) 1) 8

unfoldable pub trap_hstatus : Bool → Csrs → Csrs
unfolding read_and_set_bit read_and_clear_bit
trap_hstatus encoded_guest_virtual_address csrs =
    let csrs' =
      read_and_set_bit sstatus 8 (read_and_set_bit hstatus 8 (read_and_set_bit hstatus 7 csrs)) in
    if encoded_guest_virtual_address
    then read_and_set_bit hstatus 6 csrs'
    else read_and_clear_bit hstatus 6 csrs'

unfoldable pub apply_trap : Bool → HardwareHart → Outcome HardwareHart
unfolding set set_csr trap_mstatus trap_hstatus
apply_trap encoded_guest_virtual_address w = do
  assert (not (are_bits_enabled (w.csrs stvec) 3))
  let n = set_csr mstatus (trap_mstatus (w.non_confidential.csrs mstatus)) w.non_confidential
  ok (record w {
    non_confidential = set_csr mepc (w.csrs stvec) n;
    csrs = trap_hstatus encoded_guest_virtual_address (set sepc (n.csrs mepc) w.csrs);
  })

unfoldable pub apply_sbi_request : SbiRequest → HardwareHart → Outcome HardwareHart
unfolding set set_gpr apply_trap
apply_sbi_request r w = apply_trap false (
    write_gpr a5 r.argument5 (
      write_gpr a4 r.argument4 (
        write_gpr a3 r.argument3 (
          write_gpr a2 r.argument2 (
            write_gpr a1 r.argument1 (
              write_gpr a0 r.argument0 (
                write_gpr a6 r.function_id
                  (write_gpr a7 r.extension_id (write_csr scause 10 w)))))))))

unfoldable pub apply : ExposeToHypervisor → HardwareHart → Outcome HardwareHart
unfolding set set_gpr set_csr apply_sbi_request apply_trap
apply (sbi_request r) w = apply_sbi_request r w
apply (sbi_vm_request r) w = apply_sbi_request r w
apply (sbi_result r) w = do
  pc ← add_usize (w.non_confidential.csrs mepc) r.pc_offset
  ok (write_field mepc pc (write_gpr a1 r.value (write_gpr a0 r.error_code w)))
apply (opensbi_result status pc x0 x1) w =
    ok (write_gpr a1 x1 (write_gpr a0 x0 (write_field mepc pc (write_field mstatus status w))))
apply (mmio_load_request code stval_value htval_value instruction) w = apply_trap true (
    write_csr vsscratch instruction
      (write_csr htval htval_value (write_csr stval stval_value (write_csr scause code w))))
apply (mmio_store_request code stval_value htval_value instruction r gpr_value) w =
    apply_trap true (
      write_csr vsscratch instruction (
        write_gpr r gpr_value
          (write_csr htval htval_value (write_csr stval stval_value (write_csr scause code w)))))
apply (interrupt_request code) w = apply_trap false (write_csr scause (bit_or code (2 ^ 63)) w)
apply (enabled_interrupts value) w = ok (write_csr vsie value w)

-- `load_control_status_registers_from_main_memory` with the enabled interrupts of the confidential hart.
unfoldable pub load_control_status_registers : ℕ → HardwareHart → HardwareHart
unfolding set load_control_status_registers_from_main_memory
load_control_status_registers enabled w =
    write_csr vsie enabled
      (record w { csrs = load_control_status_registers_from_main_memory w.non_confidential w.csrs })

-- `read_security_monitor_call_arguments`: the ids of the confidential VM and of its hart.
unfoldable pub read_security_monitor_call_arguments : HardwareHart → ℕ × ℕ
read_security_monitor_call_arguments w = (w.csrs vstvec, w.csrs vsscratch)

unfoldable pub restore_original_gprs : HardwareHart → HardwareHart
unfolding set_gpr
restore_original_gprs w = write_gpr a6 (w.csrs vsepc) (write_gpr a7 (w.csrs vstval) w)
