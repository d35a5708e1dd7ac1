-- ===== src/Riscv/HartState.antt =====
-- core/architecture/riscv/hart_architectural_state.rs and floating_point_registers.rs. The fields that
-- hold control and status registers are a function from the registers' names.
use ace_riscv.Base.{ℕ, ◌-◌, if◌then◌else◌, Bool, true, false, usize_max}
use ace_riscv.Riscv.Registers.{GeneralPurposeRegister, GeneralPurposeRegisters}
use ace_riscv.Riscv.Registers
use ace_riscv.Riscv.Csr.{
  Csr, Csrs, set, mepc, mstatus, medeleg, mideleg, mie, mip, mtinst, mtval, mtval2, mtvec, sstatus,
  hstatus, sepc, scounteren, sip, sie, scause, stvec, stval, sscratch, hvip, hgeip, hie, hip, hgatp,
  hedeleg, hideleg, htinst, htval, vstimecmp, htimedelta, vsstatus, vsie, vsip, vstvec, vsscratch,
  vsepc, vscause, vstval, vsatp, fcsr, mcause, mscratch, pmpcfg0, pmpaddr0, pmpaddr1,
}

pub record HartArchitecturalState : Type 0 where
  pub gprs : GeneralPurposeRegisters
  pub id : ℕ
  pub csrs : Csrs
  pub fprs : ℕ → ℕ

unfoldable pub gpr : HartArchitecturalState → GeneralPurposeRegister → ℕ
gpr h register = h.gprs register

unfoldable pub set_gpr :
    GeneralPurposeRegister → ℕ → HartArchitecturalState → HartArchitecturalState
set_gpr register value h = record h { gprs = ace_riscv.Riscv.Registers.set register value h.gprs }

-- An assignment `self.x = value` to the field of a register.
unfoldable pub set_csr : Csr → ℕ → HartArchitecturalState → HartArchitecturalState
unfolding set
set_csr r value h = record h { csrs = set r value h.csrs }

unfoldable pub empty : ℕ → HartArchitecturalState
empty id = record {
  gprs = ace_riscv.Riscv.Registers.empty;
  id = id;
  csrs = set vstimecmp (usize_max - 1) (λ r. 0);
  fprs = λ i. 0;
}

-- All registers are read from the hart; the general purpose and floating point ones are cloned.
unfoldable pub from_existing : ℕ → HartArchitecturalState → Csrs → HartArchitecturalState
from_existing id existing csrs = record {
  gprs = existing.gprs;
  id = id;
  csrs = csrs;
  fprs = existing.fprs;
}

-- The registers that `store_control_status_registers_in_main_memory` reads.
abbrev pub is_stored : Csr → Bool
is_stored mepc = true
is_stored mstatus = true
is_stored medeleg = true
is_stored mideleg = true
is_stored mie = true
is_stored mip = false
is_stored mtinst = false
is_stored mtval = false
is_stored mtval2 = false
is_stored mtvec = true
is_stored sstatus = true
is_stored hstatus = true
is_stored sepc = true
is_stored scounteren = true
is_stored sip = true
is_stored sie = true
is_stored scause = true
is_stored stvec = true
is_stored stval = true
is_stored sscratch = true
is_stored hvip = true
is_stored hgeip = true
is_stored hie = true
is_stored hip = true
is_stored hgatp = true
is_stored hedeleg = true
is_stored hideleg = true
is_stored htinst = true
is_stored htval = true
is_stored vstimecmp = true
is_stored htimedelta = true
is_stored vsstatus = true
is_stored vsie = true
is_stored vsip = true
is_stored vstvec = true
is_stored vsscratch = true
is_stored vsepc = true
is_stored vscause = true
is_stored vstval = true
is_stored vsatp = true
is_stored fcsr = true
is_stored mcause = false
is_stored mscratch = false
is_stored pmpcfg0 = false
is_stored pmpaddr0 = false
is_stored pmpaddr1 = false

-- The registers that `load_control_status_registers_from_main_memory` writes.
abbrev pub is_loaded : Csr → Bool
is_loaded mepc = true
is_loaded mstatus = true
is_loaded medeleg = true
is_loaded mideleg = true
is_loaded mie = true
is_loaded mip = false
is_loaded mtinst = false
is_loaded mtval = false
is_loaded mtval2 = false
is_loaded mtvec = true
is_loaded sstatus = true
is_loaded hstatus = true
is_loaded sepc = true
is_loaded scounteren = true
is_loaded sip = true
is_loaded sie = true
is_loaded scause = true
is_loaded stvec = true
is_loaded stval = true
is_loaded sscratch = true
is_loaded hvip = false
is_loaded hgeip = false
is_loaded hie = true
is_loaded hip = false
is_loaded hgatp = true
is_loaded hedeleg = true
is_loaded hideleg = true
is_loaded htinst = true
is_loaded htval = true
is_loaded vstimecmp = true
is_loaded htimedelta = true
is_loaded vsstatus = true
is_loaded vsie = true
is_loaded vsip = true
is_loaded vstvec = true
is_loaded vsscratch = true
is_loaded vsepc = true
is_loaded vscause = true
is_loaded vstval = true
is_loaded vsatp = true
is_loaded fcsr = true
is_loaded mcause = false
is_loaded mscratch = false
is_loaded pmpcfg0 = false
is_loaded pmpaddr0 = false
is_loaded pmpaddr1 = false

unfoldable pub store_control_status_registers_in_main_memory :
    Csrs → HartArchitecturalState → HartArchitecturalState
store_control_status_registers_in_main_memory csrs h = record h {
  csrs = λ r. if is_stored r then csrs r else h.csrs r;
}

unfoldable pub load_control_status_registers_from_main_memory : HartArchitecturalState → Csrs → Csrs
load_control_status_registers_from_main_memory h csrs r = if is_loaded r then h.csrs r else csrs r
