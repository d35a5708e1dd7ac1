-- ===== src/InterruptController.antt =====
-- core/interrupt_controller/mod.rs. The call of OpenSBI that sends an interrupt to a set of harts, given by
-- a mask and the hart that its first bit stands for, is a parameter; the static variable is a flag.
use ace_riscv.Base.{
  ℕ, Bool, true, false, zero, suc, Outcome, ok, err, interrupt_sending_error, reinitialization,
}

-- `InterruptController::initialize`
abbrev pub initialize : Bool → Outcome Bool
initialize false = ok true
initialize true = err reinitialization

abbrev answer_of : ℕ → Outcome (Unit {0})
answer_of zero = ok tt
answer_of (suc _) = err interrupt_sending_error

unfoldable pub send_ipi : (ℕ → ℕ → ℕ) → ℕ → Outcome (Unit {0})
send_ipi sbi_ipi_send_smode target_hart_id = answer_of (sbi_ipi_send_smode 1 target_hart_id)
